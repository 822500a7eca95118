-- ===== src/LinkedList/Relink.antt =====
-- What `kvs_list_add_core` and `kvs_list_del_core` of src/kvs_list.c do to a ring.
use mathlib.Core.Path.{subst}
use ckv.Run.{Returns, ok}
use ckv.LinkedList.{NodePtr, Memory, ListNode, load_node, add_core}
use ckv.LinkedList.Store.{linked_to, Relinked, next_of, prev_of, val_of, IsLive, add_core-Relinked}
use ckv.LinkedList.Ring.{IsRing, Cells, Reach, count, tally, count-append, Reach-last}
use ckv.LinkedList.Change.{
  first-tally, not_here, Closes, Closes-next, Closes-change, Reach-change, Elsewhere, first,
  IsRing-of-Closes,
}
use ckv.Base.{
  Bool-cases, inr, inl, Option-cases, ℕ, ◌≤◌, ◌<◌, ◌≡◌, ◌≢◌, sym, ◌∙◌, ◌∷◌, ◌++◌, some, ◌==◌, arith,
}

module _ {V : Type 0} where
  pub load_node-next :
      (mem : Memory V) (p q : NodePtr)
      → next_of mem p ≡ some q
      → (n : ListNode V) × (mem.cell p ≡ some n) × (load_node mem p ≡ ok n) × (n.next ≡ q)
  unfolding load_node
  load_node-next mem p q e = elim (Option-cases (mem.cell p)) [
    | inl n ↦ absurd (ground (arith, e, n))
    | inr (n, s) ↦ (n, s, rw s, ground (arith, e, s))
  ]

  pub load_node-prev :
      (mem : Memory V) (p q : NodePtr)
      → prev_of mem p ≡ some q
      → (n : ListNode V) × (mem.cell p ≡ some n) × (load_node mem p ≡ ok n) × (n.prev ≡ q)
  unfolding load_node
  load_node-prev mem p q e = elim (Option-cases (mem.cell p)) [
    | inl n ↦ absurd (ground (arith, e, n))
    | inr (n, s) ↦ (n, s, rw s, ground (arith, e, s))
  ]

  pub IsLive-next : (mem : Memory V) (p q : NodePtr) → next_of mem p ≡ some q → IsLive mem p
  IsLive-next mem p q e = let (n, s, _, _) = load_node-next mem p q e in (n, s)

  pub IsLive-prev : (mem : Memory V) (p q : NodePtr) → prev_of mem p ≡ some q → IsLive mem p
  IsLive-prev mem p q e = let (n, s, _, _) = load_node-prev mem p q e in (n, s)

  -- A node that is not in a ring is another than those of its parts.
  apart :
      (mem : Memory V) (head : NodePtr) (us vs : Cells V) (c n : NodePtr)
      → Reach mem head us c
      → tally head n (us ++ vs) ≡ 0
      → (c ≢ n) × (first head vs ≢ n)
  apart mem head us vs c n r out = (
    not_here c n us head (omega (arith, out, count-append n us vs)) (Reach-last mem head us c r),
    not_here (first head vs) n vs head (omega (arith, out, count-append n us vs))
        (first-tally head vs),
  )

  once-insert :
      (head n x : NodePtr) (v : V) (us vs : Cells V)
      → tally head x (us ++ vs) ≤ 1
      → tally head n (us ++ vs) ≡ 0
      → tally head x (us ++ (n, v) ∷ vs) ≤ 1
  unfolding count
  once-insert head n x v us vs once out = elim (Bool-cases (n == x)) [
    | inl same ↦
        let e : n ≡ x = ground (arith, same) in
        ground (
          arith,
          same,
          subst (λ z. tally head z (us ++ vs) ≡ 0) e out,
          count-append x us ((n, v) ∷ vs),
          count-append x us vs,
        )
    | inr differ ↦
        ground (arith, differ, once, count-append x us ((n, v) ∷ vs), count-append x us vs)
  ]

  below-insert :
      (head n x : NodePtr) (v : V) (us vs : Cells V) (top : ℕ)
      → (0 < tally head x (us ++ vs) → x < top)
      → n < top
      → 0 < tally head x (us ++ (n, v) ∷ vs)
      → x < top
  unfolding count
  below-insert head n x v us vs top below bound h = elim (Bool-cases (n == x)) [
    | inl same ↦ ground (arith, same, bound)
    | inr differ ↦
        below (ground (arith, differ, h, count-append x us ((n, v) ∷ vs), count-append x us vs))
  ]

  -- The links and values after `n` went between `c` and what follows it.
  linked-IsRing :
      (mem mem' : Memory V) (head : NodePtr) (us vs : Cells V) (c n : NodePtr) (v : V)
      → IsRing mem head (us ++ vs)
      → Reach mem head us c
      → Closes mem head c vs
      → val_of mem n ≡ some v
      → tally head n (us ++ vs) ≡ 0
      → n < mem.top
      → Relinked mem
          (linked_to (linked_to (next_of mem) c n) n (first head vs))
          (linked_to (linked_to (prev_of mem) n c) (first head vs) n)
          mem'
      → IsRing mem' head (us ++ (n, v) ∷ vs)
  unfolding count
  linked-IsRing mem mem' head us vs c n v ring r s val out bound links =
      let at_c = Reach-last mem head us c r in
      let (c_apart, q_apart) = apart mem head us vs c n r out in
      let same : Elsewhere mem mem' n c (first head vs) = record {
        nexts = λ x e e'. ground (arith, links.nexts x, e, e');
        prevs = λ x e e'. ground (arith, links.prevs x, e, e');
        vals = λ x _. links.vals x;
      } in
      let closed =
        Closes-change mem mem' n c head us vs c n same ring.once out at_c
          (ground (arith, links.nexts n)) (ground (arith, links.prevs (first head vs))) s in
      IsRing-of-Closes mem' head us ((n, v) ∷ vs) c
        (Reach-change mem mem' n c head us vs same ring.once out r)
        record {
          last = closed.last;
          reach = (
            ground (arith, links.nexts c, c_apart),
            ground (arith, links.prevs n, q_apart),
            links.vals n ∙ val,
            closed.reach,
          );
          close_next = closed.close_next;
          close_prev = closed.close_prev;
        }
        (λ x. once-insert head n x v us vs (ring.once x) out)
        (λ x h.
          subst (λ z. x < z) (sym links.top)
            (below-insert head n x v us vs mem.top (ring.below x) bound h))

  -- A node `n` outside of a ring goes between two nodes of it.
  pub add_core-IsRing :
      (mem : Memory V) (head : NodePtr) (us vs : Cells V) (c n : NodePtr) (v : V)
      → IsRing mem head (us ++ vs)
      → Reach mem head us c
      → Closes mem head c vs
      → IsLive mem n
      → val_of mem n ≡ some v
      → tally head n (us ++ vs) ≡ 0
      → n < mem.top
      → Returns (λ mem'. IsRing mem' head (us ++ (n, v) ∷ vs)) (add_core mem c (first head vs) n)
  add_core-IsRing mem head us vs c n v ring r s live val out bound =
      let (to, back) = Closes-next mem head c vs s in
      let (mem', run, links) =
        add_core-Relinked mem c (first head vs) n (IsLive-next mem c _ to)
          (IsLive-prev mem (first head vs) _ back) live in
      (mem', run, linked-IsRing mem mem' head us vs c n v ring r s val out bound links)

  -- `kvs_list_del_core` on the neighbours of a node.
  pub unlinked-IsRing :
      (mem mem' : Memory V) (head : NodePtr) (us vs : Cells V) (c b : NodePtr) (w : V)
      → IsRing mem head (us ++ (b, w) ∷ vs)
      → Reach mem head us c
      → Closes mem head b vs
      → Relinked mem
          (linked_to (next_of mem) c (first head vs))
          (linked_to (prev_of mem) (first head vs) c)
          mem'
      → IsRing mem' head (us ++ vs)
  unfolding count
  unlinked-IsRing mem mem' head us vs c b w ring r s links =
      let same : Elsewhere mem mem' b c (first head vs) = record {
        nexts = λ x e e'. ground (arith, links.nexts x, e, e');
        prevs = λ x e e'. ground (arith, links.prevs x, e, e');
        vals = λ x _. links.vals x;
      } in
      let once : ((x : NodePtr) → tally head x (us ++ vs) ≤ 1) =
        λ x. omega (arith, ring.once x, count-append x us ((b, w) ∷ vs), count-append x us vs) in
      let out : (tally head b (us ++ vs) ≡ 0) =
        ground (arith, ring.once b, count-append b us ((b, w) ∷ vs), count-append b us vs) in
      IsRing-of-Closes mem' head us vs c (Reach-change mem mem' b c head us vs same once out r)
        (Closes-change mem mem' b c head us vs b c same once out (Reach-last mem head us c r)
          (ground (arith, links.nexts c)) (ground (arith, links.prevs (first head vs))) s)
        once
        (λ x h.
          subst (λ z. x < z) (sym links.top)
            (ring.below x
              (omega (arith, h, count-append x us ((b, w) ∷ vs), count-append x us vs))))
