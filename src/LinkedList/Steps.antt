-- ===== src/LinkedList/Steps.antt =====
-- The operations of src/kvs_list.c on the sequences that lists stand for.
use mathlib.Core.List.{append-nil}
use mathlib.Core.Path.{subst}
use ckv.Run.{bind-ok, ok-then, Returns, ok}
use ckv.LinkedList.{
  set_next, set_prev, del_core, NodePtr, Memory, ListNode, KvsList, load_node, cell_set, add_core,
  node_new, list_add, list_add_tail, list_del, list_init,
}
use ckv.LinkedList.Store.{
  next_in, next_of, prev_of, IsLive, next_in, prev_in, val_in, del_core-Relinked,
  head_init-Relinked,
}
use ckv.LinkedList.Ring.{Reach-last, IsRing, Cells, Reach, count, tally, Reach-frame, Reach-last}
use ckv.LinkedList.Change.{Closes, Closes-of-IsRing, Closes-next, first}
use ckv.LinkedList.Relink.{
  add_core-IsRing, unlinked-IsRing, load_node-next, load_node-prev, IsLive-next, IsLive-prev,
}
use ckv.Base.{
  ℕ, zero, suc, ◌<◌, ◌≡◌, refl, sym, ap, ◌∙◌, [], ◌∷◌, ◌++◌, Bool, true, false, some, if◌then◌else◌,
  arith,
}

never : (n top : ℕ) → (0 < n → top < top) → n ≡ 0
never zero top h = refl
never (suc n) top h = absurd (omega (arith, h (omega arith)))

module _ {V : Type 0} where
  -- The memory after an allocation.
  abbrev grown : Memory V → ListNode V → Memory V
  grown mem n = record { top = suc mem.top; cell = cell_set mem.cell mem.top n }

  kept :
      (mem : Memory V) (n : ListNode V) (x : NodePtr)
      → x < mem.top
      → (grown mem n).cell x ≡ mem.cell x
  kept mem n x h = ground (arith, h)

  grown-IsRing :
      (mem : Memory V) (head : NodePtr) (xs : Cells V) (n : ListNode V)
      → IsRing mem head xs
      → IsRing (grown mem n) head xs
  grown-IsRing mem head xs n r =
      let same : ((x : NodePtr) → 0 < tally head x xs → (grown mem n).cell x ≡ mem.cell x) =
        λ x h. kept mem n x (r.below x h) in
      record {
        last = r.last;
        reach =
            Reach-frame mem (grown mem n) head xs r.last r.reach r.once
              (λ x h. let e = same x (omega (arith, h)) in (ap prev_in e, ap val_in e))
              (λ x h _. ap next_in (same x h));
        close_next =
            ap next_in (same r.last (Reach-last mem head xs r.last r.reach)) ∙ r.close_next;
        close_prev = ap prev_in (same head (ground arith)) ∙ r.close_prev;
        once = r.once;
        below = λ x h. omega (arith, r.below x h);
      }

  fresh :
      (mem : Memory V) (head : NodePtr) (xs : Cells V)
      → IsRing mem head xs
      → tally head mem.top xs ≡ 0
  fresh mem head xs r = never (tally head mem.top xs) mem.top (r.below mem.top)

  -- A node for `v`, put between two parts of a ring.
  added-IsRing :
      (mem : Memory V) (n : ListNode V) (head c : NodePtr) (us vs : Cells V) (v : V)
      → n.val ≡ some v
      → IsRing mem head (us ++ vs)
      → Reach (grown mem n) head us c
      → Closes (grown mem n) head c vs
      → Returns
          (λ mem'. IsRing mem' head (us ++ (mem.top, v) ∷ vs))
          (add_core (grown mem n) c (first head vs) mem.top)
  added-IsRing mem n head c us vs v val r s t =
      add_core-IsRing (grown mem n) head us vs c mem.top v (grown-IsRing mem head (us ++ vs) n r) s
        t (n, ground arith) (ground (arith, val)) (fresh mem head (us ++ vs) r) (omega arith)

  list_add-run :
      (junk h : ListNode V) (mem mem' : Memory V) (l : KvsList) (v : V) (q : NodePtr)
      → load_node (grown mem (record junk { val = some v })) l.head ≡ ok h
      → h.next ≡ q
      → add_core (grown mem (record junk { val = some v })) l.head q mem.top ≡ ok mem'
      → list_add true junk mem l v ≡ ok (true, mem')
  unfolding list_add node_new
  list_add-run junk h mem mem' l v q found leads run =
      let run' =
        subst (λ q. add_core (grown mem (record junk { val = some v })) l.head q mem.top ≡ ok mem')
          (sym leads) run in
      ok-then (load_node (grown mem (record junk { val = some v })) l.head) h _ found
      ∙ ok-then (add_core (grown mem (record junk { val = some v })) l.head h.next mem.top) mem' _
          run'

  list_add_tail-run :
      (junk h : ListNode V) (mem mem' : Memory V) (l : KvsList) (v : V) (c : NodePtr)
      → load_node (grown mem (record junk { val = some v })) l.head ≡ ok h
      → h.prev ≡ c
      → add_core (grown mem (record junk { val = some v })) c l.head mem.top ≡ ok mem'
      → list_add_tail true junk mem l v ≡ ok (true, mem')
  unfolding list_add_tail node_new
  list_add_tail-run junk h mem mem' l v c found leads run =
      let run' =
        subst (λ c. add_core (grown mem (record junk { val = some v })) c l.head mem.top ≡ ok mem')
          (sym leads) run in
      ok-then (load_node (grown mem (record junk { val = some v })) l.head) h _ found
      ∙ ok-then (add_core (grown mem (record junk { val = some v })) h.prev l.head mem.top) mem' _
          run'

  -- On a list whose nodes form a ring, distinct and within the memory given out, `kvs_list_add` puts
  -- a new node first, and changes nothing when there is no memory for it. What is left is such a ring.
  pub list_add-IsRing :
      (memory : Bool) (junk : ListNode V) (mem : Memory V) (l : KvsList) (v : V) (xs : Cells V)
      → IsRing mem l.head xs
      → Returns
          (λ (done, mem').
            (done ≡ memory) × IsRing mem' l.head (if memory then (mem.top, v) ∷ xs else xs))
          (list_add memory junk mem l v)
  unfolding list_add node_new
  list_add-IsRing false junk mem l v xs r = ((false, mem), refl, (refl, r))
  list_add-IsRing true junk mem l v xs r =
      let n : ListNode V = record junk { val = some v } in
      let g = grown-IsRing mem l.head xs n r in
      let s : Closes (grown mem n) l.head l.head xs = record {
        last = g.last;
        reach = g.reach;
        close_next = g.close_next;
        close_prev = g.close_prev;
      } in
      let (mem', run, ring) = added-IsRing mem n l.head l.head [] xs v refl r refl s in
      let (h, _, found, leads) =
        load_node-next (grown mem n) l.head (first l.head xs)
          (Closes-next (grown mem n) l.head l.head xs s).0 in
      ((true, mem'), list_add-run junk h mem mem' l v _ found leads run, (refl, ring))

  -- On a list whose nodes form a ring, distinct and within the memory given out, `kvs_list_add_tail`
  -- puts a new node last, and changes nothing when there is no memory for it. What is left is such a
  -- ring.
  pub list_add_tail-IsRing :
      (memory : Bool) (junk : ListNode V) (mem : Memory V) (l : KvsList) (v : V) (xs : Cells V)
      → IsRing mem l.head xs
      → Returns
          (λ (done, mem').
            (done ≡ memory) × IsRing mem' l.head (if memory then xs ++ (mem.top, v) ∷ [] else xs))
          (list_add_tail memory junk mem l v)
  unfolding list_add_tail node_new
  list_add_tail-IsRing false junk mem l v xs r = ((false, mem), refl, (refl, r))
  list_add_tail-IsRing true junk mem l v xs r =
      let n : ListNode V = record junk { val = some v } in
      let g = grown-IsRing mem l.head xs n r in
      let (mem', run, ring) =
        added-IsRing mem n l.head g.last xs [] v refl
          (subst (λ ys. IsRing mem l.head ys) (sym (append-nil xs)) r) g.reach
          record {
            last = g.last;
            reach = refl;
            close_next = g.close_next;
            close_prev = g.close_prev;
          } in
      let (h, _, found, leads) = load_node-prev (grown mem n) l.head g.last g.close_prev in
      ((true, mem'), list_add_tail-run junk h mem mem' l v _ found leads run, (refl, ring))

  list_del-run :
      (mem mem' : Memory V) (l : KvsList) (b c q : NodePtr)
      → prev_of mem b ≡ some c
      → next_of mem b ≡ some q
      → del_core mem c q ≡ ok mem'
      → list_del mem l b ≡ ok mem'
  unfolding list_del
  list_del-run mem mem' l b c q back out run =
      let (n, at, found, leads) = load_node-next mem b q out in
      let leads' : n.prev ≡ c = ground (arith, at, back) in
      ok-then (load_node mem b) n _ found
      ∙ subst (λ z. del_core mem z n.next ≡ ok mem') (sym leads')
          (subst (λ z. del_core mem c z ≡ ok mem') (sym leads) run)

  -- On a list whose nodes form a ring, distinct and within the memory given out, `kvs_list_del` of
  -- any of the nodes returns, and leaves such a ring of the others in their order.
  pub list_del-IsRing :
      (mem : Memory V) (l : KvsList) (us vs : Cells V) (b : NodePtr) (w : V)
      → IsRing mem l.head (us ++ (b, w) ∷ vs)
      → Returns (λ mem'. IsRing mem' l.head (us ++ vs)) (list_del mem l b)
  list_del-IsRing mem l us vs b w r =
      let (c, s, t) = Closes-of-IsRing mem l.head us ((b, w) ∷ vs) r in
      let (to, back, _, rest) = t.reach in
      let t' : Closes mem l.head b vs = record {
        last = t.last;
        reach = rest;
        close_next = t.close_next;
        close_prev = t.close_prev;
      } in
      let (out, home) = Closes-next mem l.head b vs t' in
      let (mem', run, links) =
        del_core-Relinked mem c (first l.head vs) (IsLive-next mem c b to)
          (IsLive-prev mem (first l.head vs) b home) in
      (
        mem',
        list_del-run mem mem' l b c (first l.head vs) back out run,
        unlinked-IsRing mem mem' l.head us vs c b w r s t' links,
      )

  -- `kvs_list_init` makes the empty sequence of a node of the memory.
  pub list_init-IsRing :
      (mem : Memory V) (head : NodePtr)
      → IsLive mem head
      → head < mem.top
      → Returns (λ (l, mem'). (l.head ≡ head) × IsRing mem' head []) (list_init mem head)
  unfolding list_init count
  list_init-IsRing mem head live inside =
      let (mem', run, links) = head_init-Relinked mem head live in
      (
        (record { head = head; len = 0 }, mem'),
        bind-ok (set_prev mem head head) (λ mem'. set_next mem' head head)
            (λ mem'. ok (record { head = head; len = 0 }, mem')) run,
        (
          refl,
          record {
            last = head;
            reach = refl;
            close_next = ground (arith, links.nexts head);
            close_prev = ground (arith, links.prevs head);
            once = λ x. ground arith;
            below = λ x h. ground (arith, h, inside, links.top);
          },
        ),
      )
