-- ===== src/LinkedList/Visit.antt =====
-- The loop of src/kvs_list.h over a list.
use mathlib.Core.Path.{subst}
use ckv.Run.{ok-then, ok}
use ckv.LinkedList.{NodePtr, Memory, ListNode, KvsList, load_node, for_each, for_each_from}
use ckv.LinkedList.Ring.{IsRing, Cells, count}
use ckv.LinkedList.Change.{Closes, Closes-next, first}
use ckv.LinkedList.Relink.{load_node-next}
use ckv.Base.{
  length, ℕ, zero, suc, ◌<◌, ◌≡◌, ◌≢◌, sym, ap, ◌∙◌, List, [], ◌∷◌, map, false, Option, some, ◌==◌,
  arith,
}

module _ {V : Type 0} where
  for_each-visit :
      (f : ℕ) (mem : Memory V) (head x q : NodePtr) (n : ListNode V) (w : Option V)
      (vals : List (Option V))
      → x ≢ head
      → load_node mem x ≡ ok n
      → n.next ≡ q
      → n.val ≡ w
      → for_each_from f mem head q ≡ ok vals
      → for_each_from (suc f) mem head x ≡ ok (w ∷ vals)
  unfolding for_each_from
  for_each-visit f mem head x q n w vals other found leads val rest =
      let apart : (x == head) ≡ false = ground (arith, other) in
      let rest' = subst (λ z. for_each_from f mem head z ≡ ok vals) (sym leads) rest in
      rw (for_each_from, apart)
        (ok-then (load_node mem x) n _ found
          ∙ ok-then (for_each_from f mem head n.next) vals _ rest'
          ∙ ap (λ z. ok (z ∷ vals)) val)

  for_each-Closes :
      (f : ℕ) (mem : Memory V) (head c : NodePtr) (vs : Cells V)
      → length vs < f
      → count head vs ≡ 0
      → Closes mem head c vs
      → for_each_from f mem head (first head vs) ≡ ok (map (λ v. some v.1) vs)
  unfolding for_each_from count
  for_each-Closes zero mem head c vs fuel out r = absurd (omega arith)
  for_each-Closes (suc f) mem head c [] fuel out r = ground arith
  for_each-Closes (suc f) mem head c (v ∷ vs) fuel out r =
      let (_, _, val, rest) = r.reach in
      let s : Closes mem head v.0 vs = record {
        last = r.last;
        reach = rest;
        close_next = r.close_next;
        close_prev = r.close_prev;
      } in
      let (n, at, found, leads) =
        load_node-next mem v.0 (first head vs) (Closes-next mem head v.0 vs s).0 in
      let others = for_each-Closes f mem head v.0 vs (omega arith) (omega (arith, out)) s in
      for_each-visit f mem head v.0 (first head vs) n (some v.1) (map (λ v. some v.1) vs)
        (λ e. ground (arith, e, out)) found leads (ground (arith, at, val)) others

  -- On a list whose nodes form a ring of distinct nodes, with more fuel than there are nodes, the
  -- loop `kvs_list_for_each` ends, and visits the value of every node once and in order.
  pub for_each-IsRing :
      (f : ℕ) (mem : Memory V) (l : KvsList) (xs : Cells V)
      → IsRing mem l.head xs
      → length xs < f
      → for_each f mem l ≡ ok (map (λ v. some v.1) xs)
  unfolding for_each
  for_each-IsRing f mem l xs r fuel =
      let s : Closes mem l.head l.head xs = record {
        last = r.last;
        reach = r.reach;
        close_next = r.close_next;
        close_prev = r.close_prev;
      } in
      let (n, at, found, leads) =
        load_node-next mem l.head (first l.head xs) (Closes-next mem l.head l.head xs s).0 in
      let all = for_each-Closes f mem l.head l.head xs fuel (ground (arith, r.once l.head)) s in
      ok-then (load_node mem l.head) n _ found
      ∙ subst (λ z. for_each_from f mem l.head z ≡ ok (map (λ v. some v.1) xs)) (sym leads) all
