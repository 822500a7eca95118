-- ===== src/Hash/Free.antt =====
-- `kvs_hash_free` of src/kvs_hash.c on a table that is not growing.
use mathlib.Core.List.{append-nil}
use mathlib.Core.Path.{subst}
use ckv.Run.{ok, Returns, at, at-get_or, ok-then}
use ckv.Hash.{Hash, Heap, Ptr, null, load, write}
use ckv.Hash.Lookup.{handed, free, free_chain, free_slots}
use ckv.Hash.Chain.{Chain, Cell, Linked, Linked-update, load-Linked, count, first, node_of}
use ckv.Hash.Table.{Steady, Heads, IsPlaced, chain_at, home-of, length-le-total}
use ckv.Base.{
  inr, inl, ◌==◌, Bool-cases, ℕ, zero, suc, ◌<◌, ◌≤◌, ◌≡◌, refl, sym, ap, ◌∙◌, List, [], ◌∷◌, ◌++◌,
  map, length, Option, none, true, bytes_eq_refl, arith,
}

module _ {ℓ} {V : Type ℓ} where
  abbrev pub vals : Chain V → List V
  vals xs = map (λ c. c.val) xs

  -- The values of the first `i` slots, the last slot first.
  abbrev pub slot_vals : List (Chain V) → ℕ → List V
  slot_vals gs zero = []
  slot_vals gs (suc i) = vals (chain_at gs i) ++ slot_vals gs i

  -- The nodes of a chain are freed.
  abbrev pub AllGone : Heap V → Chain V → Type ℓ
  AllGone heap [] = Unit
  AllGone heap (c ∷ xs) = (heap.cell c.ptr ≡ none) × AllGone heap xs

  AllGone-kept :
      (heap heap' : Heap V) (xs : Chain V)
      → ((p : Ptr) → heap.cell p ≡ none → heap'.cell p ≡ none)
      → AllGone heap xs
      → AllGone heap' xs
  AllGone-kept heap heap' [] kept g = tt
  AllGone-kept heap heap' (c ∷ xs) kept g = (kept c.ptr g.0, AllGone-kept heap heap' xs kept g.1)

  record Freed (heap : Heap V) (xs : Chain V) (r : List V × Heap V) : Type ℓ where
    pub values : r.0 ≡ vals xs
    pub gone : AllGone r.1 xs
    pub kept : (p : Ptr) → heap.cell p ≡ none → r.1.cell p ≡ none
    pub spared :
        (ys : Chain V)
        → ((q : List ℕ) → 0 < count q xs → count q ys ≡ 0)
        → Linked heap.cell ys
        → Linked r.1.cell ys

  free_chain-run :
      (f : ℕ) (heap heap' : Heap V) (c : Cell V) (xs : Chain V) (vs : List V)
      → Linked heap.cell (c ∷ xs)
      → free_chain f (write heap c.ptr none) (first xs) ≡ ok (vs, heap')
      → free_chain (suc f) heap c.ptr ≡ ok (c.val ∷ vs, heap')
  unfolding free_chain
  free_chain-run f heap heap' c xs vs l run = rw l.0 (
      ok-then (load heap c.ptr) (node_of c (first xs)) _ (load-Linked heap c xs l)
      ∙ ok-then (free_chain f (write heap c.ptr none) (first xs)) (vs, heap') _ run)

  free_chain-Freed :
      (f : ℕ) (heap : Heap V) (xs : Chain V)
      → length xs < f
      → Linked heap.cell xs
      → ((q : List ℕ) → count q xs ≤ 1)
      → Returns (Freed heap xs) (free_chain f heap (first xs))
  unfolding free_chain count
  free_chain-Freed zero heap xs fuel l once = absurd (omega (arith, fuel))
  free_chain-Freed (suc f) heap [] fuel l once =
      (([], heap), refl, record { values = refl; gone = tt; kept = λ p e. e; spared = λ ys d l. l })
  free_chain-Freed (suc f) heap (c ∷ xs) fuel l once =
      let alone : count c.key xs ≡ 0 = ground (arith, once c.key, bytes_eq_refl c.key) in
      let ((vs, heap'), run, g) =
        free_chain-Freed f (write heap c.ptr none) xs (omega (arith, fuel))
          (Linked-update heap.cell c.ptr (node_of c (first xs)) none xs l.1 alone l.2)
          (λ q. omega (arith, once q)) in
      (
        (c.val ∷ vs, heap'),
        free_chain-run f heap heap' c xs vs l run,
        record {
          values = ap (λ ws. c.val ∷ ws) g.values;
          gone = (g.kept c.ptr (ground arith), g.gone);
          kept = λ p e. g.kept p (ground (arith, e));
          spared = λ ys d l'.
              g.spared ys (λ q h. d q (omega (arith, h)))
                (Linked-update heap.cell c.ptr (node_of c (first xs)) none ys l.1
                  (d c.key (ground (arith, bytes_eq_refl c.key))) l');
        },
      )

  pub record SlotsFreed (heap : Heap V) (gs : List (Chain V)) (i : ℕ) (r : List V × Heap V)
      : Type ℓ where
    pub values : r.0 ≡ slot_vals gs i
    pub gone : (j : ℕ) → j < i → AllGone r.1 (chain_at gs j)
    pub kept : (p : Ptr) → heap.cell p ≡ none → r.1.cell p ≡ none

  free_slots-SlotsFreed :
      (f mask : ℕ) (slots : List Ptr) (gs : List (Chain V)) (i : ℕ) (heap : Heap V)
      → i ≤ length slots
      → Heads slots gs
      → IsPlaced mask gs
      → ((j : ℕ) → length (chain_at gs j) < f)
      → ((j : ℕ) → j < i → Linked heap.cell (chain_at gs j))
      → Returns (SlotsFreed heap gs i) (free_slots f slots i heap)
  unfolding free_slots
  free_slots-SlotsFreed f mask slots gs zero heap le heads placed fuel l = (
    ([], heap),
    refl,
    record { values = refl; gone = λ j lt. absurd (omega (arith, lt)); kept = λ p e. e },
  )
  free_slots-SlotsFreed f mask slots gs (suc i) heap le heads placed fuel l =
      let ((vs, heap₁), run, g) =
        free_chain-Freed f heap (chain_at gs i) (fuel i) (l i (omega arith))
          (λ q. (placed q i).0) in
      let ((ws, heap₂), run', s) =
        free_slots-SlotsFreed f mask slots gs i heap₁ (omega (arith, le)) heads placed fuel (λ j lt.
          g.spared (chain_at gs j)
            (λ q h.
              (placed q j).1 (λ e. absurd (omega (arith, lt, e, home-of mask gs i q placed h))))
            (l j (omega (arith, lt)))) in
      let here : at slots i ≡ ok (first (chain_at gs i)) =
        at-get_or slots i null (omega (arith, le)) ∙ ap ok (heads i) in
      (
        (vs ++ ws, heap₂),
        ok-then (at slots i) (first (chain_at gs i)) _ here
            ∙ ok-then (free_chain f heap (first (chain_at gs i))) (vs, heap₁) _ run
            ∙ ok-then (free_slots f slots i heap₁) (ws, heap₂) _ run',
        record {
          values = ap (λ xs. xs ++ ws) g.values ∙ ap (λ xs. vals (chain_at gs i) ++ xs) s.values;
          gone = λ j lt. elim (Bool-cases (j == i)) [
            | inl same ↦
                let e : j ≡ i = ground (arith, same) in
                subst (λ k. AllGone heap₂ (chain_at gs k)) (sym e)
                  (AllGone-kept heap₁ heap₂ (chain_at gs i) s.kept g.gone)
            | inr differ ↦ s.gone j (ground (arith, lt, differ))
          ];
          kept = λ p e. s.kept p (g.kept p e);
        },
      )

  handed-true : (vs : List V) (heap : Heap V) → handed true (vs ++ []) heap ≡ ok (vs, heap)
  handed-true [] heap = refl
  handed-true (v ∷ vs) heap = ap (λ ws. ok (v ∷ ws, heap)) (append-nil vs)

  -- On a sound table that is not growing, and with more fuel than it has entries, `kvs_hash_free`
  -- ends without a fault: it calls `myfree` on the value of every entry, once and slot by slot from
  -- the last one, and frees every node and then the table.
  pub free-SlotsFreed :
      (f : ℕ) {g : List ℕ → Option V} {n : ℕ} {h : Hash V} {gs : List (Chain V)}
      → n < f
      → Steady g n h gs
      → Returns
          (λ (vs, heap, tables).
            SlotsFreed h.heap gs (length gs) (vs, heap) × (tables ≡ h.buckets ∷ []))
          (free f true h)
  unfolding free
  free-SlotsFreed f {g} {n} {h} {gs} fuel s =
      let ((vs, heap), run, r) =
        free_slots-SlotsFreed f h.buckets.mask h.buckets.buckets gs h.buckets.size h.heap
          (omega (arith, s.table.width, s.table.size)) s.heads s.table.placed
          (λ j. omega (arith, fuel, s.amount, length-le-total gs j)) (λ j lt. s.table.linked j) in
      (
        (vs, heap, h.buckets ∷ []),
        ok-then (free_slots f h.buckets.buckets h.buckets.size h.heap) (vs, heap) _ run
            ∙ rw s.alone (ok-then (handed true (vs ++ []) heap) (vs, heap) _ (handed-true vs heap)),
        (subst (λ k. SlotsFreed h.heap gs k (vs, heap)) s.table.size r, refl),
      )
