-- ===== src/Hash/Assign.antt =====
-- `(*pp)->val = v`: the cells of one key get a new value, wherever they stand.
use ckv.Hash.Owned.{Owned-present, Owned-count, Owned}
use ckv.Hash.Edit.{Linked-middle}
use ckv.Hash.{null, Hash, Node, Bucket, write, Ptr, Heap}
use ckv.Hash.Table.{
  Growing, count_elsewhere, IsHeap, home_chain, Steady, home, IsTable, Heads, Stale, chain_at,
  total,
}
use ckv.Hash.Chain.{
  Linked-append, Linked-update, node_of, Linked, Cell, first, lookup, count, Chain,
}
use mathlib.Core.Option.{or_else}
use ckv.Base.{
  inr, ◌+◌, zero, inl, ◌==◌, Bool-cases, ◌≤◌, Option, true, refl, [], eq_of_bytes_eq, none, sym,
  leb, ◌∙◌, bytes_eq_refl, suc, bytes_eq, some, ap, arith, if◌then◌else◌, ◌≡◌, ◌++◌, length, ◌∷◌,
  get_or, ℕ, List,
}

module _ {ℓ} {V : Type ℓ} (q : List ℕ) (v : V) where
  assign : Chain V → Chain V
  assign [] = []
  assign (c ∷ xs) = (if bytes_eq c.key q then record c { val = v } else c) ∷ assign xs

  pub assign_all : List (Chain V) → List (Chain V)
  assign_all [] = []
  assign_all (xs ∷ gs) = assign xs ∷ assign_all gs

  first-assign : (xs : Chain V) → first (assign xs) ≡ first xs
  unfolding assign
  first-assign [] = refl
  first-assign (c ∷ xs) = ground arith

  length-assign : (xs : Chain V) → length (assign xs) ≡ length xs
  unfolding assign
  length-assign [] = refl
  length-assign (c ∷ xs) = ap suc (length-assign xs)

  assign-append : (xs ys : Chain V) → assign (xs ++ ys) ≡ assign xs ++ assign ys
  unfolding assign
  assign-append [] ys = refl
  assign-append (c ∷ xs) ys = rw (assign-append xs ys)

  count-assign : (r : List ℕ) (xs : Chain V) → count r (assign xs) ≡ count r xs
  unfolding assign count
  count-assign r [] = refl
  count-assign r (c ∷ xs) = ground (arith, count-assign r xs)

  lookup-assign :
      (r : List ℕ) (xs : Chain V)
      → lookup r (assign xs)
        ≡ (if bytes_eq q r then (if leb 1 (count r xs) then some v else none) else lookup r xs)
  unfolding assign lookup count
  lookup-assign r [] = ground arith
  lookup-assign r (c ∷ xs) = ground (
    arith,
    lookup-assign r xs,
    eq_of_bytes_eq c.key q,
    eq_of_bytes_eq c.key r,
    eq_of_bytes_eq q r,
    bytes_eq_refl q,
  )

  assign-none : (xs : Chain V) → count q xs ≡ 0 → assign xs ≡ xs
  unfolding assign count
  assign-none [] h = refl
  assign-none (c ∷ xs) h = ground (arith, assign-none xs)

  chain_at-assign_all :
      (gs : List (Chain V)) (i : ℕ) → chain_at (assign_all gs) i ≡ assign (chain_at gs i)
  unfolding assign_all assign get_or
  chain_at-assign_all [] i = refl
  chain_at-assign_all (xs ∷ gs) zero = refl
  chain_at-assign_all (xs ∷ gs) (suc i) = chain_at-assign_all gs i

  length-assign_all : (gs : List (Chain V)) → length (assign_all gs) ≡ length gs
  unfolding assign_all
  length-assign_all [] = refl
  length-assign_all (xs ∷ gs) = ap suc (length-assign_all gs)

  total-assign_all : (gs : List (Chain V)) → total (assign_all gs) ≡ total gs
  unfolding assign_all total
  total-assign_all [] = refl
  total-assign_all (xs ∷ gs) = omega (arith, length-assign xs, total-assign_all gs)

  -- The node at `p`, which has the key `q`, is written with the value `v`.
  abbrev pub assigned : Heap V → Ptr → Cell V → Chain V → Heap V
  assigned heap p c zs = write heap p (some (record (node_of c (first zs)) { val = v }))

  -- A chain without the key keeps its cells.
  Linked-assign_spared :
      (heap : Heap V) (p : Ptr) (c : Cell V) (zs xs : Chain V)
      → heap.cell p ≡ some (node_of c (first zs))
      → c.key ≡ q
      → count q xs ≡ 0
      → Linked heap.cell xs
      → Linked (assigned heap p c zs).cell (assign xs)
  Linked-assign_spared heap p c zs xs e k z l =
      rw (assign-none xs z) (Linked-update heap.cell p (node_of c (first zs)) _ xs e (rw k z) l)

  -- The chain of the node.
  Linked-assign_owner :
      (heap : Heap V) (ys zs : Chain V) (c : Cell V)
      → c.key ≡ q
      → count q ys ≡ 0
      → count q zs ≡ 0
      → Linked heap.cell (ys ++ c ∷ zs)
      → Linked (assigned heap c.ptr c zs).cell (assign (ys ++ c ∷ zs))
  unfolding assign
  Linked-assign_owner heap ys zs c k y z l =
      let same : bytes_eq c.key q ≡ true = rw k (bytes_eq_refl q) in
      rw (assign-append ys (c ∷ zs), assign-none ys y, assign-none zs z, same)
        (Linked-middle heap.cell ys zs zs c (record c { val = v }) refl (rw k y) (rw k z) l
          (Linked-append heap.cell ys (c ∷ zs) l).2)

  Stale-assign_all : (gs : List (Chain V)) (p : Ptr) → Stale gs p → Stale (assign_all gs) p
  Stale-assign_all gs p (s, pre, suf, split, at_p) = (
    s,
    assign pre,
    assign suf,
    chain_at-assign_all gs s ∙ ap assign split ∙ assign-append pre suf,
    at_p ∙ sym (first-assign suf),
  )

  IsTable-assign_all :
      {cell cell' : Ptr → Option (Node V)} {b : Bucket} {gs : List (Chain V)}
      → IsTable cell b gs
      → ((j : ℕ) → Linked cell' (assign (chain_at gs j)))
      → IsTable cell' b (assign_all gs)
  IsTable-assign_all {b} {gs} t linked = record {
    width = rw length-assign_all t.width;
    size = rw length-assign_all t.size;
    mask = rw length-assign_all t.mask;
    used = rw total-assign_all t.used;
    linked = λ j. rw (chain_at-assign_all gs j) (linked j);
    placed = λ r j. rw (chain_at-assign_all gs j, count-assign r (chain_at gs j)) (t.placed r j);
  }

  Heads-assign_all :
      (slots : List Ptr) (gs : List (Chain V)) → Heads slots gs → Heads slots (assign_all gs)
  Heads-assign_all slots gs hs i =
      rw (chain_at-assign_all gs i, first-assign (chain_at gs i)) (hs i)

-- `f` with the value of one key replaced.
abbrev pub put {ℓ} : {V : Type ℓ} → (List ℕ → Option V) → List ℕ → Option V → List ℕ → Option V
put f q o r = if bytes_eq q r then o else f r

module _ {ℓ} {V : Type ℓ} (q : List ℕ) (v : V) where
  -- The heap after the write through the node that is owned.
  abbrev pub replaced_in :
      (heap : Heap V) {gs : List (Chain V)} {i : ℕ} {p : Ptr} → Owned gs i q p → Heap V
  replaced_in heap {p} o = assigned q v heap p o.here o.rest

  module _ (heap : Heap V) {p : Ptr} {b : Bucket} {gs : List (Chain V)} (t : IsTable heap.cell b gs)
      (o : Owned gs (home b.mask q) q p) where
    Linked-here : Linked heap.cell (o.passed ++ o.here ∷ o.rest)
    Linked-here = rw o.split at (t.linked (home b.mask q))

    cell_here : heap.cell p ≡ some (node_of o.here (first o.rest))
    cell_here = rw o.place (Linked-append heap.cell o.passed (o.here ∷ o.rest) Linked-here).1

    owner_table : (j : ℕ) → Linked (replaced_in heap o).cell (assign q v (chain_at gs j))
    owner_table j = elim (Bool-cases (home b.mask q == j)) [
      | inl same ↦
          let e : home b.mask q ≡ j = ground arith in
          let counts = Owned-count o (t.placed q (home b.mask q)).0 in
          rw (← e) (
            rw (o.split, o.place)
              (Linked-assign_owner q v heap o.passed o.rest o.here o.key counts.0 counts.1
                Linked-here))
      | inr differ ↦
          Linked-assign_spared q v heap p o.here o.rest (chain_at gs j) cell_here o.key
            ((t.placed q j).1 (ground arith)) (t.linked j)
    ]

    other_table :
        {b' : Bucket} {gs' : List (Chain V)}
        → IsTable heap.cell b' gs'
        → count q (home_chain b' gs' q) ≡ 0
        → (j : ℕ) → Linked (replaced_in heap o).cell (assign q v (chain_at gs' j))
    other_table {b'} {gs'} t' z j =
        Linked-assign_spared q v heap p o.here o.rest (chain_at gs' j) cell_here o.key
          (count_elsewhere b'.mask gs' j q t'.placed z) (t'.linked j)

    heap-IsHeap : IsHeap heap → IsHeap (replaced_in heap o)
    heap-IsHeap w = record {
      nonzero = w.nonzero;
      free = λ x le. ground (arith, w.free x le, cell_here);
    }

  -- One table: the map changes at the key.
  pub replace-Steady :
      {f : List ℕ → Option V} {n : ℕ} {h : Hash V} {gs : List (Chain V)} {p : Ptr}
      → Steady f n h gs
      → (o : Owned gs (home h.buckets.mask q) q p)
      → Steady (put f q (some v)) n (record h { heap = replaced_in h.heap o }) (assign_all q v gs)
  replace-Steady {h} {gs} s o = record {
    amount = rw total-assign_all s.amount;
    alone = s.alone;
    idle = s.idle;
    heap = heap-IsHeap h.heap s.table o s.heap;
    table = IsTable-assign_all q v s.table (owner_table h.heap s.table o);
    heads = Heads-assign_all q v h.buckets.buckets gs s.heads;
    reads = λ r.
        rw
          (
            chain_at-assign_all q v gs (home h.buckets.mask r),
            lookup-assign q v r (home_chain h.buckets gs r),
          )
          (ground (arith, s.reads r, Owned-present o, eq_of_bytes_eq q r));
  }

  -- Two tables: the node is in either.
  module _ {f : List ℕ → Option V} {n : ℕ} {h : Hash V} {e : Bucket} {old new : List (Chain V)}
      {c : ℕ} (g : Growing f n h e old new c) where
    -- All but the heap's contents is the same in both cases.
    replaced_Growing :
        (heap' : Heap V)
        → IsHeap heap'
        → ((j : ℕ) → Linked heap'.cell (assign q v (chain_at old j)))
        → ((j : ℕ) → Linked heap'.cell (assign q v (chain_at new j)))
        → 1 ≤ count q (home_chain h.buckets old q) + count q (home_chain e new q)
        → Growing
            (put f q (some v))
            n
            (record h { heap = heap' })
            e
            (assign_all q v old)
            (assign_all q v new)
            c
    unfolding or_else assign
    replaced_Growing heap' w lo ln present = record {
      amount = rw (total-assign_all q v old, total-assign_all q v new) g.amount;
      filling = g.filling;
      heap = w;
      table = IsTable-assign_all q v g.table lo;
      fresh = IsTable-assign_all q v g.fresh ln;
      heads = Heads-assign_all q v e.buckets new g.heads;
      apart = λ r.
          rw
            (
              chain_at-assign_all q v old (home h.buckets.mask r),
              chain_at-assign_all q v new (home e.mask r),
              count-assign q v r (home_chain h.buckets old r),
              count-assign q v r (home_chain e new r),
            )
            (g.apart r);
      kept = λ i lt.
          rw (chain_at-assign_all q v old i, first-assign q v (chain_at old i)) (g.kept i lt);
      moved = λ i le. (
        rw (chain_at-assign_all q v old i, (g.moved i le).0) refl,
        Stale-assign_all q v new (get_or h.buckets.buckets i null) (g.moved i le).1,
      );
      cursor = rw length-assign_all g.cursor;
      reads = λ r.
          rw
            (
              chain_at-assign_all q v old (home h.buckets.mask r),
              chain_at-assign_all q v new (home e.mask r),
              lookup-assign q v r (home_chain h.buckets old r),
              lookup-assign q v r (home_chain e new r),
            )
            (ground (arith, g.reads r, present, g.apart q, eq_of_bytes_eq q r));
    }

    pub replace_old :
        {p : Ptr} (o : Owned old (home h.buckets.mask q) q p)
        → Growing
            (put f q (some v))
            n
            (record h { heap = replaced_in h.heap o })
            e
            (assign_all q v old)
            (assign_all q v new)
            c
    replace_old o =
        let here = Owned-present o in
        replaced_Growing (replaced_in h.heap o) (heap-IsHeap h.heap g.table o g.heap)
          (owner_table h.heap g.table o)
          (other_table h.heap g.table o g.fresh (omega (arith, g.apart q, here)))
          (omega (arith, here))

    pub replace_new :
        {p : Ptr} (o : Owned new (home e.mask q) q p)
        → Growing
            (put f q (some v))
            n
            (record h { heap = replaced_in h.heap o })
            e
            (assign_all q v old)
            (assign_all q v new)
            c
    replace_new o =
        let here = Owned-present o in
        replaced_Growing (replaced_in h.heap o) (heap-IsHeap h.heap g.fresh o g.heap)
          (other_table h.heap g.fresh o g.table (omega (arith, g.apart q, here)))
          (owner_table h.heap g.fresh o) (omega (arith, here))
