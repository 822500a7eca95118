-- ===== src/Hash/Locate.antt =====
-- `kvs_hash_find_core` finds the node of a key wherever it stands, also through a slot of the
-- old table that has been migrated, and reports the slot for an insertion otherwise.
use ckv.Hash.Owned.{Owned-home, Hit-Owned, Owned}
use ckv.Run.{at-get_or, Returns}
use ckv.HashFunc.{hash_func_lem, IsKey}
use ckv.Hash.Lookup.{last_bucket, Found, locate, search_bucket, round}
use ckv.Hash.Table.{Growing, length-le-total, home-lt, home_chain, Steady, home, chain_at}
use ckv.Hash.{Place, Hash, slot, null, Bucket, ok, Ptr, Heap}
use ckv.Hash.Chain.{Hit, search_chain-Outcome, Outcome, Linked-append, first, Linked, count, Chain}
use ckv.Base.{
  ltb, Bool-cases, length-append, [], inl, ◌∙◌, inr, ◌⊎◌, none, false, refl, Option, get_or, ap,
  Bool, arith, true, ◌++◌, some, ◌≤◌, ◌≡◌, length, ◌<◌, ℕ, List,
}

-- Nothing found: the slot is that of the last table looked at.
pub record Missing (klen : ℕ) (q : List ℕ) (b : Bucket) (r : Found) : Type 0 where
  pub none_found : r.place ≡ none
  pub hash : r.hash ≡ home b.mask q
  pub same : r.klen ≡ klen

module _ {ℓ} {V : Type ℓ} where
  -- Key, length and fuel of a search.
  module _ (k : ℕ) (mem : List ℕ) (klen : ℕ) (q : List ℕ) (arg : IsKey mem klen q) where
    -- One round, in a slot that points at the first cell of `xs`.
    round-Outcome :
        (heap : Heap V) (expand : Bool) (b : Bucket) (xs : Chain V)
        → home b.mask q < length b.buckets
        → get_or b.buckets (home b.mask q) null ≡ first xs
        → Linked heap.cell xs
        → length xs < k
        → Returns
            (λ (hv, len, place).
              (hv ≡ home b.mask q)
              × (len ≡ klen)
              × Outcome q (slot expand (home b.mask q)) xs place)
            (round k heap expand b mem klen)
    unfolding round search_bucket home
    round-Outcome heap expand b xs inside head l fuel =
        let (r, run, out) =
          search_chain-Outcome k heap mem klen q (slot expand (home b.mask q)) xs arg l fuel in
        (
          (home b.mask q, klen, r),
          rw (
            hash_func_lem mem klen q arg,
            at-get_or b.buckets (home b.mask q) null inside,
            head,
            run,
          ),
          (refl, refl, out),
        )

    -- The two rounds in turn.
    locate_hit :
        (h : Hash V) (hv len : ℕ) (pp : Place × Ptr)
        → round k h.heap false h.buckets mem klen ≡ ok (hv, len, some pp)
        → locate k h mem klen
          ≡ ok (record { place = some pp; hash = hv; klen = len; whence = false })
    unfolding locate
    locate_hit h hv len pp e = rw e

    locate_miss :
        (h : Hash V) (hv len : ℕ)
        → round k h.heap false h.buckets mem klen ≡ ok (hv, len, none)
        → len ≡ klen
        → (r : ℕ × ℕ × Option (Place × Ptr))
        → round k h.heap (last_bucket h).0 (last_bucket h).1 mem klen ≡ ok r
        → locate k h mem klen
          ≡ ok (record { place = r.2; hash = r.0; klen = r.1; whence = (last_bucket h).0 })
    unfolding locate
    locate_miss h hv len e l r e' = rw (e, l, e')

    -- What `kvs_hash_find_core` reports about one table.
    abbrev pub SteadyFound : Hash V → List (Chain V) → Found → Type ℓ
    SteadyFound h gs r =
        (Missing klen q h.buckets r × (count q (home_chain h.buckets gs q) ≡ 0))
        ⊎ ((pp : Place × Ptr) × (r.place ≡ some pp)
            × (r.whence ≡ false)
            × Hit q (slot false (home h.buckets.mask q)) (home_chain h.buckets gs q) pp)

    pub locate-Steady :
        {f : List ℕ → Option V} {n : ℕ} {h : Hash V} {gs : List (Chain V)}
        → n < k
        → Steady f n h gs
        → Returns (SteadyFound h gs) (locate k h mem klen)
    locate-Steady {h} {gs} fuel s = go first.0 first.1 first.2
      where
        first :
            Returns
              (λ (hv, len, place).
                (hv ≡ home h.buckets.mask q)
                × (len ≡ klen)
                × Outcome q (slot false (home h.buckets.mask q)) (home_chain h.buckets gs q) place)
              (round k h.heap false h.buckets mem klen)
        first =
            round-Outcome h.heap false h.buckets (home_chain h.buckets gs q)
              (rw s.table.width (home-lt s.table q)) (s.heads (home h.buckets.mask q))
              (s.table.linked (home h.buckets.mask q))
              (omega (arith, s.amount, length-le-total gs (home h.buckets.mask q)))

        last : last_bucket h ≡ (false, h.buckets)
        last = rw s.alone

        go :
            (r : ℕ × ℕ × Option (Place × Ptr))
            → round k h.heap false h.buckets mem klen ≡ ok r
            → (r.0 ≡ home h.buckets.mask q)
              × (r.1 ≡ klen)
              × Outcome q (slot false (home h.buckets.mask q)) (home_chain h.buckets gs q) r.2
            → Returns (SteadyFound h gs) (locate k h mem klen)
        go (hv, len, some pp) e (at_hv, l, hit) =
            (_, locate_hit h hv len pp e, inr (pp, refl, refl, hit))
        go (hv, len, none) e (at_hv, l, out) = (
          record { place = none; hash = hv; klen = len; whence = false },
          locate_miss h hv len e l (hv, len, none) (rw last e) ∙ rw last,
          inl (record { none_found = refl; hash = at_hv; same = l }, out.1),
        )

    -- What it reports while the table grows: the node may stand in either table, and a migrated
    -- slot of the old one may lead to it in the new one.
    abbrev pub GrowingFound : Hash V → Bucket → List (Chain V) → List (Chain V) → Found → Type ℓ
    GrowingFound h e old new r =
        (Missing klen q e r
          × (count q (home_chain h.buckets old q) ≡ 0)
          × (count q (home_chain e new q) ≡ 0))
        ⊎ ((pp : Place × Ptr) × (r.place ≡ some pp)
            × (Owned old (home h.buckets.mask q) q pp.1 ⊎ Owned new (home e.mask q) q pp.1))

    module _ {f : List ℕ → Option V} {n : ℕ} {h : Hash V} {e : Bucket} {old new : List (Chain V)}
        {c : ℕ} (fuel : n < k) (g : Growing f n h e old new c) where
      last : last_bucket h ≡ (true, e)
      last = rw g.filling

      -- The first round, over the chain `xs` that the slot of the old table leads along.
      abbrev FirstRound : ℕ × ℕ × Option (Place × Ptr) → Type ℓ
      FirstRound (hv, len, none) =
          Unit {ℓ} × (len ≡ klen) × (count q (home_chain h.buckets old q) ≡ 0)
      FirstRound (hv, len, some pp) =
          Owned old (home h.buckets.mask q) q pp.1 ⊎ Owned new (home e.mask q) q pp.1

      first_kept :
          home h.buckets.mask q < c → Returns FirstRound (round k h.heap false h.buckets mem klen)
      first_kept lt =
          let ((hv, len, place), run, (at_hv, l, out)) =
            round-Outcome h.heap false h.buckets (home_chain h.buckets old q)
              (rw g.table.width (home-lt g.table q)) (g.kept (home h.buckets.mask q) lt)
              (g.table.linked (home h.buckets.mask q))
              (omega (arith, g.amount, length-le-total old (home h.buckets.mask q))) in
          ((hv, len, place), run, go hv len place l out)
        where
          go :
              (hv len : ℕ) (place : Option (Place × Ptr))
              → len ≡ klen
              → Outcome q (slot false (home h.buckets.mask q)) (home_chain h.buckets old q) place
              → FirstRound (hv, len, place)
          go hv len none l out = (tt, l, out.1)
          go hv len (some pp) l hit = inl (Hit-Owned [] refl hit)

      first_moved :
          c ≤ home h.buckets.mask q → Returns FirstRound (round k h.heap false h.buckets mem klen)
      unfolding count
      first_moved le =
          let (s, pre, suf, split, at_p) = (g.moved (home h.buckets.mask q) le).1 in
          let ((hv, len, place), run, (at_hv, l, out)) =
            round-Outcome h.heap false h.buckets suf (rw g.table.width (home-lt g.table q)) at_p
              (Linked-append h.heap.cell pre suf (rw split at (g.fresh.linked s)))
              (omega
                (arith, g.amount, length-le-total new s, length-append pre suf, ap length split)) in
          ((hv, len, place), run, go s pre suf split hv len place l out)
        where
          go :
              (s : ℕ) (pre suf : Chain V)
              → chain_at new s ≡ pre ++ suf
              → (hv len : ℕ) (place : Option (Place × Ptr)) → len ≡ klen
              → Outcome q (slot false (home h.buckets.mask q)) suf place
              → FirstRound (hv, len, place)
          go s pre suf split hv len none l out =
              (tt, l, rw (g.moved (home h.buckets.mask q) le).0 refl)
          go s pre suf split hv len (some pp) l hit =
              inr (Owned-home s g.fresh (Hit-Owned pre split hit))

      first_round : Returns FirstRound (round k h.heap false h.buckets mem klen)
      first_round = elim (Bool-cases (ltb (home h.buckets.mask q) c)) [
        | inl lt ↦ first_kept (ground arith)
        | inr le ↦ first_moved (ground arith)
      ]

      pub locate-Growing : Returns (GrowingFound h e old new) (locate k h mem klen)
      locate-Growing = go first_round.0 first_round.1 first_round.2
        where
          second :
              Returns
                (λ (hv, len, place).
                  (hv ≡ home e.mask q)
                  × (len ≡ klen)
                  × Outcome q (slot true (home e.mask q)) (home_chain e new q) place)
                (round k h.heap true e mem klen)
          second =
              round-Outcome h.heap true e (home_chain e new q)
                (rw g.fresh.width (home-lt g.fresh q)) (g.heads (home e.mask q))
                (g.fresh.linked (home e.mask q))
                (omega (arith, g.amount, length-le-total new (home e.mask q)))

          report :
              (hv len : ℕ) (place : Option (Place × Ptr)) (w : Bool)
              → hv ≡ home e.mask q
              → len ≡ klen
              → count q (home_chain h.buckets old q) ≡ 0
              → Outcome q (slot true (home e.mask q)) (home_chain e new q) place
              → GrowingFound h e old new
                  (record { place = place; hash = hv; klen = len; whence = w })
          report hv len none w a l z out =
              inl (record { none_found = refl; hash = a; same = l }, z, out.1)
          report hv len (some pp) w a l z hit = inr (pp, refl, inr (Hit-Owned [] refl hit))

          go :
              (r : ℕ × ℕ × Option (Place × Ptr))
              → round k h.heap false h.buckets mem klen ≡ ok r
              → FirstRound r
              → Returns (GrowingFound h e old new) (locate k h mem klen)
          go (hv, len, some pp) run own = (_, locate_hit h hv len pp run, inr (pp, refl, own))
          go (hv, len, none) run (u, l, z) =
              let ((hv', len', place), run', (a, l', out)) = second in
              (
                _,
                locate_miss h hv len run l (hv', len', place) (rw last run'),
                report hv' len' place (last_bucket h).0 a l' z out,
              )
