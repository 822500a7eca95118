-- ===== src/Hash/Remove.antt =====
-- `kvs_hash_del` where one table is in use: the node is taken out of its chain and freed.
use ckv.Hash.Unlink.{content, unlink, Unlinked}
use ckv.Hash.Owned.{
  Owned, Owned, Owned, Owned, Owned, Owned, Owned, Owned, Owned, Owned, Owned, Owned, Owned, Owned,
  Owned, Owned, Owned, Owned-lookup, Owned, Owned-load, Owned, Owned,
}
use ckv.Hash.Rehash.{rehash-Steady}
use ckv.Hash.Locate.{locate-Steady, SteadyFound}
use ckv.Run.{Returns}
use ckv.HashFunc.{IsKey}
use ckv.Base.Int.{dec-pos, dec}
use ckv.Hash.Assign.{put}
use ckv.Hash.Edit.{lookup-remove, length-remove, count-remove}
use ckv.Hash.Table.{
  Linked-set, total-set, total, count_elsewhere, set-IsPlaced, home-lt, home, home_chain, IsPlaced,
  Steady, chain_at,
}
use ckv.Hash.Lookup.{locate, Found, count_down, find_core, del, store}
use ckv.Hash.{load, Node, write, ok, slot, Ptr, Heap, Place, Hash}
use ckv.Hash.Chain.{
  lookup-eq-none, Hit, lookup, to_nat, Linked-update, count, node_of, first, Cell, Chain,
}
use ckv.Base.{
  refl, Bool-cases, ◌==◌, inr, inl, eq_of_bytes_eq, if◌then◌else◌, sym, ◌+◌, ◌-◌, get_or-set_self,
  bytes_eq, suc, ap, none, bytes_eq_refl, arith, get_or-set, ◌∙◌, length-set, ◌<◌, Option, some,
  set, length, false, ◌≡◌, ◌++◌, List, ◌∷◌, [], ℕ,
}

module _ {ℓ} {V : Type ℓ} where
  -- The table without the node, and the node freed.
  module _ {f : List ℕ → Option V} {n : ℕ} {h : Hash V} {gs : List (Chain V)} (s : Steady f n h gs)
      (q : List ℕ) (ys : Chain V) (d : Cell V) (zs : Chain V) (key : d.key ≡ q)
      (split : home_chain h.buckets gs q ≡ ys ++ d ∷ zs)
      (u : Unlinked h gs (home h.buckets.mask q) ys d zs) where
    abbrev removed : Hash V
    removed = record h {
      heap = write u.heap d.ptr none;
      buckets = record (h.buckets) { buckets = u.slots; use_ = dec h.buckets.use_ };
    }

    abbrev chains_left : List (Chain V)
    chains_left = set gs (home h.buckets.mask q) (ys ++ zs)

    inside : home h.buckets.mask q < length gs
    inside = home-lt s.table q

    counts :
        (r : List ℕ)
        → count r (home_chain h.buckets gs q) ≡ to_nat (bytes_eq q r) + count r (ys ++ zs)
    counts r = rw (split, count-remove r ys zs d, key)

    gone : count q (ys ++ zs) ≡ 0
    gone =
        omega (
          arith,
          counts q,
          (s.table.placed q (home h.buckets.mask q)).0,
          ap to_nat (bytes_eq_refl q),
        )

    left-IsPlaced : IsPlaced h.buckets.mask chains_left
    left-IsPlaced =
        set-IsPlaced gs h.buckets.mask (home h.buckets.mask q) inside s.table.placed (ys ++ zs)
          (λ r. omega (arith, counts r, (s.table.placed r (home h.buckets.mask q)).0))
          (λ r ne. omega (arith, counts r, (s.table.placed r (home h.buckets.mask q)).1 ne))

    left_total : suc (total chains_left) ≡ total gs
    left_total = omega (
      arith,
      total-set gs (home h.buckets.mask q) (ys ++ zs) inside,
      length-remove ys zs d,
      ap length split,
    )

    left_gone : (j : ℕ) → count q (chain_at chains_left j) ≡ 0
    left_gone j =
        count_elsewhere h.buckets.mask chains_left j q left-IsPlaced
          (rw (get_or-set_self gs (home h.buckets.mask q) (ys ++ zs) [] inside) gone)

    read_middle :
        (r : List ℕ)
        → lookup r (ys ++ zs)
          ≡ (if bytes_eq q r then none else lookup r (home_chain h.buckets gs q))
    read_middle r = rw (split, ← key) (lookup-remove r ys zs d (rw key gone))

    left_reads :
        (r : List ℕ) → lookup r (chain_at chains_left (home h.buckets.mask r)) ≡ put f q none r
    left_reads r =
        rw (get_or-set gs (home h.buckets.mask q) (home h.buckets.mask r) (ys ++ zs) [] inside)
          (ground (arith, read_middle r, s.reads r, eq_of_bytes_eq q r))

    remove-Steady : Steady (put f q none) (n - 1) removed chains_left
    remove-Steady = record {
      amount = omega (arith, left_total, s.amount);
      alone = s.alone;
      idle = s.idle;
      heap = record {
        nonzero = u.is_heap.nonzero;
        free = λ x le. ground (arith, u.is_heap.free x le);
      };
      table = record {
        width = rw length-set (u.width ∙ s.table.width);
        size = rw length-set s.table.size;
        mask = rw length-set s.table.mask;
        used = rw s.table.used (dec-pos _ _ (sym left_total));
        linked = λ j.
            Linked-update u.heap.cell d.ptr (node_of d (first zs)) none (chain_at chains_left j)
              u.held (rw key (left_gone j))
              (Linked-set gs h.buckets.mask (home h.buckets.mask q) inside s.table.placed (ys ++ zs)
                u.heap.cell u.others u.mine j);
        placed = left-IsPlaced;
      };
      heads = u.heads;
      reads = λ r. left_reads r;
    }

  -- The number of entries after the value `o` has been handed out, or none has.
  abbrev pub fewer : Option V → ℕ → ℕ
  fewer none n = n
  fewer (some v) n = n - 1

  -- What is left of the heap: all of the table, if nothing was handed out, and otherwise every node
  -- but one of the key with the value, which is freed.
  abbrev pub Freed : Hash V → List ℕ → Option V → Hash V → Type ℓ
  Freed h q none h' = h' ≡ h
  Freed h q (some v) h' =
      (p : Ptr) × (content (h.heap.cell p) ≡ some (q, v))
      × ((x : Ptr) → content (h'.heap.cell x) ≡ (if p == x then none else content (h.heap.cell x)))

  -- A call of `kvs_hash_del` while one table is in use.
  module _ (k : ℕ) (mem : List ℕ) (klen : ℕ) (q : List ℕ) (arg : IsKey mem klen q)
      {f : List ℕ → Option V} {n : ℕ} (fuel : n < k) {h : Hash V} {gs : List (Chain V)}
      (s : Steady f n h gs) where
    -- What `kvs_hash_del` has done.
    abbrev pub DelEffect : Option V × Hash V → Type ℓ
    DelEffect (o, h') =
        (o ≡ f q)
        × Freed h q o h'
        × ((gs' : List (Chain V)) × Steady (put f q none) (fewer o n) h' gs')

    -- Where one table is in use and stands for the map `f`, `kvs_hash_del` hands out the value of
    -- `f` at the key, or returns -1 if there is none, and leaves one sound table that stands for
    -- `f` without the key and has one entry less if the key was there. It frees the node that holds
    -- the key with that value, and every other node goes on holding what it held; without the key
    -- nothing changes. The fuel is to exceed the
    -- number of entries, and the key's length to be given and to fit an `int`.
    pub del-Steady : Returns DelEffect (del k h mem klen)
    unfolding del find_core
    del-Steady = go (locate-Steady k mem klen q arg fuel s)
      where
        del_run :
            (r : Found) (pp : Place × Ptr) (node : Node V) (heap' : Heap V) (slots : List Ptr)
            → locate k h mem klen ≡ ok r
            → r.place ≡ some pp
            → r.whence ≡ false
            → load h.heap pp.1 ≡ ok node
            → store h pp.0 node.next
              ≡ ok (record h { heap = heap'; buckets = record (h.buckets) { buckets = slots } })
            → del k h mem klen
              ≡ ok (
                some node.val,
                record h {
                  heap = write heap' pp.1 none;
                  buckets = record (h.buckets) { buckets = slots; use_ = dec h.buckets.use_ };
                },
              )
        del_run r pp node heap' slots run place whence loaded stored =
            rw (rehash-Steady k 10 s, run, place, loaded, stored, whence, count_down)

        unknown : count q (home_chain h.buckets gs q) ≡ 0 → none ≡ f q
        unknown z = sym (lookup-eq-none q (home_chain h.buckets gs q) z) ∙ s.reads q

        same : count q (home_chain h.buckets gs q) ≡ 0 → Steady (put f q none) n h gs
        same z = record {
          amount = s.amount;
          alone = s.alone;
          idle = s.idle;
          heap = s.heap;
          table = s.table;
          heads = s.heads;
          reads = λ r. ground (arith, s.reads r, unknown z, eq_of_bytes_eq q r);
        }

        freed_content :
            {pp : Place × Ptr}
            (hit : Hit q (slot false (home h.buckets.mask q)) (home_chain h.buckets gs q) pp)
            → (u : Unlinked h gs (home h.buckets.mask q) hit.passed hit.here hit.rest)
            → content (h.heap.cell hit.here.ptr) ≡ some (q, hit.here.val)
        freed_content hit u =
            sym (u.contents hit.here.ptr)
            ∙ ap content u.held
            ∙ ap (λ key. some (key, hit.here.val)) hit.key

        freed_only :
            {pp : Place × Ptr}
            (hit : Hit q (slot false (home h.buckets.mask q)) (home_chain h.buckets gs q) pp)
            → (u : Unlinked h gs (home h.buckets.mask q) hit.passed hit.here hit.rest) → (x : Ptr)
            → content ((write u.heap hit.here.ptr none).cell x)
              ≡ (if hit.here.ptr == x then none else content (h.heap.cell x))
        freed_only hit u x = elim (Bool-cases (hit.here.ptr == x)) [
          | inl here ↦ rw here refl
          | inr other ↦ rw other (u.contents x)
        ]

        found :
            (r : Found)
            → locate k h mem klen ≡ ok r
            → (pp : Place × Ptr) → r.place ≡ some pp
            → r.whence ≡ false
            → Hit q (slot false (home h.buckets.mask q)) (home_chain h.buckets gs q) pp
            → Returns DelEffect (del k h mem klen)
        found r run pp place whence hit =
            let u =
              unlink (home h.buckets.mask q) hit.passed hit.here hit.rest s (home-lt s.table q)
                hit.split in
            let o : Owned gs (home h.buckets.mask q) q pp.1 = record {
              passed = hit.passed;
              here = hit.here;
              rest = hit.rest;
              split = hit.split;
              key = hit.key;
              place = ap (λ x. x.1) hit.place;
            } in
            (
              (some hit.here.val, removed s q hit.passed hit.here hit.rest hit.key hit.split u),
              del_run r pp (node_of hit.here (first hit.rest)) u.heap u.slots run place whence
                    (Owned-load h.heap o (s.table.linked (home h.buckets.mask q)))
                    (rw hit.place u.run)
                  ∙ rw hit.place,
              (
                sym (Owned-lookup o (s.table.placed q (home h.buckets.mask q)).0) ∙ s.reads q,
                (hit.here.ptr, freed_content hit u, freed_only hit u),
                (
                  chains_left s q hit.passed hit.here hit.rest hit.key hit.split u,
                  remove-Steady s q hit.passed hit.here hit.rest hit.key hit.split u,
                ),
              ),
            )

        go :
            Returns (SteadyFound k mem klen q arg h gs) (locate k h mem klen)
            → Returns DelEffect (del k h mem klen)
        go (r, run, inl (missing, z)) = (
          (none, h),
          rw (rehash-Steady k 10 s, run, missing.none_found),
          (unknown z, refl, (gs, same z)),
        )
        go (r, run, inr (pp, place, whence, hit)) = found r run pp place whence hit
