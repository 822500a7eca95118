-- ===== src/Hash/Map.antt =====
-- The table's operations as operations of a finite map.
use ckv.Hash.Owned.{Owned-present, Owned-lookup, Hit-Owned, Owned-load, Owned}
use ckv.Hash.Grow.{expand_if_full-Models}
use ckv.Hash.Insert.{add_new-Growing, add_new-Steady, insert-Growing, insert-Steady, chains_with}
use ckv.Hash.Assign.{replace-Steady, replace_new, replace_old, assign_all, put}
use mathlib.Core.Option.{or_else}
use ckv.Hash.Rehash.{rehash-Models}
use ckv.Hash.Locate.{locate-Growing, GrowingFound, locate-Steady, SteadyFound}
use ckv.Run.{Returns}
use ckv.Hash.Table.{home, home_chain, growing, Growing, steady, Steady, Models}
use ckv.Hash.Chain.{first, node_of, lookup-eq-none, Chain}
use ckv.Hash.{Malloc, rehash, write, ok, load, Node, Ptr, Place, Bucket, Hash}
use ckv.Hash.Lookup.{
  inserted, no_memory, replaced, expand_if_full, Added, add, find, add_new, locate, find_core,
  Found,
}
use ckv.HashFunc.{IsKey}
use ckv.Base.{
  true, false, Bool, refl, [], arith, inr, suc, some, ◌∙◌, sym, none, inl, ◌≡◌, ◌<◌, Option, ℕ,
  List,
}

-- Arguments of an operation: a key with its length, and fuel beyond the number of entries.
module _ {ℓ} {V : Type ℓ} (k : ℕ) (mem : List ℕ) (klen : ℕ) (q : List ℕ) (arg : IsKey mem klen q)
    (f : List ℕ → Option V) (n : ℕ) (fuel : n < k) where
  -- What `kvs_hash_find_core` finds, and what can be done with it: read and replace the value of
  -- a key that is there, or add one that is not.
  pub data Answer (r : Found) (h : Hash V) : Type ℓ where
    absent :
        r.place ≡ none
        → f q ≡ none
        → ((v : V) → Returns (Models (put f q (some v)) (suc n)) (add_new h r.hash mem r.klen v))
        → Answer r h
    present :
        (pp : Place × Ptr) (node : Node V)
        → r.place ≡ some pp
        → load h.heap pp.1 ≡ ok node
        → f q ≡ some node.val
        → ((v : V)
            → Models
                (put f q (some v))
                n
                (record h { heap = write h.heap pp.1 (some (record node { val = v })) }))
        → Answer r h

  Steady-Answer :
      {h : Hash V} (gs : List (Chain V)) (r : Found)
      → Steady f n h gs
      → SteadyFound k mem klen q arg h gs r
      → Answer r h
  Steady-Answer {h} gs r s (inl (missing, z)) =
      absent missing.none_found (sym (s.reads q) ∙ lookup-eq-none q (home_chain h.buckets gs q) z)
        (λ v. (
          _,
          rw (missing.hash, missing.same) (add_new-Steady mem klen q arg v s),
          steady (chains_with q v h.heap h.buckets gs) (insert-Steady q v s z),
        ))
  Steady-Answer {h} gs r s (inr (pp, place, whence, hit)) =
      let o : Owned gs (home h.buckets.mask q) q pp.1 = Hit-Owned [] refl hit in
      let once = (s.table.placed q (home h.buckets.mask q)).0 in
      present pp (node_of o.here (first o.rest)) place
        (Owned-load h.heap o (s.table.linked (home h.buckets.mask q)))
        (sym (s.reads q) ∙ Owned-lookup o once)
        (λ v. steady (assign_all q v gs) (replace-Steady q v s o))

  Growing-Answer :
      {h : Hash V} (e : Bucket) (old new : List (Chain V)) (c : ℕ) (r : Found)
      → Growing f n h e old new c
      → GrowingFound k mem klen q arg h e old new r
      → Answer r h
  unfolding or_else
  Growing-Answer {h} e old new c r g (inl (missing, zo, zn)) =
      absent missing.none_found
        (sym (g.reads q)
          ∙ rw (
            lookup-eq-none q (home_chain h.buckets old q) zo,
            lookup-eq-none q (home_chain e new q) zn,
          ))
        (λ v. (
          _,
          rw (missing.hash, missing.same) (add_new-Growing mem klen q arg v g),
          growing _ old (chains_with q v h.heap e new) c (insert-Growing q v g zo zn),
        ))
  Growing-Answer {h} e old new c r g (inr (pp, place, inl o)) =
      let once = (g.table.placed q (home h.buckets.mask q)).0 in
      present pp (node_of o.here (first o.rest)) place
        (Owned-load h.heap o (g.table.linked (home h.buckets.mask q)))
        (sym (g.reads q) ∙ rw (Owned-lookup o once))
        (λ v. growing e (assign_all q v old) (assign_all q v new) c (replace_old q v g o))
  Growing-Answer {h} e old new c r g (inr (pp, place, inr o)) =
      let once = (g.fresh.placed q (home e.mask q)).0 in
      present pp (node_of o.here (first o.rest)) place
        (Owned-load h.heap o (g.fresh.linked (home e.mask q)))
        (sym (g.reads q)
          ∙ rw (
            lookup-eq-none q (home_chain h.buckets old q)
                (omega (arith, g.apart q, Owned-present o)),
            Owned-lookup o once,
          ))
        (λ v. growing e (assign_all q v old) (assign_all q v new) c (replace_new q v g o))

  -- `kvs_hash_find_core` on a sound structure.
  pub find_core-Answer :
      {h : Hash V}
      → Models f n h
      → Returns (λ (r, h'). Models f n h' × Answer r h') (find_core k h mem klen)
  unfolding find_core
  find_core-Answer {h} models = located (rehash-Models k 10 fuel models)
    where
      settle : (h' : Hash V) → Models f n h' → Returns (λ r. Answer r h') (locate k h' mem klen)
      settle h' (steady gs s) =
          let (r, run, t) = locate-Steady k mem klen q arg fuel s in
          (r, run, Steady-Answer gs r s t)
      settle h' (growing e old new c g) =
          let (r, run, t) = locate-Growing k mem klen q arg fuel g in
          (r, run, Growing-Answer e old new c r g t)

      located :
          Returns (Models f n) (rehash k h 10)
          → Returns (λ (r, h'). Models f n h' × Answer r h') (find_core k h mem klen)
      located (h', run, m) = let (r, run', a) = settle h' m in ((r, h'), rw (run, run'), (m, a))

  -- On a sound structure that stands for the map `f`, `kvs_hash_find` returns `f` at the key, and
  -- leaves a sound structure that stands for `f`. The fuel is to exceed the number of entries, and
  -- the key's length to be given and to fit an `int`.
  pub find-Models :
      {h : Hash V}
      → Models f n h
      → Returns (λ (o, h'). (o ≡ f q) × Models f n h') (find k h mem klen)
  unfolding find
  find-Models {h} models = go (find_core-Answer models)
    where
      go :
          Returns (λ (r, h'). Models f n h' × Answer r h') (find_core k h mem klen)
          → Returns (λ (o, h'). (o ≡ f q) × Models f n h') (find k h mem klen)
      go ((r, h'), run, (m, absent none_at unknown adding)) =
          ((none, h'), rw (run, none_at), (sym unknown, m))
      go ((r, h'), run, (m, present pp node at_pp loaded known assigning)) =
          ((some node.val, h'), rw (run, at_pp, loaded), (sym known, m))

  -- What `kvs_hash_add` has done, by what it returns.
  abbrev pub AddEffect : Malloc → V → Added V × Hash V → Type ℓ
  AddEffect memory v (replaced w, h') = (f q ≡ some w) × Models (put f q (some v)) n h'
  AddEffect memory v (inserted, h') = (f q ≡ none) × Models (put f q (some v)) (suc n) h'
  AddEffect memory v (no_memory, h') = (f q ≡ none) × (memory.node ≡ false) × Models f n h'

  -- On a sound structure that stands for the map `f`, `kvs_hash_add` returns 1 with the old value
  -- and replaces it where `f` has the key, adds the key with result 0 where `f` has it not, and
  -- changes nothing with result -1 only if the key is not there and there is no memory for it.
  -- What is left is sound, whether or not there is memory for a second table. The fuel is to exceed
  -- the number of entries, and the key's length to be given and to fit an `int`.
  pub add-Models :
      (memory : Malloc) (v : V) {h : Hash V}
      → Models f n h
      → Returns (AddEffect memory v) (add k memory h mem klen v)
  unfolding add
  add-Models memory v {h} models =
      go (find_core-Answer (expand_if_full-Models memory.bucket models))
    where
      create :
          {r : Found} {h' : Hash V} (room : Bool)
          → memory.node ≡ room
          → find_core k (expand_if_full memory.bucket h) mem klen ≡ ok (r, h')
          → r.place ≡ none
          → f q ≡ none
          → Models f n h'
          → Returns (Models (put f q (some v)) (suc n)) (add_new h' r.hash mem r.klen v)
          → Returns (AddEffect memory v) (add k memory h mem klen v)
      create {h'} false room run none_at unknown m added =
          ((no_memory, h'), rw (run, none_at, room), (unknown, room, m))
      create true room run none_at unknown m (h'', added, m') =
          ((inserted, h''), rw (run, none_at, room, added), (unknown, m'))

      go :
          Returns
            (λ (r, h'). Models f n h' × Answer r h')
            (find_core k (expand_if_full memory.bucket h) mem klen)
          → Returns (AddEffect memory v) (add k memory h mem klen v)
      go ((r, h'), run, (m, absent none_at unknown adding)) =
          create memory.node refl run none_at unknown m (adding v)
      go ((r, h'), run, (m, present pp node at_pp loaded known assigning)) =
          ((replaced node.val, _), rw (run, at_pp, loaded), (known, assigning v))
