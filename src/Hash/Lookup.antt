-- ===== src/Hash/Lookup.antt =====
-- src/kvs_hash.c: `kvs_hash_find_core` and the operations that stand on it.
use ckv.Base.{
  ℕ, zero, suc, ◌*◌, ◌%◌, ◌^◌, Bool, true, false, Option, none, some, List, [], ◌∷◌, ◌++◌, ◌==◌,
  if◌then◌else◌, set, take, bit_and,
}
use ckv.Base.Int.{inc, dec}
use ckv.HashFunc.{hash_func}
use ckv.Hash.{
  Ptr, null, Heap, Bucket, Hash, Place, slot, next_of, Malloc, bucket_new, next_power, load, write,
  need_expand, rehash, search_chain,
}
use ckv.Run.{Run, ok, fault, out_of_fuel, ◌>>=◌, at}

-- The result of `kvs_hash_find_core`, `pp` with `*pp`, and its out parameters.
pub record Found : Type 0 where
  pub place : Option (Place × Ptr)
  pub hash : ℕ
  pub klen : ℕ
  pub whence : Bool

-- The second round looks in the table that is being filled, if there is one.
abbrev pub last_bucket {ℓ} : {V : Type ℓ} → Hash V → Bool × Bucket
last_bucket h = elim h.expand_buckets [ none ↦ (false, h.buckets) | some e ↦ (true, e) ]

-- `h->index != KVS_UNUSED`
abbrev pub is_used : Option ℕ → Bool
is_used none = false
is_used (some i) = true

module _ {ℓ} {V : Type ℓ} where
  -- The walk along slot `hv` of one table.
  unfoldable pub search_bucket :
      ℕ → Heap V → Bool → Bucket → (hv : ℕ) → List ℕ → ℕ → Run (Option (Place × Ptr))
  search_bucket f heap expand b hv k klen = do
    p ← at b.buckets hv
    search_chain f heap k klen (slot expand hv) p

  -- One round of the loop of `kvs_hash_find_core`: `*hash`, `*klen` and the walk.
  unfoldable pub round :
      ℕ → Heap V → Bool → Bucket → List ℕ → ℕ → Run (ℕ × ℕ × Option (Place × Ptr))
  round f heap expand b k klen₀ = do
    let (hash, klen) = hash_func k klen₀
    let hv = bit_and hash b.mask
    place ← search_bucket f heap expand b hv k klen
    ok (hv, klen, place)

  -- The loop: the second round runs if the first finds nothing.
  unfoldable pub locate : ℕ → Hash V → List ℕ → ℕ → Run Found
  locate f h k klen₀ = do
    (hv, klen, first) ← round f h.heap false h.buckets k klen₀
    elim first [
      | some pp ↦ ok (record { place = some pp; hash = hv; klen = klen; whence = false })
      | none ↦
          let (expand, b) = last_bucket h in
          round f h.heap expand b k klen >>= λ (hv, klen, second).
          ok (record { place = second; hash = hv; klen = klen; whence = expand })
    ]

  unfoldable pub find_core : ℕ → Hash V → List ℕ → ℕ → Run (Found × Hash V)
  unfolding locate round search_bucket
  find_core f h₀ k klen = do h ← rehash f h₀ 10; found ← locate f h k klen; ok (found, h)

  -- The new table, and the value returned: -1 is `false`.
  unfoldable pub resize : Bool → Hash V → ℕ → Bool × Hash V
  resize memory h new_size =
      if is_used h.index
      then (false, h)
      else (true, record h { expand_buckets = bucket_new memory (next_power new_size) })

  -- `*pp = p`
  unfoldable pub store : Hash V → Place → Ptr → Run (Hash V)
  store h (slot false i) p =
      ok (record h { buckets = record (h.buckets) { buckets = set h.buckets.buckets i p } })
  store h (slot true i) p = elim h.expand_buckets [
    | none ↦ fault
    | some e ↦ ok (record h { expand_buckets = some (record e { buckets = set e.buckets i p }) })
  ]
  store h (next_of q) p = do
    n ← load h.heap q
    ok (record h { heap = write h.heap q (some (record n { next = p })) })

  unfoldable pub find : ℕ → Hash V → List ℕ → ℕ → Run (Option V × Hash V)
  find f h₀ k klen = do
    (r, h) ← find_core f h₀ k klen
    elim r.place [ none ↦ ok (none, h) | some (pp, p) ↦ load h.heap p >>= λ n. ok (some n.val, h) ]

  -- `kvs_hash_node_new` at the address `heap.top`, linked in at once.
  unfoldable pub insert_node : Heap V → List ℕ → ℕ → V → Ptr → Heap V
  insert_node heap k klen v next = record {
    top = suc heap.top;
    cell =
        (write heap heap.top
          (some (record { key = take (klen % 2 ^ 32) k; val = v; next = next }))).cell;
  }

  -- `newp->next = buckets->buckets[hash]; buckets->buckets[hash] = newp; buckets->use++;`
  unfoldable pub push : Hash V → Bucket → ℕ → List ℕ → ℕ → V → Run (Heap V × Bucket)
  unfolding insert_node
  push h b hash k klen v = do
    head ← at b.buckets hash
    ok (
      insert_node h.heap k klen v head,
      record b { buckets = set b.buckets hash h.heap.top; use_ = inc b.use_ },
    )

  unfoldable pub add_new : Hash V → ℕ → List ℕ → ℕ → V → Run (Hash V)
  unfolding push
  add_new h hash k klen v = elim h.expand_buckets [
    | none ↦
        push h h.buckets hash k klen v >>= λ (heap, b). ok (record h { heap = heap; buckets = b })
    | some e ↦ push h e hash k klen v >>= λ (heap, b).
        ok (record h { heap = heap; expand_buckets = some b })
  ]

  unfoldable pub expand_if_full : Bool → Hash V → Hash V
  unfolding resize
  expand_if_full memory h = if need_expand h then (resize memory h (h.buckets.size * 2)).1 else h

-- `kvs_hash_bucket_free`: the table that is freed, unless the pointer is null.
abbrev pub bucket_free : Option Bucket → List Bucket
bucket_free none = []
bucket_free (some b) = b ∷ []

-- What `kvs_hash_add` returns: 1 and the old value through `v`, 0, or -1.
pub data Added {ℓ} (V : Type ℓ) : Type ℓ where
  replaced : V → Added V
  inserted no_memory : Added V

module _ {ℓ} {V : Type ℓ} where
  unfoldable pub add : ℕ → Malloc → Hash V → List ℕ → ℕ → V → Run (Added V × Hash V)
  unfolding expand_if_full
  add f memory h₀ k klen v = do
    (r, h) ← find_core f (expand_if_full memory.bucket h₀) k klen
    elim r.place [
      | some (pp, p) ↦ load h.heap p >>= λ n.
          ok (replaced n.val, record h { heap = write h.heap p (some (record n { val = v })) })
      | none ↦
          if memory.node
          then add_new h r.hash k r.klen v >>= (λ h'. ok (inserted, h'))
          else ok (no_memory, h)
    ]

  -- `whence == KVS_EXPAND ? h->expand_buckets->use-- : h->buckets->use--`
  unfoldable pub count_down : Bool → Hash V → Run (Hash V)
  count_down false h = ok (record h { buckets = record (h.buckets) { use_ = dec h.buckets.use_ } })
  count_down true h = elim h.expand_buckets [
    | none ↦ fault
    | some e ↦ ok (record h { expand_buckets = some (record e { use_ = dec e.use_ }) })
  ]

  -- `none` is the result -1; otherwise the value that is handed out.
  unfoldable pub del : ℕ → Hash V → List ℕ → ℕ → Run (Option V × Hash V)
  unfolding store count_down
  del f h₀ k klen = do
    (r, h) ← find_core f h₀ k klen
    elim r.place [
      | none ↦ ok (none, h)
      | some (pp, p) ↦ load h.heap p >>= λ n. store h pp n.next >>= λ h.
          count_down r.whence h >>= λ h. ok (some n.val, record h { heap = write h.heap p none })
    ]

  -- The walk of `kvs_hash_free` along one chain: the calls of `myfree`, in order.
  unfoldable pub free_chain : ℕ → Heap V → Ptr → Run (List V × Heap V)
  free_chain zero heap p = out_of_fuel
  free_chain (suc f) heap p = if p == null then ok ([], heap) else do
    n ← load heap p
    (vs, heap') ← free_chain f (write heap p none) n.next
    ok (n.val ∷ vs, heap')

  -- `for (i = buckets->size - 1; i >= 0; i--)`, with `i` slots left.
  unfoldable pub free_slots : ℕ → List Ptr → ℕ → Heap V → Run (List V × Heap V)
  unfolding free_chain
  free_slots f slots zero heap = ok ([], heap)
  free_slots f slots (suc i) heap = do
    p ← at slots i
    (vs, heap₁) ← free_chain f heap p
    (ws, heap₂) ← free_slots f slots i heap₁
    ok (vs ++ ws, heap₂)

  -- `myfree` on each value
  abbrev pub handed : (myfree : Bool) → List V → Heap V → Run (List V × Heap V)
  handed myfree [] heap = ok ([], heap)
  handed true (v ∷ vs) heap = ok (v ∷ vs, heap)
  handed false (v ∷ vs) heap = fault

  -- `kvs_hash_free`: the values that `myfree` was called on, the nodes that are left, and the tables
  -- that are freed, before the structure itself. A null `myfree` is a fault at the first node.
  unfoldable pub free : ℕ → (myfree : Bool) → Hash V → Run (List V × Heap V × List Bucket)
  unfolding free_slots
  free f myfree h = do
    (vs, heap₁) ← free_slots f h.buckets.buckets h.buckets.size h.heap
    (ws, heap₂) ← elim h.expand_buckets [
      | none ↦ ok ([], heap₁)
      | some e ↦ free_slots f e.buckets e.size heap₁
    ]
    (us, heap₃) ← handed myfree (vs ++ ws) heap₂
    ok (us, heap₃, bucket_free (some h.buckets) ++ bucket_free h.expand_buckets)
