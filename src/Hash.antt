-- ===== src/Hash.antt =====
-- src/kvs_hash.c and src/kvs_hash.h: the hash table that grows while it is used.
--
-- The nodes stand in a heap, since a migrated chain is reachable from two tables. An address is
-- never given out twice, so a read of a freed node is a fault. `malloc` may fail: the caller
-- passes what each allocation answers. A walk along `next` pointers takes fuel.
-- `klen` is a `size_t`; `use` is an `int` that stays far from its ends; `index` is `none` for
-- KVS_UNUSED, which is also where the loop of `kvs_hash_rehash` counts down to.
pub mod Lookup
pub mod Chain
pub mod Edit
pub mod Table
pub mod Migrate
pub mod Rehash
pub mod Owned
pub mod Locate
pub mod Assign
pub mod Insert
pub mod Grow
pub mod Map
pub mod Unlink
pub mod Remove
pub mod Free
pub mod Progress
pub mod Tests
use ckv.Base.{
  ℕ, zero, suc, ◌+◌, ◌-◌, ◌*◌, ◌<◌, Bool, true, false, ◌&&◌, Option, none, some, List, [], ◌∷◌, ltb,
  leb, ◌==◌, bytes_eq, if◌then◌else◌, length, set, take, replicate, bit_and,
}
use ckv.Base.Int.{ℤ, pos, inc, dec, is_zero, ltb_ℤ}
use ckv.HashFunc.{hash_func, default_hash}
use ckv.Run.{Run, ok, fault, out_of_fuel, ◌>>=◌, at}

abbrev pub Ptr : Type 0
Ptr = ℕ

abbrev pub null : Ptr
null = 0

-- `klen` is the length of `key`, the node's own copy of the key's bytes.
pub record Node {ℓ} (V : Type ℓ) : Type ℓ where
  pub key : List ℕ
  pub val : V
  pub next : Ptr

-- The heap: the next free address, and the node at each address in use.
pub record Heap {ℓ} (V : Type ℓ) : Type ℓ where
  pub top : Ptr
  pub cell : Ptr → Option (Node V)

-- `kvs_hash_bucket_t`
pub record Bucket : Type 0 where
  pub buckets : List Ptr
  pub use_ : ℤ
  pub size : ℕ
  pub mask : ℕ

-- `kvs_hash_t`, with the heap of its nodes.
pub record Hash {ℓ} (V : Type ℓ) : Type ℓ where
  pub heap : Heap V
  pub buckets : Bucket
  pub expand_buckets : Option Bucket
  pub index : Option ℕ

-- A place that holds a `kvs_hash_node_t *`: what a `kvs_hash_node_t **` points at.
pub data Place : Type 0 where
  slot : (expand : Bool) → ℕ → Place
  next_of : Ptr → Place

-- The two allocations of `kvs_hash_bucket_new` and the two of `kvs_hash_node_new`.
pub record Malloc : Type 0 where
  pub bucket : Bool
  pub node : Bool

unfoldable pub bucket_new : Bool → ℕ → Option Bucket
bucket_new false hint = none
bucket_new true hint =
    some (record { buckets = replicate hint null; use_ = pos 0; size = hint; mask = hint - 1 })

-- The loop of `kvs_hash_next_power` with `n` rounds left.
unfoldable pub next_power_loop : ℕ → ℕ → ℕ → ℕ
next_power_loop zero hint p = p
next_power_loop (suc n) hint p =
    let rest = next_power_loop n hint (p * 2) in if leb hint p then p else rest

unfoldable pub next_power : ℕ → ℕ
unfolding next_power_loop
next_power hint = if hint == 2147483647 then hint else next_power_loop 29 hint 1

-- What the inner loop of `kvs_hash_rehash` changes: the nodes, `h->buckets->use` and
-- `*h->expand_buckets`. The slot of the old table is not written.
pub record Moving {ℓ} (V : Type ℓ) : Type ℓ where
  pub heap : Heap V
  pub use_ : ℤ
  pub expand : Bucket

-- `h->index--`
abbrev pub before : ℕ → Option ℕ
before zero = none
before (suc i) = some i

module _ {ℓ} {V : Type ℓ} where
  abbrev pub update : (Ptr → Option (Node V)) → Ptr → Option (Node V) → Ptr → Option (Node V)
  update cell p n q = if p == q then n else cell q

  abbrev pub or_fault : Option (Node V) → Run (Node V)
  or_fault none = fault
  or_fault (some n) = ok n

  -- `*p`
  unfoldable pub load : Heap V → Ptr → Run (Node V)
  load heap p = if p == null then fault else or_fault (heap.cell p)

  abbrev pub write : Heap V → Ptr → Option (Node V) → Heap V
  write heap p n = record heap { cell = update heap.cell p n }

  pub matches : Node V → List ℕ → ℕ → Bool
  matches n k klen = length n.key == klen && bytes_eq n.key (take klen k)

  -- `kvs_hash_new` for a `hint` that is no negative number
  unfoldable pub new : Bool → ℕ → Option (Hash V)
  unfolding bucket_new
  new memory hint = elim (bucket_new memory (if ltb hint 8 then 8 else next_power hint)) [
    | none ↦ none
    | some b ↦ some (record {
      heap = record { top = 1; cell = λ p. none };
      buckets = b;
      expand_buckets = none;
      index = none;
    })
  ]

  pub need_expand : Hash V → Bool
  need_expand h = elim h.expand_buckets [
    | some e ↦ false
    | none ↦ ltb_ℤ (pos h.buckets.size) h.buckets.use_
  ]

  pub move_chain : ℕ → Moving V → Ptr → Run (Moving V)
  move_chain zero m p = out_of_fuel
  move_chain (suc f) m p = if p == null then ok m else do
    n ← load m.heap p
    let newhash = bit_and (hash_func n.key (length n.key)).0 m.expand.mask
    head ← at m.expand.buckets newhash
    move_chain f
        (record m {
          heap = write m.heap p (some (record n { next = head }));
          use_ = dec m.use_;
          expand = record (m.expand) {
            buckets = set m.expand.buckets newhash p;
            use_ = inc m.expand.use_;
          };
        })
        n.next

  -- The outer loop, with `nbucket` buckets left to move.
  pub move_buckets : ℕ → List Ptr → ℕ → Option ℕ → Moving V → Run (Option ℕ × Moving V)
  move_buckets f old zero index m = ok (index, m)
  move_buckets f old (suc nbucket) none m = ok (none, m)
  move_buckets f old (suc nbucket) (some i) m = do
    p ← at old i
    m ← move_chain f m p
    move_buckets f old nbucket (before i) m

  abbrev pub start_index : Hash V → Option ℕ
  start_index h = elim h.index [ some i ↦ some i | none ↦ before h.buckets.size ]

  -- The structure with what the loops have changed.
  abbrev pub after_moves : Hash V → Option ℕ × Moving V → Hash V
  after_moves h (index, m) = record {
    heap = m.heap;
    buckets = record (h.buckets) { use_ = m.use_ };
    expand_buckets = some m.expand;
    index = index;
  }

  -- `kvs_hash_rehash` where there is a second table. The first one is given up when it is empty;
  -- the memory of the table itself, which is then freed, is not followed.
  pub rehash_into : ℕ → Hash V → Bucket → ℕ → Run (Hash V)
  unfolding move_chain move_buckets
  rehash_into f h e nbucket =
      if is_zero h.buckets.use_
      then ok (record h { buckets = e; expand_buckets = none; index = none })
      else do
        moved ←
            move_buckets f h.buckets.buckets nbucket (start_index h)
              (record { heap = h.heap; use_ = h.buckets.use_; expand = e })
        ok (after_moves h moved)

  pub rehash : ℕ → Hash V → ℕ → Run (Hash V)
  rehash f h nbucket = elim h.expand_buckets [ none ↦ ok h | some e ↦ rehash_into f h e nbucket ]

  -- The walk of `kvs_hash_find_core` along one chain: `pp` and `*pp`.
  pub search_chain : ℕ → Heap V → List ℕ → ℕ → Place → Ptr → Run (Option (Place × Ptr))
  search_chain zero heap k klen pp p = out_of_fuel
  search_chain (suc f) heap k klen pp p = if p == null then ok none else do
    n ← load heap p
    let rest = search_chain f heap k klen (next_of p) n.next
    if matches n k klen then ok (some (pp, p)) else rest
