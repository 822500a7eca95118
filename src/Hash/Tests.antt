-- ===== src/Hash/Tests.antt =====
-- Runs of src/kvs_hash.c's operations on small tables, and the theorems on them.
use ckv.Hash.Free.{SlotsFreed, free-SlotsFreed}
use ckv.Base.Int.{dec, inc}
use ckv.Hash.Remove.{Freed, del-Steady, fewer}
use ckv.Hash.Assign.{put}
use ckv.Hash.Progress.{rehashes-Steady, rehashes, IsSteady}
use ckv.Hash.Rehash.{rehash-Rehashed, Rehashed}
use ckv.Hash.Lookup.{
  free, resize, insert_node, count_down, push, store, add_new, search_bucket, round, locate,
  find_core, del, add, find, expand_if_full,
}
use ckv.Hash.Map.{add-Models, find-Models, AddEffect}
use ckv.Hash.Insert.{bucket_with, insert-Steady, chains_with, heap_with}
use ckv.Hash.Grow.{
  expand-Growing, fresh_hash-Steady, no_entry, next_power-IsNextPower, empty_bucket, empties,
  fresh_hash, IsNextPower,
}
use ckv.Run.{◌>>=◌, at, Run, Returns}
use ckv.Hash.Chain.{first, Chain, count}
use ckv.Hash.Table.{home, chain_at-replicate, growing, Steady, Models, Growing, home_chain}
use ckv.Hash.{
  fault, load, need_expand, matches, search_chain, move_chain, move_buckets, rehash_into, ok,
  bucket_new, rehash, next_power_loop, next_power, Malloc, Hash,
}
use ckv.HashFunc.{c_str, hash_bytes, rounds, default_hash, hash_func, IsKey}
use ckv.Base.{
  take, zero, set, replicate, suc, length-set, bytes_eq, ◌∷◌, ◌-◌, none, arith, length, [], refl,
  ◌≡◌, true, some, Option, List, ℕ,
}

abbrev key_a : List ℕ
key_a = 97 ∷ []

abbrev key_b : List ℕ
key_b = 98 ∷ []

key_a-IsKey : IsKey key_a 1 key_a
key_a-IsKey = record { short = omega arith; held = refl; bytes = refl }

key_b-IsKey : IsKey key_b 1 key_b
key_b-IsKey = record { short = omega arith; held = refl; bytes = refl }

-- A table of two slots with one entry, "a" with the value 7.
abbrev map_one : List ℕ → Option ℕ
map_one = put no_entry key_a (some 7)

abbrev empty_two : Hash ℕ
empty_two = fresh_hash 2

abbrev hash_one : Hash ℕ
hash_one = record empty_two {
  heap =
      heap_with key_a 7 empty_two.heap
        (first (home_chain empty_two.buckets (empties {V = ℕ} 2) key_a));
  buckets = bucket_with key_a 7 empty_two.heap empty_two.buckets;
}

abbrev chains_one : List (Chain ℕ)
chains_one = chains_with key_a 7 empty_two.heap empty_two.buckets (empties 2)

a_absent : home_chain empty_two.buckets (empties {V = ℕ} 2) key_a ≡ []
a_absent = chain_at-replicate 2 (home 1 key_a)

hash_one-Steady : Steady map_one 1 hash_one chains_one
unfolding count
hash_one-Steady =
    insert-Steady key_a 7 (fresh_hash-Steady {V = ℕ} 2 (omega arith)) (rw a_absent refl)

-- The same with a second table of four slots beside it.
abbrev hash_growing : Hash ℕ
hash_growing = record hash_one { expand_buckets = some (empty_bucket 4) }

hash_growing-Growing :
    Growing map_one 1 hash_growing (empty_bucket 4) chains_one (empties 4) (length chains_one)
hash_growing-Growing = expand-Growing 4 (omega arith) hash_one-Steady

hash_growing-Models : Models map_one 1 hash_growing
hash_growing-Models =
    growing (empty_bucket 4) chains_one (empties 4) (length chains_one) hash_growing-Growing

abbrev enough_memory : Malloc
enough_memory = record { bucket = true; node = true }

find-Models_example :
    Returns (λ (o, h'). (o ≡ some 7) × Models map_one 1 h') (find 2 hash_growing key_a 1)
unfolding bytes_eq
find-Models_example =
    find-Models 2 key_a 1 key_a key_a-IsKey map_one 1 (omega arith) hash_growing-Models

add-Models_example :
    Returns
      (AddEffect 2 key_b 1 key_b key_b-IsKey map_one 1 (omega arith) enough_memory 9)
      (add 2 enough_memory hash_growing key_b 1 9)
add-Models_example =
    add-Models 2 key_b 1 key_b key_b-IsKey map_one 1 (omega arith) enough_memory 9
      hash_growing-Models

del-Steady_example :
    Returns
      (λ (o, h').
        (o ≡ map_one key_a)
        × Freed hash_one key_a o h'
        × ((gs : List (Chain ℕ)) × Steady (put map_one key_a none) (fewer o 1) h' gs))
      (del 2 hash_one key_a 1)
del-Steady_example = del-Steady 2 key_a 1 key_a key_a-IsKey (omega arith) hash_one-Steady

free-SlotsFreed_example :
    Returns
      (λ (vs, heap, tables).
        SlotsFreed hash_one.heap chains_one (length chains_one) (vs, heap)
        × (tables ≡ hash_one.buckets ∷ []))
      (free 2 true hash_one)
free-SlotsFreed_example = free-SlotsFreed 2 (omega arith) hash_one-Steady

rehash-Rehashed_example :
    Returns (Rehashed map_one 1 (length chains_one - 1)) (rehash 2 hash_growing 1)
rehash-Rehashed_example = rehash-Rehashed 2 1 (omega arith) hash_growing-Growing

rehashes-Steady_example : Returns (IsSteady map_one 1) (rehashes 2 1 3 hash_growing)
unfolding replicate
rehashes-Steady_example =
    rehashes-Steady 2 1 (omega arith) 2 (length chains_one) (rw length-set (omega arith))
      hash_growing-Growing

next_power-IsNextPower_example : IsNextPower 100 (next_power 100)
next_power-IsNextPower_example = next_power-IsNextPower 100 (omega arith) (omega arith)

-- The runs that the tests make.
test_next_power : next_power 100 ≡ 128
unfolding next_power next_power_loop
test_next_power = refl

-- One-byte keys from `c` on.
adds : ℕ → ℕ → Hash ℕ → Run (Hash ℕ)
adds zero c h = ok h
adds (suc n) c h = do (r, h') ← add 40 enough_memory h (c ∷ []) 1 c; adds n (suc c) h'

-- A key is found again before and while the table of 16 slots grows.
test_find_growing :
    (adds 18 97 (fresh_hash 16) >>= (λ h. find 40 h key_b 1) >>= (λ r. ok r.0)) ≡ ok (some 98)
unfolding adds add find_core locate round search_bucket find add_new push insert_node expand_if_full
    resize rehash rehash_into move_buckets move_chain search_chain matches need_expand load at
    hash_func default_hash rounds c_str hash_bytes next_power next_power_loop bucket_new bytes_eq
    set replicate length take inc dec
test_find_growing = refl

-- A key that is deleted through a migrated slot of the old table stays linked in the new one, and
-- the next search for it reads the freed node.
test_del_growing :
    (adds 18 97 (fresh_hash 16) >>= (λ h. del 40 h key_b 1) >>= (λ r. find 40 r.1 key_b 1)) ≡ fault
unfolding adds add find_core locate round search_bucket find del store count_down add_new push
    insert_node expand_if_full resize rehash rehash_into move_buckets move_chain search_chain
    matches need_expand load at hash_func default_hash rounds c_str hash_bytes next_power
    next_power_loop bucket_new bytes_eq set replicate length take inc dec
test_del_growing = refl
