-- ===== src/Hash/Grow.antt =====
-- `kvs_hash_next_power`, `kvs_hash_new` and `kvs_hash_resize`.
use mathlib.Core.Path.{subst}
use mathlib.Core.List.{append-nil}
use ckv.Hash.Lookup.{is_used, resize, expand_if_full}
use ckv.Hash.Table.{
  steady, growing, home_chain, Models, chain_at, home, total, total-eq-zero, Growing,
  chain_at-replicate, Steady, IsTable,
}
use ckv.Hash.Chain.{first, Chain, lookup, count}
use ckv.Hash.{
  bucket_new, new, need_expand, Bucket, pos, null, Node, Hash, Ptr, next_power, next_power_loop,
}
use mathlib.Core.Option.{some-injective, or_else}
use native.Mathlib.Nat.{pow-suc}
use ckv.Base.{
  true, ltb, if◌then◌else◌, Bool, get_or_beyond, get_or, ap, length, sym, some, ◌∙◌, inr,
  length-replicate, refl, inl, get_or-replicate, ◌-◌, false, leb, zero, [], ◌==◌, Bool-cases, suc,
  arith, ◌*◌, ◌≤◌, replicate, none, ◌<◌, ◌^◌, Option, ◌≡◌, ℕ, List,
}

-- `r` is the least power of two that is at least `hint`.
pub record IsNextPower (hint r : ℕ) : Type 0 where
  pub exponent : ℕ
  pub power : r ≡ 2 ^ exponent
  pub enough : hint ≤ r
  pub least : r < 2 * hint

next_power_loop-IsNextPower :
    (n hint p j : ℕ)
    → p ≡ 2 ^ j
    → p < 2 * hint
    → hint ≤ p * 2 ^ n
    → IsNextPower hint (next_power_loop n hint p)
unfolding next_power_loop
next_power_loop-IsNextPower zero hint p j e lo hi = record {
  exponent = j;
  power = e;
  enough = omega (arith, hi);
  least = lo;
}
next_power_loop-IsNextPower (suc n) hint p j e lo hi = elim (Bool-cases (leb hint p)) [
  | inl stop ↦ rw stop (record { exponent = j; power = e; enough = ground arith; least = lo })
  | inr more ↦ rw more (
      next_power_loop-IsNextPower n hint (p * 2) (suc j) (rw (pow-suc 2 j, e)) (ground arith)
        (omega (arith, hi, pow-suc 2 n, double)))
]
  where
    double : p * 2 * 2 ^ n ≡ p * 2 ^ suc n
    double = rw (pow-suc 2 n) (omega arith)

-- For a positive `hint` of at most 2 ^ 29, `kvs_hash_next_power` returns the least power of two
-- that is not below it.
pub next_power-IsNextPower :
    (hint : ℕ) → 0 < hint → hint ≤ 2 ^ 29 → IsNextPower hint (next_power hint)
unfolding next_power
next_power-IsNextPower hint lo hi =
    rw small (next_power_loop-IsNextPower 29 hint 1 0 refl (omega arith) (omega arith))
  where
    small : hint == 2147483647 ≡ false
    small = ground arith

next_power_loop_pos : (n hint p : ℕ) → 0 < p → 0 < next_power_loop n hint p
unfolding next_power_loop
next_power_loop_pos zero hint p h = h
next_power_loop_pos (suc n) hint p h = ground (arith, next_power_loop_pos n hint (p * 2))

pub next_power_pos : (hint : ℕ) → 0 < next_power hint
unfolding next_power
next_power_pos hint = ground (arith, next_power_loop_pos 29 hint 1)

-- The table that `kvs_hash_bucket_new` returns.
abbrev pub empty_bucket : ℕ → Bucket
empty_bucket s = record { buckets = replicate s null; use_ = pos 0; size = s; mask = s - 1 }

abbrev pub empties {ℓ} : {V : Type ℓ} → ℕ → List (Chain V)
empties s = replicate s []

length-empties {ℓ} : (V : Type ℓ) (s : ℕ) → length (empties {V = V} s) ≡ s
length-empties V s = length-replicate s []

total-empties {ℓ} : (V : Type ℓ) (s : ℕ) → total (empties {V = V} s) ≡ 0
total-empties V s = total-eq-zero (empties s) (chain_at-replicate {V = V} s)

Heads-empty {ℓ} :
    (V : Type ℓ) (s i : ℕ)
    → get_or (replicate s null) i null ≡ first (chain_at (empties {V = V} s) i)
Heads-empty V s i = get_or-replicate s i null ∙ ap first (sym (chain_at-replicate {V = V} s i))

module _ {ℓ} {V : Type ℓ} where
  -- The empty map.
  abbrev pub no_entry : List ℕ → Option V
  no_entry q = none

  or_else-none : (o : Option V) → or_else o none ≡ o
  unfolding or_else
  or_else-none none = refl
  or_else-none (some v) = refl

  -- A new table has empty chains.
  pub IsTable-empty :
      (cell : Ptr → Option (Node V)) (s : ℕ) → 0 < s → IsTable cell (empty_bucket s) (empties s)
  unfolding count
  IsTable-empty cell s h = record {
    width = length-replicate s null ∙ sym (length-empties V s);
    size = sym (length-empties V s);
    mask = rw (length-empties V s) (omega arith);
    used = ap pos (sym (total-empties V s));
    linked = λ i. rw (chain_at-replicate {V = V} s i) tt;
    placed = λ q i. rw (chain_at-replicate {V = V} s i) (omega arith, λ ne. refl);
  }

  -- A full table gets a second one beside it, with nothing moved yet.
  pub expand-Growing :
      {f : List ℕ → Option V} {n : ℕ} {h : Hash V} {gs : List (Chain V)} (s : ℕ)
      → 0 < s
      → Steady f n h gs
      → Growing f n
          (record h { expand_buckets = some (empty_bucket s) })
          (empty_bucket s)
          gs
          (empties s)
          (length gs)
  unfolding lookup count
  expand-Growing {h} {gs} s lo st = record {
    amount = omega (arith, st.amount, total-empties V s);
    filling = refl;
    heap = st.heap;
    table = st.table;
    fresh = IsTable-empty h.heap.cell s lo;
    heads = Heads-empty V s;
    apart = λ q.
        rw (chain_at-replicate {V = V} s (home (s - 1) q))
          (omega (arith, (st.table.placed q (home h.buckets.mask q)).0));
    kept = λ i lt. st.heads i;
    moved = λ i le. (
      get_or_beyond gs i [] le,
      (
        0,
        chain_at (empties s) 0,
        [],
        sym (append-nil (chain_at (empties s) 0)),
        st.heads i ∙ ap first (get_or_beyond gs i [] le),
      ),
    );
    cursor = rw st.idle (inr refl);
    reads = λ q.
        rw (chain_at-replicate {V = V} s (home (s - 1) q))
          (or_else-none (lookup q (home_chain h.buckets gs q)) ∙ st.reads q);
  }

  need_expand-Growing :
      {f : List ℕ → Option V} {n : ℕ} {h : Hash V} {e : Bucket} {old new : List (Chain V)} {c : ℕ}
      → Growing f n h e old new c
      → need_expand h ≡ false
  unfolding need_expand
  need_expand-Growing g = rw g.filling

  resize-Steady :
      (memory : Bool) {f : List ℕ → Option V} {n : ℕ} {h : Hash V} {gs : List (Chain V)}
      → Steady f n h gs
      → (resize memory h (h.buckets.size * 2)).1
        ≡ record h { expand_buckets = bucket_new memory (next_power (h.buckets.size * 2)) }
  unfolding resize
  resize-Steady memory s = rw (ap is_used s.idle)

  -- If a sound structure stands for the map `f`, it does so, with as many entries, after the start
  -- of `kvs_hash_add`, where a full table gets a second one, with or without memory for it.
  pub expand_if_full-Models :
      (memory : Bool) {f : List ℕ → Option V} {n : ℕ} {h : Hash V}
      → Models f n h
      → Models f n (expand_if_full memory h)
  unfolding expand_if_full bucket_new
  expand_if_full-Models memory {h} (growing e old new c g) =
      rw (need_expand-Growing g) (growing e old new c g)
  expand_if_full-Models memory {f} {n} {h} (steady gs s) = elim (Bool-cases (need_expand h)) [
    | inr fits ↦ rw fits (steady gs s)
    | inl full ↦ rw (full, resize-Steady memory s) (widen memory)
  ]
    where
      size : ℕ
      size = next_power (h.buckets.size * 2)

      widen : (m : Bool) → Models f n (record h { expand_buckets = bucket_new m size })
      widen true =
          growing (empty_bucket size) gs (empties size) (length gs)
            (expand-Growing size (next_power_pos (h.buckets.size * 2)) s)
      widen false = steady gs (record {
        amount = s.amount;
        alone = refl;
        idle = s.idle;
        heap = s.heap;
        table = s.table;
        heads = s.heads;
        reads = s.reads;
      })

  -- The structure that `kvs_hash_new` returns, for a number of slots.
  abbrev pub fresh_hash : ℕ → Hash V
  fresh_hash s = record {
    heap = record { top = 1; cell = λ p. none };
    buckets = empty_bucket s;
    expand_buckets = none;
    index = none;
  }

  pub fresh_hash-Steady : (s : ℕ) → 0 < s → Steady no_entry 0 (fresh_hash s) (empties s)
  unfolding lookup
  fresh_hash-Steady s lo = record {
    amount = total-empties V s;
    alone = refl;
    idle = refl;
    heap = record { nonzero = refl; free = λ p le. refl };
    table = IsTable-empty (λ p. none) s lo;
    heads = Heads-empty V s;
    reads = λ q. rw (chain_at-replicate {V = V} s (home (s - 1) q));
  }

  -- What `kvs_hash_new` returns, when it returns a table, is sound and stands for the empty map.
  pub new-Models :
      (memory : Bool) (hint : ℕ) {h : Hash V} → new memory hint ≡ some h → Models no_entry 0 h
  unfolding new bucket_new
  new-Models false hint e = cc
  new-Models true hint {h} e =
      let s = if ltb hint 8 then 8 else next_power hint in
      subst (Models no_entry 0) (some-injective (fresh_hash s) h e)
        (steady (empties s) (fresh_hash-Steady s (ground (arith, next_power_pos hint))))
