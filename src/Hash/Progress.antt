-- ===== src/Hash/Progress.antt =====
-- The migration of `kvs_hash_rehash` comes to an end.
use mathlib.Core.Path.{subst}
use ckv.Hash.Rehash.{
  rehash-Rehashed, unfinished, finished, Rehashed, rehash_into-Steady, rehash_filling,
  rehash-Steady,
}
use ckv.Hash.Table.{total-eq-zero, Growing, Steady}
use ckv.Hash.Chain.{Chain}
use ckv.Run.{Returns, Run}
use ckv.Hash.{rehash, Bucket, ok, Hash}
use ckv.Run.{◌>>=◌}
use ckv.Base.{◌-◌, refl, zero, arith, ◌≡◌, ◌*◌, ◌≤◌, suc, ◌<◌, Option, List, ℕ}

-- The calls `kvs_hash_rehash(h, nbucket)` of `m` operations in turn.
pub rehashes {ℓ} : {V : Type ℓ} → ℕ → ℕ → ℕ → Hash V → Run (Hash V)
rehashes k nbucket zero h = ok h
rehashes k nbucket (suc m) h = do h ← rehash k h nbucket; rehashes k nbucket m h

-- One table that stands for `f`, with `n` entries.
abbrev pub IsSteady {ℓ} : {V : Type ℓ} → (List ℕ → Option V) → ℕ → Hash V → Type ℓ
IsSteady {V} f n h = (gs : List (Chain V)) × Steady f n h gs

module _ {ℓ} {V : Type ℓ} {f : List ℕ → Option V} {n : ℕ} (k nbucket : ℕ) (fuel : n < k) where
  stays :
      (m : ℕ) {h : Hash V} {gs : List (Chain V)}
      → Steady f n h gs
      → Returns (IsSteady f n) (rehashes k nbucket m h)
  unfolding rehashes
  stays zero {h} {gs} s = (h, refl, (gs, s))
  stays (suc m) s = rw (rehash-Steady k nbucket s) (stays m s)

  -- When every slot has been moved, the next call drops the old table.
  last_call :
      {h : Hash V} {e : Bucket} {old new : List (Chain V)}
      → Growing f n h e old new 0
      → Returns (IsSteady f n) (rehash k h nbucket)
  last_call {h} {e} {old} {new} g =
      rw (rehash_filling k nbucket h e g.filling)
        (rehash_into-Steady k nbucket g (total-eq-zero old (λ i. (g.moved i (omega arith)).0)))

  -- A growing table that stands for the map `f` and has `c` slots left to be moved is a single
  -- sound table that stands for `f` after `m + 1` calls, if `m * nbucket` is at least `c` and the
  -- fuel exceeds the number of entries.
  pub rehashes-Steady :
      (m : ℕ) {h : Hash V} {e : Bucket} {old new : List (Chain V)} (c : ℕ)
      → c ≤ m * nbucket
      → Growing f n h e old new c
      → Returns (IsSteady f n) (rehashes k nbucket (suc m) h)
  unfolding rehashes
  rehashes-Steady zero {h} {e} {old} {new} c le g =
      let none_left : c ≡ 0 = omega (arith, le) in
      let (h', run, done) = last_call (subst (Growing f n h e old new) none_left g) in
      (h', rw run, done)
  rehashes-Steady (suc m) {h} c le g =
      go (rehash-Rehashed k nbucket fuel g)
        (λ h' e' old' new' g'. rehashes-Steady m (c - nbucket) (omega (arith, le)) g')
    where
      rest :
          {h' : Hash V}
          → Rehashed f n (c - nbucket) h'
          → ((h' : Hash V) (e' : Bucket) (old' new' : List (Chain V))
              → Growing f n h' e' old' new' (c - nbucket)
              → Returns (IsSteady f n) (rehashes k nbucket (suc m) h'))
          → Returns (IsSteady f n) (rehashes k nbucket (suc m) h')
      rest (finished gs s) again = stays (suc m) s
      rest {h'} (unfinished e' old' new' g') again = again h' e' old' new' g'

      go :
          Returns (Rehashed f n (c - nbucket)) (rehash k h nbucket)
          → ((h' : Hash V) (e' : Bucket) (old' new' : List (Chain V))
              → Growing f n h' e' old' new' (c - nbucket)
              → Returns (IsSteady f n) (rehashes k nbucket (suc m) h'))
          → Returns (IsSteady f n) (rehashes k nbucket (suc (suc m)) h)
      go (h', run, t) again = let (h'', run', done) = rest t again in (h'', rw (run, run'), done)
