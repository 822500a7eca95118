-- ===== src/MinHeap/Written.antt =====
-- The entries of src/kvs_minheap4.c that have been written.
use ckv.Run.{at-get_or, ◌>>=◌}
use ckv.MinHeap.{loaded, ok, get, MinHeap, put_at}
use ckv.Base.{
  inr, get_or-set, inl, ◌==◌, Bool-cases, set, get_or, ℕ, ◌<◌, ◌≤◌, ◌≡◌, List, length, Option, some,
  none, true, ltb, ap, ◌∙◌, arith,
}

-- The memory has `nalloc` entries, and the first `count` of them are in use.
pub record IsRoomy {A : Type 0} (h : MinHeap A) : Type 0 where
  pub room : length h.t ≡ h.nalloc
  pub fits : h.count ≤ h.nalloc
  pub some_room : 0 < h.nalloc

-- The first `n` entries are written.
abbrev pub IsWritten : {A : Type 0} → List (Option A) → ℕ → Type 0
IsWritten {A} t n = (i : ℕ) → i < n → (v : A) × (get_or t i none ≡ some v)

module _ {A : Type 0} where
  pub get-IsWritten :
      (t : List (Option A)) (i : ℕ) {v : A}
      → i < length t
      → get_or t i none ≡ some v
      → get t i ≡ ok v
  unfolding get
  get-IsWritten t i {v} inside e = ap (λ r. r >>= loaded) (at-get_or t i none inside) ∙ ap loaded e

  pub put_at-lem :
      (t : List (Option A)) (i : ℕ) (v : A) → i < length t → put_at t i v ≡ ok (set t i (some v))
  unfolding put_at
  put_at-lem t i v inside = let e : ltb i (length t) ≡ true = ground (arith, inside) in rw e

  pub set-IsWritten :
      (t : List (Option A)) (n i : ℕ) (v : A)
      → i < length t
      → IsWritten t n
      → IsWritten (set t i (some v)) n
  set-IsWritten t n i v inside w j lt = elim (Bool-cases (i == j)) [
    | inl same ↦ (v, get_or-set t i j (some v) none inside ∙ rw same)
    | inr differ ↦ ((w j lt).0, get_or-set t i j (some v) none inside ∙ rw differ (w j lt).1)
  ]
