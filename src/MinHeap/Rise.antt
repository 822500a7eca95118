-- ===== src/MinHeap/Rise.antt =====
-- The loop of `kvs_minheap_add` of src/kvs_minheap4.c, and what holds before each of its rounds.
use mathlib.Core.Path.{subst}
use ckv.MinHeap.Written.{set-IsWritten, put_at-lem, get-IsWritten, IsWritten}
use ckv.Run.{Returns}
use ckv.Base.Int.{ℤ}
use ckv.MinHeap.{sift_round, less, sift_up, ok, get, put_at}
use ckv.Base.{
  length-set, zero, inr, suc, inl, ◌==◌, Bool-cases, set, get_or, ℕ, ◌-◌, ◌/◌, ◌<◌, ◌≤◌, ◌≡◌, List,
  length, Option, some, none, true, false, refl, ◌∙◌, arith,
}

module _ {A : Type 0} (cmp : A → A → ℤ) where
  -- One round of the loop, by its outcome.
  sift_up_stays :
      (f c : ℕ) (t : List (Option A)) (tmp child parent : A)
      → c == 0 ≡ false
      → get t c ≡ ok child
      → get t ((c - 1) / 4) ≡ ok parent
      → less cmp child parent ≡ false
      → sift_up cmp (suc f) c t tmp ≡ ok t
  unfolding sift_up
  sift_up_stays f c t tmp child parent below at_c at_p stays =
      rw (sift_up, below, at_c, at_p, sift_round, stays)

  sift_up_rises :
      (f c : ℕ) (t : List (Option A)) (tmp child parent : A) (t₁ t₂ : List (Option A))
      → c == 0 ≡ false
      → get t c ≡ ok child
      → get t ((c - 1) / 4) ≡ ok parent
      → less cmp child parent ≡ true
      → put_at t c parent ≡ ok t₁
      → put_at t₁ ((c - 1) / 4) tmp ≡ ok t₂
      → sift_up cmp (suc f) c t tmp ≡ sift_up cmp f ((c - 1) / 4) t₂ tmp
  unfolding sift_up
  sift_up_rises f c t tmp child parent t₁ t₂ below at_c at_p rises put_c put_p =
      rw (sift_up, below, at_c, at_p, sift_round, rises, put_c, put_p)

  -- `Q c` holds before the round at `c`, and `R` when the loop has ended.
  module _ (n : ℕ) (tmp : A) (Q : ℕ → List (Option A) → Type 0) (R : List (Option A) → Type 0)
      (at_top : (t : List (Option A)) → Q 0 t → R t)
      (at_rest : (c : ℕ) (t : List (Option A)) (child parent : A)
        → 0 < c
        → c < n
        → get_or t c none ≡ some child
        → get_or t ((c - 1) / 4) none ≡ some parent
        → less cmp child parent ≡ false
        → Q c t
        → R t)
      (round : (c : ℕ) (t : List (Option A)) (child parent : A)
        → 0 < c
        → c < n
        → n ≤ length t
        → get_or t c none ≡ some child
        → get_or t ((c - 1) / 4) none ≡ some parent
        → less cmp child parent ≡ true
        → Q c t
        → Q ((c - 1) / 4) (set (set t c (some parent)) ((c - 1) / 4) (some tmp))) where
    abbrev pub Risen : List (Option A) → List (Option A) → Type 0
    Risen t t' = (length t' ≡ length t) × IsWritten t' n × R t'

    pub sift_up-Risen :
        (f c : ℕ) (t : List (Option A))
        → c ≤ f
        → c < n
        → n ≤ length t
        → IsWritten t n
        → Q c t
        → Returns (Risen t) (sift_up cmp f c t tmp)
    unfolding sift_up
    sift_up-Risen zero c t fuel lt le w q =
        let e : c == 0 ≡ true = ground (arith, fuel) in
        (
          t,
          rw e,
          (refl, w, at_top t (subst (λ i. Q i t) (let z : c ≡ 0 = omega (arith, fuel) in z) q)),
        )
    sift_up-Risen (suc f) c t fuel lt le w q = elim (Bool-cases (c == 0)) [
      | inl top ↦ (
        t,
        rw (sift_up, top),
        (refl, w, at_top t (subst (λ i. Q i t) (let z : c ≡ 0 = ground (arith, top) in z) q)),
      )
      | inr below ↦ step below (ground arith) (λ t' le' w' q'.
          sift_up-Risen f ((c - 1) / 4) t' (ground (arith, fuel)) (ground (arith, lt)) le' w' q')
    ]
      where
        p : ℕ
        p = (c - 1) / 4

        step :
            c == 0 ≡ false
            → p < c
            → ((t' : List (Option A))
                → n ≤ length t'
                → IsWritten t' n
                → Q p t'
                → Returns (Risen t') (sift_up cmp f p t' tmp))
            → Returns (Risen t) (sift_up cmp (suc f) c t tmp)
        step below lower rest = elim (Bool-cases (less cmp child.0 parent.0)) [
          | inr stays ↦ (
            t,
            sift_up_stays f c t tmp child.0 parent.0 below at_c at_p stays,
            (
              refl,
              w,
              at_rest c t child.0 parent.0 (ground (arith, below)) lt child.1 parent.1 stays q,
            ),
          )
          | inl rises ↦
              let (t₃, run, (e, w₃, done)) = rest t₂ (omega (arith, le, size)) written_ (
                round c t child.0 parent.0 (ground (arith, below)) lt le child.1 parent.1 rises
                  q) in
              (
                t₃,
                sift_up_rises f c t tmp child.0 parent.0 t₁ t₂ below at_c at_p rises put_c put_p
                    ∙ run,
                (e ∙ size, w₃, done),
              )
        ]
          where
            child : (v : A) × (get_or t c none ≡ some v)
            child = w c lt

            parent : (v : A) × (get_or t p none ≡ some v)
            parent = w p (omega (arith, lower, lt))

            at_c : get t c ≡ ok child.0
            at_c = get-IsWritten t c (omega (arith, lt, le)) child.1

            at_p : get t p ≡ ok parent.0
            at_p = get-IsWritten t p (omega (arith, lower, lt, le)) parent.1

            t₁ : List (Option A)
            t₁ = set t c (some parent.0)

            t₂ : List (Option A)
            t₂ = set t₁ p (some tmp)

            put_c : put_at t c parent.0 ≡ ok t₁
            put_c = put_at-lem t c parent.0 (omega (arith, lt, le))

            size₁ : length t₁ ≡ length t
            size₁ = length-set t c (some parent.0)

            put_p : put_at t₁ p tmp ≡ ok t₂
            put_p = put_at-lem t₁ p tmp (omega (arith, lower, lt, le, size₁))

            size : length t₂ ≡ length t
            size = length-set t₁ p (some tmp) ∙ size₁

            written_ : IsWritten t₂ n
            written_ =
                set-IsWritten t₁ n p tmp (omega (arith, lower, lt, le, size₁))
                  (set-IsWritten t n c parent.0 (omega (arith, lt, le)) w)
