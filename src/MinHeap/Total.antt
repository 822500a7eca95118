-- ===== src/MinHeap/Total.antt =====
-- What the entries of src/kvs_minheap4.c add up to, under any weight: two sequences with the same
-- sums hold the same entries.
use ckv.Base.{
  ◌≢◌, ap, ℕ, zero, suc, ◌+◌, ◌-◌, ◌<◌, ◌≤◌, ◌≡◌, refl, Option, some, none, false, ◌==◌,
  if◌then◌else◌, Bool-cases, inl, inr, arith,
}

module _ {A : Type 0} where
  abbrev pub weight : (A → ℕ) → Option A → ℕ
  weight f none = 0
  weight f (some v) = f v

  unfoldable pub total : (A → ℕ) → (ℕ → Option A) → ℕ → ℕ
  total f e zero = 0
  total f e (suc n) = weight f (e n) + total f e n

  abbrev pub put_in : (ℕ → Option A) → ℕ → A → ℕ → Option A
  put_in e k v j = if k == j then some v else e j

  pub total-beyond :
      (f : A → ℕ) (e : ℕ → Option A) (k : ℕ) (v : A) (n : ℕ)
      → n ≤ k
      → total f (put_in e k v) n ≡ total f e n
  unfolding total
  total-beyond f e k v zero h = refl
  total-beyond f e k v (suc n) h =
      let other : (k == n) ≡ false = ground (arith, h) in
      rw other (ground (arith, total-beyond f e k v n (omega (arith, h))))

  pub total-put_in :
      (f : A → ℕ) (e : ℕ → Option A) (k : ℕ) (v : A) (n : ℕ)
      → k < n
      → total f (put_in e k v) n + weight f (e k) ≡ total f e n + f v
  unfolding total
  total-put_in f e k v zero h = absurd (omega (arith, h))
  total-put_in f e k v (suc n) h = elim (Bool-cases (k == n)) [
    | inl same ↦
        let at : k ≡ n = ground (arith, same) in
        rw same
          (omega (arith, total-beyond f e k v n (omega (arith, at)), ap (λ j. weight f (e j)) at))
    | inr differ ↦ rw differ (ground (arith, total-put_in f e k v n (ground (arith, h, differ))))
  ]

  -- An exchange of two entries.
  pub total-exchange :
      (f : A → ℕ) (e : ℕ → Option A) (p c : ℕ) (at_p at_c : A) (n : ℕ)
      → p ≢ c
      → p < n
      → c < n
      → e c ≡ some at_c
      → e p ≡ some at_p
      → total f (put_in (put_in e c at_p) p at_c) n ≡ total f e n
  total-exchange f e p c at_p at_c n differ in_p inside is_c is_p =
      let under : put_in e c at_p p ≡ some at_p = ground (arith, differ, is_p) in
      omega (
        arith,
        total-put_in f e c at_p n inside,
        ap (weight f) is_c,
        total-put_in f (put_in e c at_p) p at_c n in_p,
        ap (weight f) under,
      )

  -- One entry more.
  pub total-behind :
      (f : A → ℕ) (e : ℕ → Option A) (n : ℕ) (v : A)
      → total f (put_in e n v) (suc n) ≡ f v + total f e n
  unfolding total
  total-behind f e n v = ground (arith, total-beyond f e n v n (omega arith))

  pub total-last :
      (f : A → ℕ) (e : ℕ → Option A) (n : ℕ)
      → 0 < n
      → total f e n ≡ weight f (e (n - 1)) + total f e (n - 1)
  unfolding total
  total-last f e zero h = absurd (omega (arith, h))
  total-last f e (suc n) h = let same : suc n - 1 ≡ n = omega arith in rw same refl
