-- ===== src/MinHeap/Sink.antt =====
-- The order of the entries of src/kvs_minheap4.c while one of them sinks.
use mathlib.Core.Path.{subst}
use mathlib.Core.Option.{some-injective}
use ckv.Base.Int.{ℤ}
use ckv.MinHeap.{less}
use ckv.MinHeap.Order.{IsComparison, IsOrdered, InOrder, parent_of}
use ckv.MinHeap.Least.{IsLeast, not_less_self}
use ckv.MinHeap.Total.{put_in}
use ckv.Base.{
  ap, ℕ, zero, suc, ◌+◌, ◌*◌, ◌<◌, ◌≤◌, ◌≡◌, ◌≢◌, sym, ◌∙◌, Option, some, true, false, ◌==◌,
  Bool-cases, inl, inr, arith,
}

module _ {A : Type 0} (cmp : A → A → ℤ) where
  -- None of the first `n` entries is less than the one above it, but those below `p`, which are not
  -- less than the one above `p` either.
  pub record SinksFrom (e : ℕ → Option A) (n p : ℕ) : Type 0 where
    pub others : (i : ℕ) → 0 < i → i < n → parent_of i ≢ p → InOrder cmp e i (parent_of i)
    pub under : (i : ℕ) → 0 < i → i < n → parent_of i ≡ p → 0 < p → InOrder cmp e i (parent_of p)

  -- The loop stops: no entry below `p` is less than the one at `p`.
  pub IsOrdered-rest :
      (e : ℕ → Option A) (n p : ℕ)
      → SinksFrom e n p
      → ((i : ℕ) → 0 < i → i < n → parent_of i ≡ p → InOrder cmp e i p)
      → IsOrdered cmp e n
  IsOrdered-rest e n p s here i lo lt = elim (Bool-cases (parent_of i == p)) [
    | inl same ↦
        let at : parent_of i ≡ p = ground (arith, same) in
        subst (λ q. InOrder cmp e i q) (sym at) (here i lo lt at)
    | inr differ ↦ s.others i lo lt (ground (arith, differ))
  ]

  -- The entry at the top is the least.
  pub IsOrdered-least :
      (k : IsComparison cmp) (e : ℕ → Option A) (n : ℕ) (v : A)
      → ((i : ℕ) → i < n → (x : A) × (e i ≡ some x))
      → IsOrdered cmp e n
      → e 0 ≡ some v
      → (f i : ℕ) → i ≤ f
      → i < n
      → (x : A) → e i ≡ some x
      → less cmp x v ≡ false
  IsOrdered-least k e n v w o top f zero h lt x is_x =
      subst (λ z. less cmp z v ≡ false) (some-injective v x (sym top ∙ is_x))
        (not_less_self cmp k v)
  IsOrdered-least k e n v w o top zero (suc i) h lt x is_x = absurd (omega (arith, h))
  IsOrdered-least k e n v w o top (suc f) (suc i) h lt x is_x =
      let above = w (parent_of (suc i)) (omega (arith, lt)) in
      k.after x above.0 v (o (suc i) (omega arith) lt x above.0 is_x above.1) (
        IsOrdered-least k e n v w o top f (parent_of (suc i)) (omega (arith, h)) (omega (arith, lt))
          above.0 above.1)

  -- A round of the loop.
  module _ (k : IsComparison cmp) (e : ℕ → Option A) (n p c : ℕ) (tmp min : A) (s : SinksFrom e n p)
      (at_p : e p ≡ some tmp) (l : IsLeast cmp k e n (4 * p + 1) 4 (c, min))
      (sinks : less cmp min tmp ≡ true) where
    sunk : ℕ → Option A
    sunk = put_in (put_in e p min) c tmp

    lower : p < c
    lower = omega (arith, l.low)

    child : parent_of c ≡ p
    child = omega (arith, l.low, l.high)

    at_c' : sunk c ≡ some tmp
    unfolding sunk
    at_c' = ground arith

    at_p' : sunk p ≡ some min
    unfolding sunk
    at_p' = ground (arith, lower)

    elsewhere : (j : ℕ) → j ≢ c → j ≢ p → sunk j ≡ e j
    unfolding sunk
    elsewhere j not_c not_p = ground (arith, not_c, not_p)

    others' : (i : ℕ) → 0 < i → i < n → parent_of i ≢ c → InOrder cmp sunk i (parent_of i)
    others' i lo lt not_c x y is_x is_y = elim (Bool-cases (i == c)) [
      | inl same ↦
          let at : i ≡ c = ground (arith, same) in
          let ex = some-injective tmp x (sym at_c' ∙ subst (λ q. sunk q ≡ some x) at is_x) in
          let up : parent_of i ≡ p = ap parent_of at ∙ child in
          let ey = some-injective min y (sym at_p' ∙ subst (λ q. sunk q ≡ some y) up is_y) in
          subst (λ z. less cmp z y ≡ false) ex
            (subst (λ z. less cmp tmp z ≡ false) ey (k.asym min tmp sinks))
      | inr differ ↦ elim (Bool-cases (i == p)) [
        | inl here ↦
            let at : i ≡ p = ground (arith, here) in
            let ex = some-injective min x (sym at_p' ∙ subst (λ q. sunk q ≡ some x) at is_x) in
            let old =
              sym (elsewhere (parent_of p) (omega (arith, lower)) (omega (arith, lo, at)))
              ∙ subst (λ q. sunk (parent_of q) ≡ some y) at is_y in
            subst (λ z. less cmp z y ≡ false) ex
              (s.under c (omega (arith, lower)) l.inside child (omega (arith, lo, at)) min y l.here
                old)
        | inr away ↦
            let old = sym (elsewhere i (ground (arith, differ)) (ground (arith, away))) ∙ is_x in
            elim (Bool-cases (parent_of i == p)) [
              | inl sib ↦
                  let at : parent_of i ≡ p = ground (arith, sib) in
                  let ey =
                    some-injective min y (sym at_p' ∙ subst (λ q. sunk q ≡ some y) at is_y) in
                  subst (λ z. less cmp x z ≡ false) ey
                    (l.least i (omega (arith, at, lo)) (omega (arith, at, lo)) lt x old)
              | inr far ↦
                  let not_p : parent_of i ≢ p = ground (arith, far) in
                  s.others i lo lt not_p x y old (sym (elsewhere (parent_of i) not_c not_p) ∙ is_y)
            ]
      ]
    ]

    under' : (i : ℕ) → 0 < i → i < n → parent_of i ≡ c → 0 < c → InOrder cmp sunk i (parent_of c)
    under' i lo lt up _ x y is_x is_y =
        let old = sym (elsewhere i (omega (arith, up, lo)) (omega (arith, up, lo, lower))) ∙ is_x in
        let ey = some-injective min y (sym at_p' ∙ subst (λ q. sunk q ≡ some y) child is_y) in
        subst (λ z. less cmp x z ≡ false) ey
          (s.others i lo lt (λ q. absurd (omega (arith, q, up, lower))) x min old
            (subst (λ q. e q ≡ some min) (sym up) l.here))

    pub SinksFrom-exchanged : SinksFrom (put_in (put_in e p min) c tmp) n c
    unfolding sunk
    SinksFrom-exchanged = record { others = others'; under = under' }
