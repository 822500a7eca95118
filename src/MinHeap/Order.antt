-- ===== src/MinHeap/Order.antt =====
-- The order of the entries of src/kvs_minheap4.c, by their indices.
use mathlib.Core.Path.{subst}
use mathlib.Core.Option.{some-injective}
use ckv.Base.Int.{ℤ}
use ckv.MinHeap.{less}
use ckv.Base.{
  ℕ, ◌-◌, ◌/◌, ◌<◌, ◌≡◌, ◌≢◌, sym, ◌∙◌, Option, some, true, false, ◌==◌, if◌then◌else◌, Bool-cases,
  inl, inr, arith,
}

-- What is asked of the function of the user: by its negative answers it is a total preorder.
pub record IsComparison {A : Type 0} (cmp : A → A → ℤ) : Type 0 where
  pub asym : (x y : A) → less cmp x y ≡ true → less cmp y x ≡ false
  pub after : (x y z : A) → less cmp x y ≡ false → less cmp y z ≡ false → less cmp x z ≡ false

-- `KVS_MINHEAP_PARENT(i)`
abbrev pub parent_of : ℕ → ℕ
parent_of i = (i - 1) / 4

module _ {A : Type 0} (cmp : A → A → ℤ) where
  -- The entry at `i` is not less than the one at `j`.
  abbrev pub InOrder : (ℕ → Option A) → ℕ → ℕ → Type 0
  InOrder e i j = (x y : A) → e i ≡ some x → e j ≡ some y → less cmp x y ≡ false

  -- None of the first `n` entries is less than the one above it.
  abbrev pub IsOrdered : (ℕ → Option A) → ℕ → Type 0
  IsOrdered e n = (i : ℕ) → 0 < i → i < n → InOrder e i (parent_of i)

  -- None but the entry at `c`, and those below `c` are not less than the one above `c` either.
  pub record RisesFrom (e : ℕ → Option A) (n c : ℕ) : Type 0 where
    pub others : (i : ℕ) → 0 < i → i < n → i ≢ c → InOrder e i (parent_of i)
    pub over : (i : ℕ) → 0 < i → i < n → parent_of i ≡ c → 0 < c → InOrder e i (parent_of c)

  -- The entries after an exchange of those at `p` and `c`.
  abbrev pub exchanged : (ℕ → Option A) → (p c : ℕ) → (at_p at_c : A) → ℕ → Option A
  exchanged e p c at_p at_c j = if p == j then some at_p else if c == j then some at_c else e j

  pub IsOrdered-top : (e : ℕ → Option A) (n : ℕ) → RisesFrom e n 0 → IsOrdered e n
  IsOrdered-top e n r i lo lt = r.others i lo lt (λ z. absurd (omega (arith, z, lo)))

  -- The loop stops.
  pub IsOrdered-stop :
      (e : ℕ → Option A) (n c : ℕ) → RisesFrom e n c → InOrder e c (parent_of c) → IsOrdered e n
  IsOrdered-stop e n c r here i lo lt = elim (Bool-cases (i == c)) [
    | inl same ↦
        let at : i ≡ c = ground (arith, same) in
        subst (λ k. InOrder e k (parent_of k)) (sym at) here
    | inr differ ↦ r.others i lo lt (ground (arith, differ))
  ]

  -- A round of the loop.
  module _ (k : IsComparison cmp) (e : ℕ → Option A) (n c : ℕ) (tmp parent : A)
      (r : RisesFrom e n c) (lo : 0 < c) (lt : c < n) (at_c : e c ≡ some tmp)
      (at_p : e (parent_of c) ≡ some parent) (rises : less cmp tmp parent ≡ true) where
    raised : ℕ → Option A
    raised = exchanged e (parent_of c) c tmp parent

    lower : parent_of c < c
    lower = omega (arith, lo)

    back : less cmp parent tmp ≡ false
    back = k.asym tmp parent rises

    at_p' : raised (parent_of c) ≡ some tmp
    unfolding raised
    at_p' = ground arith

    at_c' : raised c ≡ some parent
    unfolding raised
    at_c' = ground (arith, lower)

    elsewhere : (j : ℕ) → j ≢ c → j ≢ parent_of c → raised j ≡ e j
    unfolding raised
    elsewhere j not_c not_p = ground (arith, not_c, not_p)

    -- A child of `parent_of c` other than `c`.
    sibling :
        (i : ℕ)
        → 0 < i
        → i < n
        → i ≢ c
        → parent_of i ≡ parent_of c
        → (x : A) → e i ≡ some x
        → less cmp x parent ≡ false
    sibling i lo_i lt_i other same x at =
        r.others i lo_i lt_i other x parent at (subst (λ q. e q ≡ some parent) (sym same) at_p)

    others' : (i : ℕ) → 0 < i → i < n → i ≢ parent_of c → InOrder raised i (parent_of i)
    others' i lo_i lt_i not_p x y at_x at_y = elim (Bool-cases (i == c)) [
      | inl same ↦
          let at : i ≡ c = ground (arith, same) in
          let ex = some-injective parent x (sym at_c' ∙ subst (λ q. raised q ≡ some x) at at_x) in
          let ey =
            some-injective tmp y (sym at_p' ∙ subst (λ q. raised (parent_of q) ≡ some y) at at_y) in
          subst (λ z. less cmp z y ≡ false) ex (subst (λ z. less cmp parent z ≡ false) ey back)
      | inr differ ↦
          let other : i ≢ c = ground (arith, differ) in
          let old = sym (elsewhere i other not_p) ∙ at_x in
          elim (Bool-cases (parent_of i == parent_of c)) [
            | inl sib ↦
                let at : parent_of i ≡ parent_of c = ground (arith, sib) in
                let ey =
                  some-injective tmp y (sym at_p' ∙ subst (λ q. raised q ≡ some y) at at_y) in
                subst (λ z. less cmp x z ≡ false) ey
                  (k.after x parent tmp (sibling i lo_i lt_i other at x old) back)
            | inr far ↦ elim (Bool-cases (parent_of i == c)) [
              | inl child ↦
                  let at : parent_of i ≡ c = ground (arith, child) in
                  let ey =
                    some-injective parent y (sym at_c' ∙ subst (λ q. raised q ≡ some y) at at_y) in
                  subst (λ z. less cmp x z ≡ false) ey (r.over i lo_i lt_i at lo x parent old at_p)
              | inr away ↦ r.others i lo_i lt_i other x y old (
                  sym (elsewhere (parent_of i) (ground (arith, away)) (ground (arith, far))) ∙ at_y)
            ]
          ]
    ]

    over' :
        (i : ℕ)
        → 0 < i
        → i < n
        → parent_of i ≡ parent_of c
        → 0 < parent_of c
        → InOrder raised i (parent_of (parent_of c))
    over' i lo_i lt_i same lo_p x y at_x at_y =
        let old_y =
          sym (elsewhere (parent_of (parent_of c)) (omega arith) (omega (arith, lo_p))) ∙ at_y in
        let above =
          r.others (parent_of c) lo_p (omega (arith, lower, lt)) (omega (arith, lower)) parent y
            at_p old_y in
        elim (Bool-cases (i == c)) [
          | inl is_c ↦
              let at : i ≡ c = ground (arith, is_c) in
              let ex =
                some-injective parent x (sym at_c' ∙ subst (λ q. raised q ≡ some x) at at_x) in
              subst (λ z. less cmp z y ≡ false) ex above
          | inr differ ↦
              let other : i ≢ c = ground (arith, differ) in
              let old = sym (elsewhere i other (omega (arith, same, lo_i))) ∙ at_x in
              k.after x parent y (sibling i lo_i lt_i other same x old) above
        ]

    pub RisesFrom-exchanged : RisesFrom (exchanged e (parent_of c) c tmp parent) n (parent_of c)
    unfolding raised
    RisesFrom-exchanged = record { others = others'; over = over' }
