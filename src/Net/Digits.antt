-- ===== src/Net/Digits.antt =====
-- Numbers in base 10, as `%d` prints them and `strtoul` reads them.
use ckv.Net.Cells.{AreDigits}
use ckv.Str.{written}
use ckv.Base.{
  inr, ap, inl, true, Bool-cases, ◌<◌, ◌≤◌, ◌+◌, ◌*◌, ◌/◌, ◌%◌, ◌-◌, ◌∷◌, ◌≡◌, ◌++◌, zero, suc, [],
  none, some, ℕ, List, Option, ltb, leb, arith, if◌then◌else◌,
}

-- The digits of `n`, with more rounds than there are digits.
unfoldable pub digits : ℕ → ℕ → List ℕ → List ℕ
digits zero n rest = rest
digits (suc rounds) n rest =
    let more = digits rounds (n / 10) ((48 + n % 10) ∷ rest) in
    if ltb n 10 then (48 + n % 10) ∷ rest else more

unfoldable pub decimal : ℕ → List ℕ
unfolding digits
decimal n = digits (suc n) n []

-- The number that the digits at the start of `p` stand for, after `seen`.
unfoldable pub number_from : ℕ → List (Option ℕ) → ℕ
number_from seen [] = seen
number_from seen (none ∷ p) = seen
number_from seen (some b ∷ p) =
    let rest = number_from (seen * 10 + (b - 48)) p in
    if leb 48 b then (if leb b 57 then rest else seen) else seen

unfoldable pub strtoul : List (Option ℕ) → ℕ
unfolding number_from
strtoul p = number_from 0 p

digits-AreDigits :
    (rounds n : ℕ) (rest : List ℕ) → AreDigits rest → AreDigits (digits rounds n rest)
unfolding digits
digits-AreDigits zero n rest h = h
digits-AreDigits (suc rounds) n rest h = elim (Bool-cases (ltb n 10)) [
  | inl e ↦ rw e (omega arith, omega arith, h)
  | inr e ↦
      rw e (digits-AreDigits rounds (n / 10) ((48 + n % 10) ∷ rest) (omega arith, omega arith, h))
]

pub decimal-AreDigits : (n : ℕ) → AreDigits (decimal n)
unfolding decimal
decimal-AreDigits n = digits-AreDigits (suc n) n [] (omega arith)

number_from-digit :
    (seen d : ℕ) (p : List (Option ℕ))
    → d < 10
    → number_from seen (some (48 + d) ∷ p) ≡ number_from (seen * 10 + d) p
unfolding number_from
number_from-digit seen d p h = rw (lo, hi, same)
  where
    lo : leb 48 (48 + d) ≡ true
    lo = ground arith

    hi : leb (48 + d) 57 ≡ true
    hi = ground (arith, h)

    same : 48 + d - 48 ≡ d
    same = omega arith

number_from-digits :
    (rounds n : ℕ) (rest : List ℕ) (p : List (Option ℕ))
    → n < rounds
    → number_from 0 (written (digits rounds n rest) ++ p) ≡ number_from n (written rest ++ p)
unfolding digits written
number_from-digits zero n rest p h = absurd (omega arith)
number_from-digits (suc rounds) n rest p h = elim (Bool-cases (ltb n 10)) [
  | inl e ↦
      let small : n < 10 = ground (arith, e) in
      rw (e, number_from-digit 0 (n % 10) (written rest ++ p) (omega arith))
        (ap (λ k. number_from k (written rest ++ p)) (omega (arith, small)))
  | inr e ↦
      let big : 10 ≤ n = ground (arith, e) in
      rw
        (
          e,
          number_from-digits rounds (n / 10) ((48 + n % 10) ∷ rest) p (omega (arith, big)),
          number_from-digit (n / 10) (n % 10) (written rest ++ p) (omega arith),
        )
        (ap (λ k. number_from k (written rest ++ p)) (omega arith))
]

pub strtoul-decimal :
    (n : ℕ) (rest : List (Option ℕ)) → strtoul (written (decimal n) ++ some 13 ∷ rest) ≡ n
unfolding strtoul decimal number_from written
strtoul-decimal n rest = number_from-digits (suc n) n [] (some 13 ∷ rest) (omega arith)
