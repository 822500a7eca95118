-- ===== src/Net/Cells.antt =====
-- The cells of a buffer, as `kvs_net_parse` reads them.
use mathlib.Core.List.{append_assoc}
use ckv.Str.Text.{written-append}
use ckv.Str.{written}
use ckv.Net.{byte_at, pos, to_int, ok, bytes_of, find_cr}
use ckv.Run.{at}
use ckv.Base.{
  ltb, true, ◌%◌, sym, false, ◌∙◌, refl, zero, ◌==◌, arith, suc, ap, ◌^◌, ◌≡◌, ◌<◌, ◌≤◌, ◌++◌,
  Option, ◌+◌, [], length, ◌∷◌, drop, List, ℕ, some,
}

abbrev pub AreDigits : List ℕ → Type 0
AreDigits [] = Unit {0}
AreDigits (d ∷ ds) = (48 ≤ d) × (d ≤ 57) × AreDigits ds

drop-nil {ℓ} : {A : Type ℓ} (n : ℕ) → drop {A = A} n [] ≡ []
drop-nil zero = refl
drop-nil (suc n) = refl

pub drop_add {ℓ} : {A : Type ℓ} (m n : ℕ) (xs : List A) → drop (m + n) xs ≡ drop n (drop m xs)
drop_add zero n xs = ap (λ k. drop k xs) (omega arith)
drop_add (suc m) n [] = drop-nil (suc m + n) ∙ sym (drop-nil n)
drop_add (suc m) n (x ∷ xs) =
    let e : suc m + n ≡ suc (m + n) = omega arith in ap (λ k. drop k (x ∷ xs)) e ∙ drop_add m n xs

pub written-split :
    (s t : List ℕ) (slack : List (Option ℕ))
    → written (s ++ t) ++ slack ≡ written s ++ (written t ++ slack)
written-split s t slack =
    ap (λ x. x ++ slack) (written-append s t) ∙ append_assoc (written s) (written t) slack

pub find_cr-digits :
    (ds : List ℕ) (rest : List (Option ℕ))
    → AreDigits ds
    → find_cr (written ds ++ some 13 ∷ rest) ≡ ok (some (length ds))
unfolding find_cr written
find_cr-digits [] rest h = refl
find_cr-digits (d ∷ ds) rest (lo, hi, h) =
    let no_cr : d == 13 ≡ false = ground (arith, lo) in
    let no_nul : d == 0 ≡ false = ground (arith, lo) in rw (find_cr-digits ds rest h, no_cr, no_nul)

pub byte_at-zero : (b : ℕ) (rest : List (Option ℕ)) → byte_at (some b ∷ rest) 0 ≡ ok b
unfolding byte_at at
byte_at-zero b rest = refl

pub at-beyond :
    (s : List ℕ) (rest : List (Option ℕ)) (k : ℕ)
    → at (written s ++ rest) (length s + k) ≡ at rest k
unfolding at written
at-beyond [] rest k = ap (at rest) (omega arith)
at-beyond (c ∷ s) rest k =
    let e : suc (length s) + k ≡ suc (length s + k) = omega arith in rw e (at-beyond s rest k)

pub bytes_of-written :
    (a : List ℕ) (rest : List (Option ℕ)) → bytes_of (length a) (written a ++ rest) ≡ ok a
unfolding bytes_of written
bytes_of-written [] rest = refl
bytes_of-written (b ∷ a) rest = rw (bytes_of-written a rest)

pub to_int-pos : (n : ℕ) → n < 2 ^ 31 → to_int n ≡ pos n
unfolding to_int
to_int-pos n h =
    let same : n % 2 ^ 32 ≡ n = omega (arith, h) in
    let low : ltb n (2 ^ 31) ≡ true = ground (arith, h) in rw (same, low)
