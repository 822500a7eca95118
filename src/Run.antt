-- ===== src/Run.antt =====
-- How a piece of C code ends in the model: with a value, with a memory fault (a null, freed or
-- out-of-range access, or a call of a null function pointer), or with a loop out of fuel.
use mathlib.Core.Path.{subst}
use ckv.Base.{ℕ, zero, suc, ◌<◌, ◌≡◌, refl, List, [], ◌∷◌, arith, get_or, length}

pub data Run {ℓ} (A : Type ℓ) : Type ℓ where
  ok : A → Run A
  fault out_of_fuel : Run A

infixl 5 ◌>>=◌
abbrev pub ◌>>=◌ {ℓ κ} : {A : Type ℓ} {B : Type κ} → Run A → (A → Run B) → Run B
ok a >>= f = f a
fault >>= f = fault
out_of_fuel >>= f = out_of_fuel

-- The run ends with a value that satisfies `P`.
abbrev pub Returns {ℓ κ} : {A : Type ℓ} → (A → Type κ) → Run A → Type (ℓ ⊔ κ)
Returns {A} P r = (a : A) × (r ≡ ok a) × P a

-- A run that is known up to some point, and what follows it.
pub bind-ok {ℓ κ τ} :
    {A : Type ℓ} {B : Type κ} {C : Type τ} (r : Run A) (f : A → Run B) (g : B → Run C) {b : B}
    → (r >>= f) ≡ ok b
    → (r >>= λ a. f a >>= g) ≡ g b
bind-ok (ok a) f g e = rw e
bind-ok fault f g e = cc
bind-ok out_of_fuel f g e = cc

pub ok-then {ℓ κ} :
    {A : Type ℓ} {B : Type κ} (r : Run A) (a : A) (f : A → Run B) → r ≡ ok a → (r >>= f) ≡ f a
ok-then r a f e = rw e refl

-- `a[k]`
unfoldable pub at {ℓ} : {A : Type ℓ} → List A → ℕ → Run A
at (a ∷ rest) zero = ok a
at (a ∷ rest) (suc k) = at rest k
at [] k = fault

pub at-get_or {ℓ} :
    {A : Type ℓ} (cells : List A) (k : ℕ) (other : A)
    → k < length cells
    → at cells k ≡ ok (get_or cells k other)
unfolding at get_or
at-get_or (a ∷ rest) zero other inside = refl
at-get_or (a ∷ rest) (suc k) other inside = at-get_or rest k other (omega arith)
at-get_or [] k other inside = absurd (omega arith)

-- Two facts on the value that a run ends with.
pub Returns-both {ℓ κ τ} :
    {A : Type ℓ} {P : A → Type κ} {Q : A → Type τ} (r : Run A)
    → Returns P r
    → Returns Q r
    → Returns (λ a. P a × Q a) r
Returns-both {Q} r (a, run, p) (b, run', q) = let same : b ≡ a = cc in (a, run, (p, subst Q same q))
