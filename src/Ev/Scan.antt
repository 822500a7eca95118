-- ===== src/Ev/Scan.antt =====
-- One round of `kvs_ev_select_cycle`: the table of active entries.
use ckv.Run.{at-get_or, at, Returns}
use ckv.Ev.Select.{fd_setsize, FdSet, scan}
use ckv.Ev.{ev_unused, ok, Active, join}
use ckv.Base.{
  ◌∙◌, length-set, get_or, inl, inr, Bool-cases, refl, zero, ltb, true, arith, ◌||◌, ◌+◌, ◌≡◌,
  if◌then◌else◌, suc, ◌≤◌, length, set, ◌∷◌, ◌<◌, [], List, ℕ,
}

-- The descriptors from `i` on, `n` of them, that are in one of the sets.
unfoldable pub ready_from : FdSet → FdSet → ℕ → ℕ → List ℕ
ready_from r w zero i = []
ready_from r w (suc n) i =
    let rest = ready_from r w n (suc i) in if r i || w i then i ∷ rest else rest

-- The entries from `j` on are about the descriptors `fds`, with at least what is ready.
abbrev pub AreListed : FdSet → FdSet → List Active → ℕ → List ℕ → Type 0
AreListed r w active j [] = Unit {0}
AreListed r w active j (fd ∷ fds) =
    ((a : Active) × (at active j ≡ ok a)
      × (a.fd ≡ fd)
      × ((r fd ≡ true → a.mask.read ≡ true) × (w fd ≡ true → a.mask.write ≡ true)))
    × AreListed r w active (suc j) fds

at-set_ne {ℓ} : {A : Type ℓ} (xs : List A) (i j : ℕ) (x : A) → i < j → at (set xs j x) i ≡ at xs i
unfolding at
at-set_ne [] i j x h = refl
at-set_ne (y ∷ xs) i zero x h = absurd (omega arith)
at-set_ne (y ∷ xs) zero (suc j) x h = refl
at-set_ne (y ∷ xs) (suc i) (suc j) x h = at-set_ne xs i j x (omega arith)

at-set_self {ℓ} :
    {A : Type ℓ} (xs : List A) (i : ℕ) (x : A) → i < length xs → at (set xs i x) i ≡ ok x
unfolding at
at-set_self [] i x h = absurd (omega arith)
at-set_self (y ∷ xs) zero x h = refl
at-set_self (y ∷ xs) (suc i) x h = at-set_self xs i x (omega arith)

-- What one call of the loop leaves.
pub record Scanned (r w : FdSet) (n i j : ℕ) (active active' : List Active) : Type 0 where
  pub same : length active' ≡ length active
  pub before : (k : ℕ) → k < j → at active' k ≡ at active k
  pub listed : AreListed r w active' j (ready_from r w n i)

pub scan-Scanned :
    (r w : FdSet) (n i j : ℕ) (active : List Active)
    → j ≤ i
    → i + n ≤ length active
    → i + n ≤ fd_setsize
    → Returns (Scanned r w n i j active) (scan r w n i j active)
unfolding scan ready_from
scan-Scanned r w zero i j active le fits small =
    (active, refl, record { same = refl; before = λ k lt. refl; listed = tt })
scan-Scanned r w (suc n) i j active le fits small = rw inside (elim (Bool-cases (r i || w i)) [
  | inr none_ ↦
      let (active', run, s) =
        scan-Scanned r w n (suc i) j active (omega (arith, le)) (omega (arith, fits))
          (omega (arith, small)) in
      (
        active',
        rw (none_, run),
        record { same = s.same; before = s.before; listed = rw none_ s.listed },
      )
  | inl some_ ↦
      let a = get_or active j (record { fd = 0; mask = ev_unused }) in
      let b : Active = record { fd = i; mask = join a.mask (record { read = r i; write = w i }) } in
      let (active', run, s) =
        scan-Scanned r w n (suc i) (suc j) (set active j b) (omega (arith, le))
          (omega (arith, fits, length-set active j b)) (omega (arith, small)) in
      (
        active',
        rw (
          some_,
          at-get_or active j (record { fd = 0; mask = ev_unused }) (omega (arith, le, fits)),
          run,
        ),
        record {
          same = s.same ∙ length-set active j b;
          before = λ k lt. s.before k (omega (arith, lt)) ∙ at-set_ne active k j b lt;
          listed = rw some_ (
            (
              b,
              s.before j (omega arith) ∙ at-set_self active j b (omega (arith, le, fits)),
              refl,
              (λ on. ground (arith, on), λ on. ground (arith, on)),
            ),
            s.listed,
          );
        },
      )
])
  where
    inside : ltb i fd_setsize ≡ true
    inside = ground (arith, small)
