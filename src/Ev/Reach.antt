-- ===== src/Ev/Reach.antt =====
-- A round of `kvs_ev_cycle` with `select`: what is ready is reported, and its handlers run.
use ckv.Ev.Watch.{mask_at, IsWatching}
use ckv.Base.Int.{ℤ, pos, pos_part, ◌+ℤ◌}
use ckv.Ev.Scan.{scan-Scanned, AreListed, ready_from}
use ckv.Run.{at, Returns}
use ckv.Ev.Select.{Ready, Select, select_cycle, FdSet}
use ckv.Ev.{is_unused, ok, Active, Ev}
use ckv.Base.{
  false, refl, zero, ◌∙◌, ◌==◌, inr, length, inl, true, ◌≡◌, Bool-cases, [], suc, arith, ◌||◌, ◌≤◌,
  ◌<◌, ◌+◌, ◌∷◌, List, ℕ,
}

abbrev pub AllBelow : ℕ → List ℕ → Type 0
AllBelow n [] = Unit {0}
AllBelow n (fd ∷ fds) = (fd < n) × AllBelow n fds

pub ready_from-AllBelow : (r w : FdSet) (n i m : ℕ) → i + n ≤ m → AllBelow m (ready_from r w n i)
unfolding ready_from
ready_from-AllBelow r w zero i m le = tt
ready_from-AllBelow r w (suc n) i m le = elim (Bool-cases (r i || w i)) [
  | inl some_ ↦
      rw some_ (omega (arith, le), ready_from-AllBelow r w n (suc i) m (omega (arith, le)))
  | inr none_ ↦ rw none_ (ready_from-AllBelow r w n (suc i) m (omega (arith, le)))
]

-- An entry about a descriptor: its index, and what is ready is in its mask.
abbrev pub IsReported : FdSet → FdSet → List Active → ℕ → ℕ → Type 0
IsReported r w active m fd =
    (k : ℕ) × (a : Active) × (k < m)
    × (at active k ≡ ok a)
    × (a.fd ≡ fd)
    × ((r fd ≡ true → a.mask.read ≡ true) × (w fd ≡ true → a.mask.write ≡ true))

widen :
    (r w : FdSet) (active : List Active) (m m' fd : ℕ)
    → m ≤ m'
    → IsReported r w active m fd
    → IsReported r w active m' fd
widen r w active m m' fd le (k, a, lt, read_a, fd_a, bits) =
    (k, a, omega (arith, lt, le), read_a, fd_a, bits)

listed_at :
    (r w : FdSet) (active : List Active) (n i j fd : ℕ)
    → AreListed r w active j (ready_from r w n i)
    → i ≤ fd
    → fd < i + n
    → (r fd || w fd) ≡ true
    → IsReported r w active (j + length (ready_from r w n i)) fd
unfolding ready_from
listed_at r w active zero i j fd l le lt on = absurd (omega (arith, le, lt))
listed_at r w active (suc n) i j fd l le lt on = elim (Bool-cases (i == fd)) [
  | inl same ↦
      let eq : i ≡ fd = ground arith in
      let here : (r i || w i) ≡ true = rw eq on in
      let ((a, read_a, fd_a, bits), rest) = rw here at l in
      rw (← eq, here) (j, a, omega arith, read_a, fd_a, bits)
  | inr differ ↦
      let above : suc i ≤ fd = ground (arith, le) in
      elim (Bool-cases (r i || w i)) [
        | inl some_ ↦
            let (entry_, rest) = rw some_ at l in
            rw some_ (
              widen r w active _ (j + suc (length (ready_from r w n (suc i)))) fd (omega arith)
                (listed_at r w active n (suc i) (suc j) fd rest above (omega (arith, lt)) on))
        | inr none_ ↦
            rw none_
              (listed_at r w active n (suc i) j fd (rw none_ at l) above (omega (arith, lt)) on)
      ]
]

module _ {P U : Type 0} where
  -- The number of descriptors that are looked at.
  abbrev pub looked : Ev Select P U → ℕ
  looked e = pos_part (e.maxfd +ℤ pos 1)

  pub looked-le : {e : Ev Select P U} → IsWatching e → looked e ≤ e.size
  unfolding ◌+ℤ◌
  looked-le w = ground (arith, w.inside)

  looked-registered :
      {e : Ev Select P U} (w : IsWatching e) (fd : ℕ)
      → is_unused (mask_at e.cache fd) ≡ false
      → fd < looked e
  unfolding ◌+ℤ◌
  looked-registered w fd on = ground (arith, w.bound fd, on)

  -- What a call of `select` leaves, by what the system answered.
  pub record Waited (e : Ev Select P U) (answer : Ready) (r : ℤ × Ev Select P U) : Type 0 where
    pub result : r.0 ≡ answer.result
    pub sound : IsWatching r.1
    pub size : r.1.size ≡ e.size
    pub listed :
        AreListed answer.read answer.write r.1.active 0
          (ready_from answer.read answer.write (looked e) 0)
    pub reported :
        (fd : ℕ)
        → (answer.read fd || answer.write fd) ≡ true
        → IsReported answer.read answer.write r.1.active
            (length (ready_from answer.read answer.write (looked e) 0))
            fd

  -- While `select` watches what is registered, and the system answers with descriptors that are
  -- registered, `kvs_ev_select_cycle` returns without a fault what `select` returned: every ready
  -- descriptor has an entry among the first ones, as many as there are ready descriptors, with at
  -- least what is ready in its mask, and `select` goes on watching what is registered.
  pub select_cycle-Waited :
      {e : Ev Select P U} (w : IsWatching e) (answer : Ready)
      → ((fd : ℕ)
          → (answer.read fd || answer.write fd) ≡ true
          → is_unused (mask_at e.cache fd) ≡ false)
      → Returns (Waited e answer) (select_cycle e answer)
  unfolding select_cycle
  select_cycle-Waited {e} w answer asked =
      let le = looked-le w in
      let (active, run, s) =
        scan-Scanned answer.read answer.write (looked e) 0 0 e.active (omega arith)
          (omega (arith, le, w.places)) (omega (arith, le, w.fits)) in
      (
        (answer.result, record e { active = active }),
        rw (w.here, run),
        record {
          result = refl;
          sound = record {
            width = w.width;
            places = s.same ∙ w.places;
            fits = w.fits;
            sets = w.sets;
            here = w.here;
            reads = w.reads;
            writes = w.writes;
            bound = w.bound;
            inside = w.inside;
          };
          size = refl;
          listed = s.listed;
          reported = λ fd on. widen answer.read answer.write active _ _ fd (omega arith) (
              listed_at answer.read answer.write active (looked e) 0 0 fd s.listed (omega arith)
                (omega (arith, looked-registered w fd (asked fd on))) on);
        },
      )
