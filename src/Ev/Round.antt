-- ===== src/Ev/Round.antt =====
-- `kvs_ev_cycle` with `select`: the handlers of a round.
use ckv.Ev.Scan.{AreListed, ready_from}
use ckv.Ev.Reach.{looked-le, ready_from-AllBelow, select_cycle-Waited, looked, AllBelow}
use ckv.Base.Int.{pos_part}
use ckv.Ev.Watch.{mask_at, at-mask_at, IsWatching}
use ckv.Run.{Run, Returns}
use ckv.Ev.Select.{select, Ready, FdSet, Select}
use ckv.Ev.{is_unused, meet, Active, ok, cycle_once, dispatch_all, dispatch, Mask, Ev}
use ckv.Base.{
  ◌==◌, [], zero, ◌∷◌, suc, ◌∙◌, arith, refl, length, false, ◌≤◌, true, ◌||◌, List, ◌<◌,
  if◌then◌else◌, ◌≡◌, Bool, ℕ,
}

-- A handler returns, and keeps what the loop relies on: the sets, the size and the active entries.
abbrev pub Keeps : {P U : Type 0} → Ev Select P U → Ev Select P U → Type 0
Keeps e e' = IsWatching e' × (e'.size ≡ e.size) × (e'.active ≡ e.active)

module _ {P U : Type 0} (memory : Bool)
    (call : P → Ev Select P U → ℕ → Mask → U → Run (Ev Select P U))
    (handles : (p : P) (e : Ev Select P U) (fd : ℕ) (mask : Mask) (u : U)
      → IsWatching e
      → Returns (Keeps e) (call p e fd mask u)) where
  -- A handler that is called or not.
  maybe :
      (x : Bool) (p : P) (e : Ev Select P U) (fd : ℕ) (mask : Mask) (u : U)
      → IsWatching e
      → Returns (Keeps e) (if x then call p e fd mask u else ok e)
  maybe true p e fd mask u w = handles p e fd mask u w
  maybe false p e fd mask u w = (e, refl, (w, refl, refl))

  dispatch-Keeps :
      {e : Ev Select P U} (a : Active)
      → IsWatching e
      → a.fd < e.size
      → Returns (Keeps e) (dispatch (select memory) call e a)
  unfolding dispatch
  dispatch-Keeps {e} a w lt =
      let (c, run, at_c) = at-mask_at e.cache a.fd (omega (arith, w.width, lt)) in
      let (e₁, run₁, (w₁, size₁, active₁)) =
        maybe (meet c.mask a.mask).read c.read_proc e a.fd a.mask c.user_data w in
      let (c₂, run₂, at_c₂) = at-mask_at e₁.cache a.fd (omega (arith, w₁.width, size₁, lt)) in
      let (e₃, run₃, (w₃, size₃, active₃)) =
        maybe (meet c₂.mask a.mask).write c₂.write_proc e₁ a.fd a.mask c₂.user_data w₁ in
      let same : e₁.size == e.size ≡ true = ground (arith, size₁) in
      (e₃, rw (run, run₁, same, run₂, run₃), (w₃, size₃ ∙ size₁, active₃ ∙ active₁))

  dispatch_all-Keeps :
      (r w : FdSet) (fds : List ℕ) (n j : ℕ) {e : Ev Select P U}
      → IsWatching e
      → n ≤ length fds
      → AllBelow e.size fds
      → AreListed r w e.active j fds
      → Returns (Keeps e) (dispatch_all (select memory) call n j e)
  unfolding dispatch_all
  dispatch_all-Keeps r w fds zero j {e} s le below listed = (e, refl, (s, refl, refl))
  dispatch_all-Keeps r w [] (suc n) j s le below listed = absurd (omega (arith, le))
  dispatch_all-Keeps r w (fd ∷ fds) (suc n) j {e} s le (lt, below)
        ((a, read_a, fd_a, bits), listed) =
      let (e₁, run₁, (s₁, size₁, active₁)) = dispatch-Keeps a s (rw fd_a lt) in
      let (e₂, run₂, (s₂, size₂, active₂)) =
        dispatch_all-Keeps r w fds n (suc j) {e = e₁} s₁ (omega (arith, le)) (rw size₁ below)
          (rw active₁ listed) in
      (e₂, rw (read_a, run₁, run₂), (s₂, size₂ ∙ size₁, active₂ ∙ active₁))

  -- One round of `kvs_ev_cycle`, for handlers that keep what the loop relies on.
  pub cycle_once-Keeps :
      {e : Ev Select P U} (w : IsWatching e) (answer : Ready)
      → ((fd : ℕ)
          → (answer.read fd || answer.write fd) ≡ true
          → is_unused (mask_at e.cache fd) ≡ false)
      → pos_part answer.result ≤ length (ready_from answer.read answer.write (looked e) 0)
      → Returns
          (λ e'. IsWatching e' × (e'.size ≡ e.size))
          (cycle_once (select memory) call e answer)
  unfolding cycle_once
  cycle_once-Keeps {e} w answer asked few =
      let ((n, e₁), run, waited) = select_cycle-Waited w answer asked in
      let (e₂, run₂, (w₂, size₂, active₂)) =
        dispatch_all-Keeps answer.read answer.write
          (ready_from answer.read answer.write (looked e) 0) (pos_part n) 0 waited.sound
          (rw waited.result few)
          (ready_from-AllBelow answer.read answer.write (looked e) 0 e₁.size
            (omega (arith, looked-le w, waited.size)))
          waited.listed in
      (e₂, rw (run, run₂), (w₂, size₂ ∙ waited.size))
