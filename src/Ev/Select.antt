-- ===== src/Ev/Select.antt =====
-- src/kvs_ev_select.c: the event loop's interface by `select`.
use ckv.Ev.{join, Vtable, Active, Ev, Mask}
use ckv.Run.{◌>>=◌, ok, fault, at, Run}
use ckv.Base.Int.{ℤ, pos, pos_part, ◌+ℤ◌}
use ckv.Base.{
  zero, set, ◌||◌, ◌==◌, suc, true, false, ltb, Option, if◌then◌else◌, List, Bool, ℕ, none, some,
}

-- An `fd_set`
abbrev pub FdSet : Type 0
FdSet = ℕ → Bool

-- `FD_SETSIZE`; FD_SET and FD_CLR beyond it write outside the set.
abbrev pub fd_setsize : ℕ
fd_setsize = 1024

abbrev pub fd_put : FdSet → ℕ → Bool → Run FdSet
fd_put s fd x = if ltb fd fd_setsize then ok (λ i. if fd == i then x else s i) else fault

-- `kvs_ev_select_t` without the copies that the system call works on
pub record Select : Type 0 where
  pub r : FdSet
  pub w : FdSet

-- What a call of `select` returns and leaves in the sets.
pub record Ready : Type 0 where
  pub result : ℤ
  pub read : FdSet
  pub write : FdSet

-- `kvs_ev_select_new`
unfoldable pub select_new : Bool → ℕ → Option Select
select_new false size = none
select_new true size = some (record { r = λ i. false; w = λ i. false })

-- FD_SET and FD_CLR on the sets that a mask names.
unfoldable pub put_mask : Select → ℕ → Mask → Bool → Run Select
put_mask s fd mask x = (if mask.read then fd_put s.r fd x else ok s.r) >>= λ r.
    (if mask.write then fd_put s.w fd x else ok s.w) >>= λ w. ok (record { r = r; w = w })

-- FD_ISSET
abbrev pub fd_isset : FdSet → ℕ → Run Bool
fd_isset s fd = if ltb fd fd_setsize then ok (s fd) else fault

-- The loop of `kvs_ev_select_cycle`, with `n` descriptors left.
unfoldable pub scan : FdSet → FdSet → ℕ → ℕ → ℕ → List Active → Run (List Active)
scan read write zero i j active = ok active
scan read write (suc n) i j active = do
  r ← fd_isset read i
  w ← fd_isset write i
  if r || w
      then (at active j >>= λ a.
          scan read write n (suc i) (suc j)
            (set active j (record { fd = i; mask = join a.mask (record { read = r; write = w }) })))
      else scan read write n (suc i) j active

module _ {P U : Type 0} where
  -- `kvs_ev_select_resize`; the bound is `sizeof(fd_set)`, in bytes.
  unfoldable pub select_resize : Ev Select P U → ℕ → Run (Option (Option Select))
  select_resize e size = if ltb 128 size then ok none else ok (some e.ev)

  -- `kvs_ev_select_add` and `kvs_ev_select_del`
  unfoldable pub select_put : Bool → Ev Select P U → ℕ → Mask → Run (Option (Option Select))
  unfolding put_mask
  select_put x e fd mask = elim e.ev [
    | none ↦ fault
    | some s ↦ put_mask s fd mask x >>= λ s. ok (some (some s))
  ]

  -- `kvs_ev_select_cycle`
  unfoldable pub select_cycle : Ev Select P U → Ready → Run (ℤ × Ev Select P U)
  unfolding scan
  select_cycle e w = elim e.ev [
    | none ↦ fault
    | some s ↦ scan w.read w.write (pos_part (e.maxfd +ℤ pos 1)) 0 0 e.active >>= λ active.
        ok (w.result, record e { active = active })
  ]

  -- `kvs_ev_select`
  abbrev pub select : Bool → Vtable Select Ready P U
  select memory = record {
    ev_new = select_new memory;
    ev_add = select_put true;
    ev_del = select_put false;
    ev_resize = select_resize;
    ev_cycle = select_cycle;
  }
