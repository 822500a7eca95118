-- ===== src/Ev/Epoll.antt =====
-- src/kvs_ev_epoll.c: the event loop's interface by `epoll`. The system's state has the type `K`,
-- and `epoll_ctl` changes it or fails.
use ckv.Base.Int.{pos_part, ℤ}
use ckv.Run.{at, Run, ◌>>=◌}
use ckv.Ev.{without, is_unused, ok, fault, Vtable, Ev, Active, Mask, join}
use ckv.Base.{zero, set, suc, not, if◌then◌else◌, List, Option, Bool, ℕ, none, some}

-- EPOLL_CTL_ADD, EPOLL_CTL_MOD and EPOLL_CTL_DEL
pub data CtlOp : Type 0 where
  ctl_add ctl_mod ctl_del : CtlOp

-- What a call of `epoll_wait` returns and the events that it writes.
pub record Events : Type 0 where
  pub result : ℤ
  pub events : List Active

-- The three steps of `kvs_ev_epoll_new` that can fail.
pub record EpollMalloc : Type 0 where
  pub structure : Bool
  pub events : Bool

-- The loop of `kvs_ev_epoll_cycle`, with `n` events left
unfoldable pub copy_events : ℕ → ℕ → List Active → List Active → Run (List Active)
copy_events zero i events active = ok active
copy_events (suc n) i events active = do
  ev ← at events i
  a ← at active i
  copy_events n (suc i) events (set active i (record { fd = ev.fd; mask = join a.mask ev.mask }))

module _ {K : Type 0} (epoll_create : ℕ → Option K) where
  -- `kvs_ev_epoll_new`
  unfoldable pub epoll_new : EpollMalloc → ℕ → Option K
  epoll_new memory size = if not memory.structure then none else elim (epoll_create size) [
    | none ↦ none
    | some k ↦ if memory.events then some k else none
  ]

module _ {K : Type 0} (epoll_ctl : CtlOp → ℕ → Mask → K → Option K) where
  -- The call of `epoll_ctl`, and -1 if it fails.
  unfoldable pub epoll_call : CtlOp → ℕ → Mask → Option K → Run (Option (Option K))
  epoll_call op fd mask none = fault
  epoll_call op fd mask (some k) = elim (epoll_ctl op fd mask k) [
    | none ↦ ok none
    | some k ↦ ok (some (some k))
  ]

module _ {K P U : Type 0} (epoll_create : ℕ → Option K)
    (epoll_ctl : CtlOp → ℕ → Mask → K → Option K) where
  -- `kvs_ev_epoll_resize`: the size is passed to `realloc` as a number of bytes.
  unfoldable pub epoll_resize : Bool → Ev K P U → ℕ → Run (Option (Option K))
  epoll_resize memory e size = elim e.ev [
    | none ↦ fault
    | some k ↦ if memory then ok (some (some k)) else ok none
  ]

  -- `kvs_ev_epoll_add`
  unfoldable pub epoll_add : Ev K P U → ℕ → Mask → Run (Option (Option K))
  unfolding epoll_call
  epoll_add e fd mask = do
    c ← at e.cache fd
    epoll_call epoll_ctl (if is_unused c.mask then ctl_add else ctl_mod) fd (join mask c.mask) e.ev

  -- `kvs_ev_epoll_del`: what is passed on is the mask that is taken away.
  unfoldable pub epoll_del : Ev K P U → ℕ → Mask → Run (Option (Option K))
  unfolding epoll_call
  epoll_del e fd mask = do
    c ← at e.cache fd
    epoll_call epoll_ctl (if is_unused (without c.mask mask) then ctl_del else ctl_mod) fd mask e.ev

  -- `kvs_ev_epoll_cycle`
  unfoldable pub epoll_cycle : Ev K P U → Events → Run (ℤ × Ev K P U)
  unfolding copy_events
  epoll_cycle e w = elim e.ev [
    | none ↦ fault
    | some k ↦ copy_events (pos_part w.result) 0 w.events e.active >>= λ active.
        ok (w.result, record e { active = active })
  ]

  -- `kvs_ev_epoll`
  abbrev pub epoll : EpollMalloc → Bool → Vtable K Events P U
  epoll memory again = record {
    ev_new = epoll_new epoll_create memory;
    ev_add = epoll_add;
    ev_del = epoll_del;
    ev_resize = epoll_resize again;
    ev_cycle = epoll_cycle;
  }
