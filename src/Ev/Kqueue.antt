-- ===== src/Ev/Kqueue.antt =====
-- src/kvs_ev_kqueue.c: the event loop's interface by `kqueue`. The system's state has the type
-- `K`; `kevent` takes a filter with whether it is added or deleted, and changes the state or fails.
use ckv.Base.Int.{pos, ℤ}
use ckv.Ev.{Mask, Ev}
use ckv.Base.{true, false, Bool, Option, ℕ, none, some}

-- EVFILT_READ and EVFILT_WRITE
pub data Filter : Type 0 where
  filter_read filter_write : Filter

-- `kvs_ev_kqueue_t`, with its pointer `events`, which `kvs_ev_kqueue_new` leaves as it finds it.
pub record Kqueue (K : Type 0) : Type 0 where
  pub kq : K
  pub events : Option ℕ

module _ {K : Type 0} (kqueue : Option K) (kevent : ℕ → Filter → Bool → K → Option K) where
  -- `kvs_ev_kqueue_new`
  unfoldable pub kqueue_new : Bool → (junk : Option ℕ) → ℕ → Option (Kqueue K)
  kqueue_new false junk size = none
  kqueue_new true junk size = elim kqueue [
    | none ↦ none
    | some k ↦ some (record { kq = k; events = junk })
  ]

  -- One call of `kevent` where the mask asks for it.
  unfoldable pub kevent_if : Bool → ℕ → Filter → Bool → K → Option K
  kevent_if false fd filter add k = some k
  kevent_if true fd filter add k = kevent fd filter add k

  -- `kvs_ev_kqueue_add` on the system's state: both bits add the filter for reading.
  unfoldable pub kqueue_add : ℕ → Mask → K → Option K
  unfolding kevent_if
  kqueue_add fd mask k = elim (kevent_if mask.read fd filter_read true k) [
    | none ↦ none
    | some k ↦ kevent_if mask.write fd filter_read true k
  ]

  -- `kvs_ev_kqueue_del`
  unfoldable pub kqueue_del : ℕ → Mask → K → Option K
  unfolding kevent_if
  kqueue_del fd mask k = elim (kevent_if mask.read fd filter_read false k) [
    | none ↦ none
    | some k ↦ kevent_if mask.write fd filter_write false k
  ]

-- `kvs_ev_kqueue_cycle` waits for nothing.
unfoldable pub kqueue_cycle : {B P U : Type 0} → Ev B P U → ℤ × Ev B P U
kqueue_cycle e = (pos 0, e)
