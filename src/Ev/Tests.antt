-- ===== src/Ev/Tests.antt =====
-- Runs of src/kvs_ev.c over small tables, and the theorems on them. Handlers are numbers.
use ckv.Base.Int.{◌+ℤ◌}
use mathlib.Core.Option.{some-injective}
use ckv.Ev.Interest.{InterestEffect, ev_add-InterestEffect}
use ckv.Ev.Epoll.{ctl_mod, epoll_call, epoll, ctl_add, epoll_del, EpollMalloc, CtlOp}
use ckv.Ev.Scan.{ready_from}
use ckv.Ev.Handlers.{Handler, add_then, del_then, stop_then, finish, handle, cycle_once-IsWatching}
use ckv.Ev.Reach.{select_cycle-Waited, Waited}
use ckv.Ev.Select.{scan, select_cycle, Ready, select, Select}
use ckv.Ev.Exact.{OnlyAt, add_to, take_from, greater_fd, ev_add-Registered, ev_del-Unregistered}
use ckv.Ev.Watch.{Changed, IsWatching, mask_at}
use ckv.Ev.Epoll.{ctl_add, ctl_mod, ctl_del}
use ckv.Run.{at, Run, Returns, ◌>>=◌, ok}
use ckv.Ev.{
  is_unused, dispatch, dispatch_all, cycle_once, ev_write, ev_del, ev_add, pos, without, ev_read,
  ev_unused, Mask, Ev, Active, Cache, join,
}
use ckv.Base.{
  sym, ◌+◌, ◌*◌, Option, if◌then◌else◌, Bool, ◌||◌, ◌==◌, refl, true, [], sym, ◌∷◌, zero, ap, suc,
  false, arith, ◌≡◌, ℕ, none, some,
}

abbrev pub unused_cache : Cache ℕ ℕ
unused_cache = record { mask = ev_unused; read_proc = 0; write_proc = 0; user_data = 0 }

abbrev pub blank : Active
blank = record { fd = 0; mask = ev_unused }

abbrev pub reading : Cache ℕ ℕ
reading = record { mask = ev_read; read_proc = 7; write_proc = 0; user_data = 9 }

abbrev pub only_two : Select
only_two = record { r = λ i. 2 == i; w = λ i. false }

-- Room for four descriptors, and descriptor 2 registered for reading.
abbrev pub ev_two : Ev Select ℕ ℕ
ev_two = record {
  ev = some only_two;
  size = 4;
  maxfd = pos 2;
  cache = unused_cache ∷ unused_cache ∷ reading ∷ unused_cache ∷ [];
  active = blank ∷ blank ∷ blank ∷ blank ∷ [];
  stop = false;
}

two_reads : (fd : ℕ) → (2 == fd) ≡ (mask_at ev_two.cache fd).read
two_reads zero = refl
two_reads (suc zero) = refl
two_reads (suc (suc zero)) = refl
two_reads (suc (suc (suc zero))) = refl
two_reads (suc (suc (suc (suc fd)))) = ground arith

two_writes : (fd : ℕ) → false ≡ (mask_at ev_two.cache fd).write
two_writes zero = refl
two_writes (suc zero) = refl
two_writes (suc (suc zero)) = refl
two_writes (suc (suc (suc zero))) = refl
two_writes (suc (suc (suc (suc fd)))) = refl

pub ev_two-IsWatching : IsWatching ev_two
ev_two-IsWatching = record {
  width = refl;
  places = refl;
  fits = omega arith;
  sets = only_two;
  here = refl;
  reads = two_reads;
  writes = two_writes;
  bound = λ fd used. ground (arith, used, two_reads fd, two_writes fd);
  inside = refl;
}

ev_add-Registered_example :
    Returns
      (λ r.
        Changed ev_two (λ m. join m ev_write) 2 r
        × OnlyAt ev_two 2 (add_to ev_write 8 9) (greater_fd ev_write 2 (pos 2)) r)
      (ev_add (select true) ev_two 2 ev_write 8 9)
ev_add-Registered_example = ev_add-Registered true 2 ev_write 8 9 ev_two-IsWatching

ev_del-Unregistered_example :
    Returns
      (λ r.
        Changed ev_two (λ m. without m ev_read) 2 r × OnlyAt ev_two 2 (take_from ev_read) (pos 2) r)
      (ev_del (select true) ev_two 2 ev_read)
ev_del-Unregistered_example = ev_del-Unregistered true 2 ev_read ev_two-IsWatching

-- The system answers that descriptor 2 can be read.
abbrev answer_two : Ready
answer_two = record { result = pos 1; read = λ i. 2 == i; write = λ i. false }

asked_two :
    (fd : ℕ)
    → (answer_two.read fd || answer_two.write fd) ≡ true
    → is_unused (mask_at ev_two.cache fd) ≡ false
asked_two fd on = ground (arith, on, two_reads fd)

select_cycle-Waited_example : Returns (Waited ev_two answer_two) (select_cycle ev_two answer_two)
select_cycle-Waited_example = select_cycle-Waited ev_two-IsWatching answer_two asked_two

-- A handler that asks for writing too, and takes the registration away once that has succeeded.
abbrev both_then_none : ℕ → Ev Select ℕ ℕ → ℕ → Mask → ℕ → Handler ℕ ℕ
both_then_none p e fd mask u =
    add_then fd ev_write 8 u
      (λ x e₁. if x then del_then fd (join ev_read ev_write) (λ x e₂. stop_then finish) else finish)

cycle_once-IsWatching_example :
    Returns
      (λ e'. IsWatching e' × (e'.size ≡ ev_two.size))
      (cycle_once
        (select true)
        (λ p e fd mask u. handle true (both_then_none p e fd mask u) e)
        ev_two
        answer_two)
unfolding ready_from ◌+ℤ◌
cycle_once-IsWatching_example =
    cycle_once-IsWatching true both_then_none ev_two-IsWatching answer_two asked_two (omega arith)

-- A system in which `epoll_ctl` always succeeds.
abbrev Interests : Type 0
Interests = ℕ → Mask

abbrev ctl : CtlOp → ℕ → Mask → Interests → Option Interests
ctl ctl_add fd mask k = some (λ i. if fd == i then mask else k i)
ctl ctl_mod fd mask k = some (λ i. if fd == i then mask else k i)
ctl ctl_del fd mask k = some (λ i. if fd == i then ev_unused else k i)

registers_lem :
    (fd : ℕ) (mask : Mask) (k k' : Interests)
    → some (λ i. if fd == i then mask else k i) ≡ some k'
    → (i : ℕ) → k' i ≡ (if fd == i then mask else k i)
registers_lem fd mask k k' e i =
    ap (λ f. f i) (sym (some-injective (λ i. if fd == i then mask else k i) k' e))

ctl-registers :
    (fresh : Bool) (fd : ℕ) (mask : Mask) (k k' : Interests)
    → ctl (if fresh then ctl_add else ctl_mod) fd mask k ≡ some k'
    → (i : ℕ) → k' i ≡ (if fd == i then mask else k i)
ctl-registers true fd mask k k' e i = registers_lem fd mask k k' e i
ctl-registers false fd mask k k' e i = registers_lem fd mask k k' e i

abbrev epoll_two : Ev Interests ℕ ℕ
epoll_two = record {
  ev = some (λ i. if 2 == i then ev_read else ev_unused);
  size = 4;
  maxfd = pos 2;
  cache = ev_two.cache;
  active = ev_two.active;
  stop = false;
}

two_watched : (fd : ℕ) → (if 2 == fd then ev_read else ev_unused) ≡ mask_at ev_two.cache fd
two_watched zero = refl
two_watched (suc zero) = refl
two_watched (suc (suc zero)) = refl
two_watched (suc (suc (suc zero))) = refl
two_watched (suc (suc (suc (suc fd)))) = ground arith

abbrev all_memory : EpollMalloc
all_memory = record { structure = true; events = true }

abbrev watcher : ℕ → Option Interests
watcher size = some (λ i. ev_unused)

ev_add-InterestEffect_example :
    Returns
      (InterestEffect watcher ctl (λ k. k) ctl-registers epoll_two 2 ev_write)
      (ev_add (epoll watcher ctl all_memory true) epoll_two 2 ev_write 8 9)
ev_add-InterestEffect_example =
    ev_add-InterestEffect watcher ctl (λ k. k) ctl-registers all_memory true 2 ev_write 8 9
      (record {
        width = refl;
        kernel = λ i. if 2 == i then ev_read else ev_unused;
        here = refl;
        watched = two_watched;
      })

-- What the system watches after writing is taken from a descriptor that is registered for both.
abbrev both : Cache ℕ ℕ
both = record { mask = join ev_read ev_write; read_proc = 7; write_proc = 8; user_data = 9 }

abbrev epoll_both : Ev Interests ℕ ℕ
epoll_both = record epoll_two {
  ev = some (λ i. join ev_read ev_write);
  cache = both ∷ both ∷ both ∷ both ∷ [];
}

abbrev asked_of : ℕ → Option Interests → Mask
asked_of fd none = ev_unused
asked_of fd (some k) = k fd

test_epoll_del :
    (ev_del (epoll watcher ctl all_memory true) epoll_both 2 ev_write
      >>= (λ r. ok (asked_of 2 r.1.ev)))
    ≡ ok ev_write
unfolding ev_del epoll_del epoll_call at
test_epoll_del = refl

-- A descriptor that is ready for both counts twice in what `select` returns, and the second round
-- of the loop works on an entry that no answer was written to.
abbrev log_call : ℕ → Ev Select ℕ ℕ → ℕ → Mask → ℕ → Run (Ev Select ℕ ℕ)
log_call p e fd mask u = ok (record e { maxfd = pos (fd * 10 + p) })

abbrev stale : Active
stale = record { fd = 1; mask = ev_read }

test_cycle_stale :
    (cycle_once
        (select true)
        log_call
        (record ev_two {
          cache = unused_cache ∷ reading ∷ both ∷ unused_cache ∷ [];
          active = blank ∷ stale ∷ blank ∷ blank ∷ [];
        })
        (record { result = pos 2; read = λ i. 2 == i; write = λ i. 2 == i })
      >>= (λ e. ok e.maxfd))
    ≡ ok (pos 17)
unfolding cycle_once dispatch_all dispatch select_cycle scan at ◌+ℤ◌
test_cycle_stale = refl
