-- ===== src/Ev/Handlers.antt =====
-- Rounds of `kvs_ev_cycle` of src/kvs_ev.c with handlers that register descriptors, remove
-- registrations and stop the loop.
use ckv.Ev.{Ev, Mask, ev_add, ev_del, ev_stop, cycle_once, is_unused}
use ckv.Ev.Watch.{IsWatching, mask_at}
use ckv.Ev.Exact.{ev_add-Registered, ev_del-Unregistered}
use ckv.Ev.Select.{Select, Ready, select}
use ckv.Ev.Scan.{ready_from}
use ckv.Ev.Reach.{looked}
use ckv.Ev.Round.{Keeps, cycle_once-Keeps}
use ckv.Run.{Run, Returns, ok, ◌>>=◌}
use ckv.Base.Int.{pos_part}
use ckv.Base.{ℕ, ◌≤◌, ◌≡◌, refl, ◌∙◌, Bool, true, false, ◌||◌, length}

-- What a handler does with the loop: it may call `kvs_ev_add`, `kvs_ev_del` and `kvs_ev_stop` any
-- number of times, and go on by what they return and by the loop that they leave.
pub data Handler (P U : Type 0) : Type 0 where
  finish : Handler P U
  add_then :
      (fd : ℕ) (mask : Mask) (proc : P) (user_data : U) (next : Bool → Ev Select P U → Handler P U)
      → Handler P U
  del_then : (fd : ℕ) (mask : Mask) (next : Bool → Ev Select P U → Handler P U) → Handler P U
  stop_then : (next : Handler P U) → Handler P U

module _ {P U : Type 0} (memory : Bool) where
  -- A run of a handler.
  unfoldable pub handle : Handler P U → Ev Select P U → Run (Ev Select P U)
  handle finish e = ok e
  handle (add_then fd mask proc user_data next) e =
      ev_add (select memory) e fd mask proc user_data >>= λ (x, e'). handle (next x e') e'
  handle (del_then fd mask next) e =
      ev_del (select memory) e fd mask >>= λ (x, e'). handle (next x e') e'
  handle (stop_then next) e = handle next (ev_stop (select memory) e)

  stopped : {e : Ev Select P U} → IsWatching e → IsWatching (ev_stop (select memory) e)
  unfolding ev_stop
  stopped w = record {
    width = w.width;
    places = w.places;
    fits = w.fits;
    sets = w.sets;
    here = w.here;
    reads = w.reads;
    writes = w.writes;
    bound = w.bound;
    inside = w.inside;
  }

  handle-Keeps :
      (h : Handler P U) (e : Ev Select P U) → IsWatching e → Returns (Keeps e) (handle h e)
  unfolding handle ev_stop
  handle-Keeps finish e w = (e, refl, (w, refl, refl))
  handle-Keeps (add_then fd mask proc user_data next) e w =
      let ((x, e₁), run, (c, o)) = ev_add-Registered memory fd mask proc user_data w in
      let (e₂, run₂, (w₂, size₂, active₂)) = handle-Keeps (next x e₁) e₁ c.sound in
      (e₂, rw run run₂, (w₂, size₂ ∙ c.same_size, active₂ ∙ o.active))
  handle-Keeps (del_then fd mask next) e w =
      let ((x, e₁), run, (c, o)) = ev_del-Unregistered memory fd mask w in
      let (e₂, run₂, (w₂, size₂, active₂)) = handle-Keeps (next x e₁) e₁ c.sound in
      (e₂, rw run run₂, (w₂, size₂ ∙ c.same_size, active₂ ∙ o.active))
  handle-Keeps (stop_then next) e w = handle-Keeps next (ev_stop (select memory) e) (stopped w)

  -- While `select` watches what is registered, one round of `kvs_ev_cycle` returns without a fault,
  -- and `select` goes on watching what is registered, with a loop of the same size, whatever calls
  -- of `kvs_ev_add`, `kvs_ev_del` and `kvs_ev_stop` the handlers make. The system has to answer
  -- with descriptors that it was asked about, and with a number that does not exceed that of the
  -- ready descriptors: one that is ready for both is counted once.
  pub cycle_once-IsWatching :
      (does : P → Ev Select P U → ℕ → Mask → U → Handler P U) {e : Ev Select P U} (w : IsWatching e)
      (answer : Ready)
      → ((fd : ℕ)
          → (answer.read fd || answer.write fd) ≡ true
          → is_unused (mask_at e.cache fd) ≡ false)
      → pos_part answer.result ≤ length (ready_from answer.read answer.write (looked e) 0)
      → Returns
          (λ e'. IsWatching e' × (e'.size ≡ e.size))
          (cycle_once (select memory) (λ p e fd mask u. handle (does p e fd mask u) e) e answer)
  cycle_once-IsWatching does w answer asked few =
      cycle_once-Keeps memory (λ p e fd mask u. handle (does p e fd mask u) e)
        (λ p e fd mask u w. handle-Keeps (does p e fd mask u) e w) w answer asked few
