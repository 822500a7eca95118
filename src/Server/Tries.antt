-- ===== src/Server/Tries.antt =====
-- The attempts of `accept_fd` of src/kvs_server.c.
use ckv.Server.Accept.{AcceptEffect, none_accepted, then_accepted, then_failed, joined}
use ckv.Server.Answers.{address, new_client, descriptor, Stopped, passes}
use ckv.Run.{ok, Returns}
use ckv.Ev.{Ev, ev_read, ev_add}
use ckv.Ev.Select.{Select, select}
use ckv.Ev.Watch.{IsWatching}
use ckv.Ev.Exact.{ev_add-Registered}
use ckv.Net.{client_new}
use ckv.Server.{
  pointer, client_at, Accepting, Arrival, Accepted, arrived, failed, Errno, accept_tries, accept_fd,
  take_client, socket_non_blocking, ends_accept,
}
use ckv.Base.{
  not, ℕ, zero, suc, ◌≤◌, ◌≡◌, refl, ap, ◌∙◌, List, [], ◌∷◌, ◌++◌, if◌then◌else◌, length, Bool,
  true, false, ◌&&◌, Bool-cases, inl, inr, arith,
}

module _ {P U : Type 0} (memory : Bool) (o_nonblock : ℕ) (errno_of : Errno) (net_read_proc : P)
    (null : U) where
  -- The `accept` calls that are left, from a state.
  abbrev TriesEnd : ℕ → List (Accepted U) → Accepting (Ev Select P U) U → Type 0
  TriesEnd n answers s =
      Returns (AcceptEffect net_read_proc null o_nonblock errno_of n answers s)
        (accept_tries o_nonblock errno_of (select memory) net_read_proc null n answers s)

  failed-TriesEnd :
      (n : ℕ) (errno : ℕ) (answers : List (Accepted U)) (s : Accepting (Ev Select P U) U)
      → IsWatching s.ev
      → TriesEnd n answers s
      → TriesEnd (suc n) (failed errno ∷ answers) s
  unfolding accept_tries passes Stopped descriptor
  failed-TriesEnd n errno answers s w (r, run, f) = elim (Bool-cases (ends_accept errno_of errno)) [
    | inl ends ↦ (
      (false, s),
      rw ends refl,
      none_accepted net_read_proc null o_nonblock errno_of (suc n) (failed errno ∷ answers) s false
          s.closed w (λ d. cc) (λ d. (omega arith, (ap not ends, refl))),
    )
    | inr goes_on ↦ (
      r,
      rw goes_on run,
      then_failed net_read_proc null o_nonblock errno_of n answers errno s r (ap not goes_on) f,
    )
  ]

  refused-TriesEnd :
      (n : ℕ) (a : Arrival U) (answers : List (Accepted U)) (s : Accepting (Ev Select P U) U)
      → IsWatching s.ev
      → (socket_non_blocking o_nonblock a.calls s.flags a.connfd).0 ≡ false
      → a.calls.getfl && a.calls.setfl ≡ false
      → TriesEnd (suc n) (arrived a ∷ answers) s
  unfolding accept_tries passes Stopped descriptor
  refused-TriesEnd n a answers s w e stop = (
    (false, record s { closed = a.connfd ∷ s.closed }),
    rw (accept_tries, e) refl,
    none_accepted net_read_proc null o_nonblock errno_of (suc n) (arrived a ∷ answers) s false
        (a.connfd ∷ s.closed) w (λ d. cc) (λ d. (omega arith, (stop, refl))),
  )

  pointer-address :
      (a : Arrival U)
      → pointer o_nonblock errno_of (select {P = P} memory) net_read_proc null a ≡ address null a
  unfolding client_new
  pointer-address a = elim (Bool-cases a.memory) [ inl y ↦ rw y refl | inr n ↦ rw n refl ]

  client_at-lem :
      (a : Arrival U)
      → client_at o_nonblock errno_of (select {P = P} memory) net_read_proc null a
        ≡ (if a.memory then (a.user, a.connfd, new_client) ∷ [] else [])
  unfolding client_new
  client_at-lem a = elim (Bool-cases a.memory) [ inl y ↦ rw y refl | inr n ↦ rw n refl ]

  arrived-run :
      (n : ℕ) (a : Arrival U) (answers : List (Accepted U)) (s : Accepting (Ev Select P U) U)
      (added : Bool) (e : Ev Select P U)
      → a.calls.getfl ≡ true
      → a.calls.setfl ≡ true
      → ev_add (select memory) s.ev a.connfd ev_read net_read_proc (address null a) ≡ ok (added, e)
      → accept_tries o_nonblock errno_of
          (select memory)
          net_read_proc
          null
          (suc n)
          (arrived a ∷ answers)
          s
        ≡ accept_tries o_nonblock errno_of
            (select memory)
            net_read_proc
            null
            n
            answers
            (joined net_read_proc null o_nonblock a s e)
  unfolding accept_tries take_client socket_non_blocking
  arrived-run n a answers s added e y y' run =
      rw (y, y', pointer-address a, run)
        (ap
          (λ cs.
            accept_tries o_nonblock errno_of (select memory) net_read_proc null n answers
              (record (joined net_read_proc null o_nonblock a s e) { clients = s.clients ++ cs }))
          (client_at-lem a))

  -- `accept_fd` ends, whatever `accept` answers.
  accept_tries-AcceptEffect :
      (n : ℕ) (answers : List (Accepted U)) (s : Accepting (Ev Select P U) U)
      → IsWatching s.ev
      → n ≤ length answers
      → TriesEnd n answers s
  unfolding socket_non_blocking accept_tries passes
  accept_tries-AcceptEffect zero answers s w h = (
    (true, s),
    refl,
    none_accepted net_read_proc null o_nonblock errno_of 0 answers s true s.closed w
        (λ d. (refl, refl)) (λ d. cc),
  )
  accept_tries-AcceptEffect (suc n) [] s w h = absurd (omega arith)
  accept_tries-AcceptEffect (suc n) (failed errno ∷ answers) s w h =
      failed-TriesEnd n errno answers s w (accept_tries-AcceptEffect n answers s w (omega arith))
  accept_tries-AcceptEffect (suc n) (arrived a ∷ answers) s w h =
      let ((added, e), run, (c, only)) =
        ev_add-Registered memory a.connfd ev_read net_read_proc (address null a) w in
      let (r, run', f) =
        accept_tries-AcceptEffect n answers (joined net_read_proc null o_nonblock a s e) c.sound
          (omega arith) in
      elim (Bool-cases a.calls.getfl) [
        | inl y ↦ elim (Bool-cases a.calls.setfl) [
          | inl y' ↦ (
            r,
            arrived-run n a answers s added e y y' run ∙ run',
            then_accepted net_read_proc null o_nonblock errno_of n answers a s added e r
                (rw (y, y') refl) c only f,
          )
          | inr n' ↦ refused-TriesEnd n a answers s w (rw (y, n') refl) (rw (y, n') refl)
        ]
        | inr n' ↦ refused-TriesEnd n a answers s w (rw n' refl) (rw n' refl)
      ]

  -- While `select` watches what is registered, `accept_fd` ends without a fault whatever three
  -- calls of `accept` answer. The connections that came before the first error that is not passed
  -- over, or before the first one that cannot be made non-blocking, are made non-blocking; where
  -- there is memory they get a new client each, in their order; where the loop has room for the
  -- descriptor they are registered for reading, with `kvs_net_read` and the pointer to their
  -- client, or a null pointer. The one that could not be made non-blocking is closed. `select`
  -- watches what is registered, `maxfd` is raised to the descriptors that are registered, and
  -- nothing else changes.
  pub accept_fd-AcceptEffect :
      (answers : List (Accepted U)) (s : Accepting (Ev Select P U) U)
      → IsWatching s.ev
      → 3 ≤ length answers
      → Returns
          (AcceptEffect net_read_proc null o_nonblock errno_of 3 answers s)
          (accept_fd o_nonblock errno_of (select memory) net_read_proc null answers s)
  unfolding accept_fd
  accept_fd-AcceptEffect answers s w h = accept_tries-AcceptEffect 3 answers s w h
