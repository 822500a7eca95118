-- ===== src/Server.antt =====
-- src/kvs_server.c: how the server starts, and how it accepts clients.
--
-- What the system calls answer is an argument, and so are the header constants `O_NONBLOCK`,
-- `EINTR`, `EWOULDBLOCK` and `EAGAIN` and the event loop's interface. Descriptors that are accepted
-- are not negative. Messages are not modelled.
pub mod Answers
pub mod Accept
pub mod Tries
pub mod Start
pub mod Tests
use ckv.Run.{Run, ok, fault, out_of_fuel, ◌>>=◌}
use ckv.Ev.{Ev, EvMalloc, Vtable, api_new, ev_add, ev_read}
use ckv.Ev.Select.{Select, select}
use ckv.Net.{Client, client_new}
use ckv.Hash.{Hash, Malloc, new}
use ckv.Command.{Obj}
use ckv.Command.Process.{Server, Entry, command_init}
use ckv.Sock.{Opened, Attempt, bind_create}
use ckv.Base.{
  ℕ, zero, suc, List, [], ◌∷◌, ◌++◌, Option, some, none, Bool, true, false, not, ◌||◌, ◌==◌, bit_or,
  if◌then◌else◌,
}

-- The status flags of open descriptors.
abbrev pub Flags : Type 0
Flags = ℕ → ℕ

-- Whether F_GETFL and F_SETFL succeed.
pub record Fcntl : Type 0 where
  pub getfl : Bool
  pub setfl : Bool

-- `socket_non_blocking`; `false` is the result -1.
unfoldable pub socket_non_blocking : ℕ → Fcntl → Flags → ℕ → Bool × Flags
socket_non_blocking o_nonblock calls flags sfd =
    if calls.getfl
    then (if calls.setfl
        then (true, λ fd. if sfd == fd then bit_or (flags sfd) o_nonblock else flags fd)
        else (false, flags))
    else (false, flags)

-- `errno`
pub record Errno : Type 0 where
  pub eintr : ℕ
  pub ewouldblock : ℕ
  pub eagain : ℕ

-- A connection: its descriptor, whether `fcntl` works on it, whether there is memory for a client,
-- and the address of that memory.
pub record Arrival (U : Type 0) : Type 0 where
  pub connfd : ℕ
  pub calls : Fcntl
  pub memory : Bool
  pub user : U

-- What `accept` answers.
pub data Accepted (U : Type 0) : Type 0 where
  arrived : Arrival U → Accepted U
  failed : (errno : ℕ) → Accepted U

-- What `accept_fd` works on: the loop, the flags, the clients with their addresses and descriptors,
-- the oldest first, and the descriptors that it has closed.
pub record Accepting (L U : Type 0) : Type 0 where
  pub ev : L
  pub flags : Flags
  pub clients : List (U × ℕ × Client)
  pub closed : List ℕ

-- Whether an error ends `accept_fd`.
abbrev pub ends_accept : Errno → ℕ → Bool
ends_accept errno_of errno =
    if errno == errno_of.eintr
    then false
    else not (errno == errno_of.ewouldblock) || not (errno == errno_of.eagain)

module _ (o_nonblock : ℕ) (errno_of : Errno) {B W P U : Type 0} (vt : Vtable B W P U)
    (net_read_proc : P) (null : U) where
  -- The pointer that `kvs_client_new` returns for a connection, and the client there.
  abbrev pub pointer : Arrival U → U
  pointer a = elim (client_new a.memory) [ none ↦ null | some c ↦ a.user ]

  abbrev pub client_at : Arrival U → List (U × ℕ × Client)
  client_at a = elim (client_new a.memory) [ none ↦ [] | some c ↦ (a.user, a.connfd, c) ∷ [] ]

  -- A connection that is not blocking any more: neither the client nor the registration is tested
  -- for.
  unfoldable pub take_client :
      Accepting (Ev B P U) U → Arrival U → Flags → Run (Accepting (Ev B P U) U)
  take_client s a flags =
      ev_add vt s.ev a.connfd ev_read net_read_proc (pointer a) >>= λ (added, e).
      ok (record s { ev = e; flags = flags; clients = s.clients ++ client_at a })

  -- `accept_fd`, for `ntry` more attempts; `false` is the result -1.
  unfoldable pub accept_tries :
      ℕ → List (Accepted U) → Accepting (Ev B P U) U → Run (Bool × Accepting (Ev B P U) U)
  unfolding take_client socket_non_blocking
  accept_tries zero answers s = ok (true, s)
  accept_tries (suc ntry) [] s = out_of_fuel
  accept_tries (suc ntry) (failed errno ∷ answers) s =
      let rest = accept_tries ntry answers s in
      if ends_accept errno_of errno then ok (false, s) else rest
  accept_tries (suc ntry) (arrived a ∷ answers) s =
      elim (socket_non_blocking o_nonblock a.calls s.flags a.connfd).0 [
        | false ↦ ok (false, record s { closed = a.connfd ∷ s.closed })
        | true ↦
            take_client s a (socket_non_blocking o_nonblock a.calls s.flags a.connfd).1 >>= λ s'.
            accept_tries ntry answers s'
      ]

  -- `accept_fd`
  unfoldable pub accept_fd :
      List (Accepted U) → Accepting (Ev B P U) U → Run (Bool × Accepting (Ev B P U) U)
  unfolding accept_tries
  accept_fd answers s = accept_tries 3 answers s

-- What the system answers while the server starts: the memory for the loop, for the sets of `select`,
-- and what it holds, the
-- addresses for the port, the calls on the listening socket, and the memory for the entries.
pub record Boot (L : Type 0) : Type 0 where
  pub memory : EvMalloc
  pub sets : Bool
  pub junk : L
  pub addresses : Option (List Attempt)
  pub calls : Fcntl
  pub listens : Bool
  pub table : Bool

-- What `kvs_server_init` leaves: the loop and the table of entries, where it succeeds, the flags,
-- the descriptors that it has closed, and whether it has freed the loop.
pub record Booted (L : Type 0) : Type 0 where
  pub server : Option (L × Option (Hash Obj))
  pub flags : Flags
  pub closed : List ℕ
  pub ev_freed : Bool

-- A failure that leaves the loop as it is.
abbrev not_booted : {L : Type 0} → Flags → List ℕ → Booted L
not_booted flags closed = record { server = none; flags = flags; closed = closed; ev_freed = false }

module _ (o_nonblock : ℕ) {P U : Type 0} (accept_proc : P) (null : U) where
  -- `kvs_ev_api_new(100, "select")`
  abbrev new_ev : Boot (Ev Select P U) → Option (Ev Select P U)
  new_ev b = api_new (select b.sets) b.memory b.junk 100

  -- The registration of the listening socket, with a loop that is not tested for.
  unfoldable pub watch_listener : Option (Ev Select P U) → ℕ → Run (Ev Select P U)
  watch_listener none listen_fd = fault
  watch_listener (some e) listen_fd =
      ev_add (select true) e listen_fd ev_read accept_proc null >>= λ (added, e'). ok e'

  -- `kvs_server_init` once there is a socket.
  unfoldable pub listen_on :
      Boot (Ev Select P U) → Flags → List ℕ → ℕ → Run (Booted (Ev Select P U))
  unfolding watch_listener socket_non_blocking
  listen_on b flags closed listen_fd =
      let (done, flags') = socket_non_blocking o_nonblock b.calls flags listen_fd in
      let freed = closed ++ listen_fd ∷ [] in
      if not done
      then ok (not_booted flags closed)
      else if not b.listens
      then elim (new_ev b) [
        | none ↦ fault
        | some e ↦ ok (record { server = none; flags = flags'; closed = freed; ev_freed = true })
      ]
      else (watch_listener (new_ev b) listen_fd >>= λ e. ok (record {
        server = some (e, new {V = Obj} b.table 1024);
        flags = flags';
        closed = closed;
        ev_freed = false;
      }))

  -- `kvs_server_init`
  unfoldable pub server_init : Boot (Ev Select P U) → Flags → Run (Booted (Ev Select P U))
  unfolding listen_on
  server_init b flags = elim (bind_create b.addresses).result [
    | none ↦ ok (not_booted flags (bind_create b.addresses).closed)
    | some listen_fd ↦ listen_on b flags (bind_create b.addresses).closed listen_fd
  ]

  -- `main` up to the loop: `none` ends the program with 1. A null table of entries is found out
  -- by the first request.
  unfoldable pub started :
      ℕ
      → (table : Bool) → Malloc
      → Booted (Ev Select P U)
      → Run (Option (Ev Select P U × Option (Hash Obj) × Hash Entry))
  unfolding command_init
  started f table memory b = elim b.server [
    | none ↦ ok none
    | some s ↦ command_init f table memory >>= λ commands. ok (some (s.0, s.1, commands))
  ]

  unfoldable pub start :
      ℕ
      → (table : Bool) → Malloc
      → Boot (Ev Select P U)
      → Flags
      → Run (Option (Ev Select P U × Option (Hash Obj) × Hash Entry))
  unfolding server_init started
  start f table memory b flags = server_init b flags >>= λ x. started f table memory x
