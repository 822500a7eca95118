-- ===== src/Server/Start.antt =====
-- What the start of src/kvs_server.c leaves.
use ckv.Run.{ok, Returns, ok-then}
use ckv.Ev.{api_new, Ev, ev_read, ev_add}
use ckv.Ev.Select.{Select, select}
use ckv.Ev.Start.{Listens, api_new-Listens}
use ckv.Hash.{bucket_new, Hash, Malloc, new}
use ckv.Hash.Table.{Models}
use ckv.Hash.Grow.{new-Models, no_entry}
use ckv.Command.{Obj}
use ckv.Command.Process.{Entry, cmds, command_init}
use ckv.Command.Reply.{command_init-Models, named}
use ckv.Sock.{Attempt, bind_create}
use ckv.Server.{
  socket_non_blocking, Boot, Booted, Flags, start, started, server_init, listen_on, watch_listener,
}
use ckv.Base.{
  some, ℕ, ◌≤◌, ◌<◌, ◌≡◌, refl, ap, ◌∙◌, List, length, Option, Bool, true, false, ◌==◌, bit_or,
  if◌then◌else◌, arith,
}

new-made : {V : Type 0} (hint : ℕ) → (h : Hash V) × (new true hint ≡ some h)
unfolding new bucket_new
new-made hint = (_, refl)

module _ {P U : Type 0} (o_nonblock : ℕ) (accept_proc : P) (null : U) where
  -- Every call succeeds, and there is memory.
  abbrev pub well_booted : Ev Select P U → List Attempt → Boot (Ev Select P U)
  well_booted junk attempts = record {
    memory = record { structure = true; tables = true };
    sets = true;
    junk = junk;
    addresses = some attempts;
    calls = record { getfl = true; setfl = true };
    listens = true;
    table = true;
  }

  -- An empty sound table of entries, a sound table of the commands, and a loop in which the system
  -- is asked about the listening socket only.
  pub record IsReady (junk : Ev Select P U) (listen_fd : ℕ)
      (r : Option (Ev Select P U × Option (Hash Obj) × Hash Entry)) : Type 0 where
    pub ev : Ev Select P U
    pub hash : Hash Obj
    pub commands : Hash Entry
    pub ready : r ≡ some (ev, some hash, commands)
    pub listens : Listens junk 100 listen_fd accept_proc null ev
    pub no_entries : Models no_entry 0 hash
    pub all_commands : Models (named cmds no_entry) 11 commands

  server_init-run :
      (junk e e' : Ev Select P U) (attempts : List Attempt) (flags : Flags) (listen_fd : ℕ)
      (added : Bool)
      → api_new (select true) (record { structure = true; tables = true }) junk 100 ≡ some e
      → ev_add (select true) e listen_fd ev_read accept_proc null ≡ ok (added, e')
      → (bind_create (some attempts)).result ≡ some listen_fd
      → Returns
          (λ b. b.server ≡ some (e', new true 1024))
          (server_init o_nonblock accept_proc null (well_booted junk attempts) flags)
  unfolding server_init listen_on watch_listener socket_non_blocking
  server_init-run junk e e' attempts flags listen_fd added made run bound = (
    record {
      server = some (e', new true 1024);
      flags = λ fd. if listen_fd == fd then bit_or (flags listen_fd) o_nonblock else flags fd;
      closed = (bind_create (some attempts)).closed;
      ev_freed = false;
    },
    rw (server_init, bound, made, run) refl,
    refl,
  )

  started-run :
      (f : ℕ) (memory : Malloc) (b : Booted (Ev Select P U)) (e : Ev Select P U)
      (hash : Option (Hash Obj)) (commands : Hash Entry)
      → b.server ≡ some (e, hash)
      → command_init f true memory ≡ ok commands
      → started o_nonblock accept_proc null f true memory b ≡ ok (some (e, hash, commands))
  unfolding started
  started-run f memory b e hash commands server init = rw (server, init) refl

  -- If every system call succeeds, there is memory with room for a hundred entries in each of the
  -- loop's two tables, and a socket below 100 is bound, then `main` gets to its loop without a
  -- fault: with a sound table of no entries, a sound table of exactly the eleven commands, and a
  -- loop of a hundred descriptors, whose `maxfd` is not below the listening socket. `select` is
  -- asked about reading from the listening socket and about nothing else; it is registered with
  -- `accept_fd` and a null pointer, and the other registrations are what the memory held.
  pub start-IsReady :
      (f : ℕ) (memory : Malloc) (junk : Ev Select P U) (attempts : List Attempt) (flags : Flags)
      (listen_fd : ℕ)
      → 11 ≤ f
      → memory.node ≡ true
      → length junk.cache ≡ 100
      → length junk.active ≡ 100
      → (bind_create (some attempts)).result ≡ some listen_fd
      → listen_fd < 100
      → Returns
          (IsReady junk listen_fd)
          (start o_nonblock accept_proc null f true memory (well_booted junk attempts) flags)
  unfolding start
  start-IsReady f memory junk attempts flags listen_fd fuel room width places bound inside =
      let (e, made, ((added, e'), run, listens)) =
        api_new-Listens junk 100 listen_fd accept_proc null (omega arith) width places inside in
      let (no_commands, made_c) = new-made {V = Entry} 12 in
      let (hash, made_h) = new-made {V = Obj} 1024 in
      let (commands, init, all) = command_init-Models f true memory no_commands made_c room fuel in
      let (b, booted, server) =
        server_init-run junk e e' attempts flags listen_fd added made run bound in
      (
        some (e', some hash, commands),
        ok-then (server_init o_nonblock accept_proc null (well_booted junk attempts) flags) b _
              booted
            ∙ started-run f memory b e' (some hash) commands
                (server ∙ ap (λ h. some (e', h)) made_h) init,
        record {
          ev = e';
          hash = hash;
          commands = commands;
          ready = refl;
          listens = listens;
          no_entries = new-Models true 1024 made_h;
          all_commands = all;
        },
      )
