-- ===== src/Server/Tests.antt =====
-- Runs of src/kvs_server.c, and the theorems on small states. Handlers and data are numbers.
use ckv.Run.{ok, Returns, ◌>>=◌}
use ckv.Base.Int.{pos}
use ckv.Ev.{ev_add, Ev}
use ckv.Ev.Select.{Select, select}
use ckv.Ev.Tests.{ev_two, ev_two-IsWatching, reading, blank}
use ckv.Hash.{Malloc}
use ckv.Sock.{Attempt, bind_create}
use ckv.Server.{Accepting, Accepted, arrived, failed, Errno, Fcntl, accept_fd, start}
use ckv.Server.Accept.{AcceptEffect}
use ckv.Server.Tries.{accept_fd-AcceptEffect}
use ckv.Server.Start.{start-IsReady, IsReady, well_booted}
use ckv.Base.{
  ℕ, List, [], ◌∷◌, some, none, true, false, ◌≡◌, refl, replicate, length-replicate, arith,
}

abbrev linux : Errno
linux = record { eintr = 4; ewouldblock = 11; eagain = 11 }

abbrev well : Fcntl
well = record { getfl = true; setfl = true }

abbrev idle : Accepting (Ev Select ℕ ℕ) ℕ
idle = record { ev = ev_two; flags = λ fd. 2; clients = []; closed = [] }

abbrev at_three : Accepted ℕ
at_three = arrived (record { connfd = 3; calls = well; memory = true; user = 77 })

-- Room for four descriptors: 9 is accepted, but nothing will read from it.
abbrev at_nine : Accepted ℕ
at_nine = arrived (record { connfd = 9; calls = well; memory = false; user = 0 })

unwatched :
    (accept_fd 2048 linux (select true) 7 0 (at_nine ∷ failed 4 ∷ failed 5 ∷ []) idle
      >>= λ (done, s). ok s.closed)
    ≡ ok []
unfolding accept_fd ev_add
unwatched = refl

accept_fd-AcceptEffect_example :
    Returns
      (AcceptEffect 7 0 2048 linux 3 (at_three ∷ failed 11 ∷ at_nine ∷ []) idle)
      (accept_fd 2048 linux (select true) 7 0 (at_three ∷ failed 11 ∷ at_nine ∷ []) idle)
accept_fd-AcceptEffect_example =
    accept_fd-AcceptEffect true 2048 linux 7 0 (at_three ∷ failed 11 ∷ at_nine ∷ []) idle
      ev_two-IsWatching (omega arith)

-- The memory for a loop of a hundred descriptors, with anything in it.
abbrev junk : Ev Select ℕ ℕ
junk = record {
  ev = none;
  size = 0;
  maxfd = pos 5000;
  cache = replicate 100 reading;
  active = replicate 100 blank;
  stop = false;
}

abbrev plenty : Malloc
plenty = record { bucket = true; node = true }

abbrev socket_four : List Attempt
socket_four = record { sfd = some 4; done = true } ∷ []

start-IsReady_example :
    Returns
      (IsReady 2048 7 0 junk 4)
      (start 2048 7 0 11 true plenty (well_booted 2048 7 0 junk socket_four) (λ fd. 2))
unfolding bind_create
start-IsReady_example =
    start-IsReady 2048 7 0 11 plenty junk socket_four (λ fd. 2) 4 (omega arith) refl
      (length-replicate 100 reading) (length-replicate 100 blank) refl (omega arith)
