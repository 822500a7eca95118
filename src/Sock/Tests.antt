-- ===== src/Sock/Tests.antt =====
-- Runs of src/kvs_sock.c.
use ckv.Sock.{Attempt, conn_create, bind_create}
use ckv.Sock.First.{Chosen, create-Chosen}
use ckv.Base.{List, [], ◌∷◌, some, none, true, false, ◌≡◌, refl}

-- No socket, a socket 5 that does not work, and two that do.
abbrev four : List Attempt
four =
    record { sfd = none; done = true }
    ∷ record { sfd = some 5; done = false }
    ∷ record { sfd = some 6; done = true }
    ∷ record { sfd = some 7; done = true }
    ∷ []

third_taken : conn_create (some four) ≡ record { result = some 6; closed = 5 ∷ []; freed = true }
unfolding conn_create
third_taken = refl

-- The addresses stay where no socket works.
kept_addresses :
    bind_create (some (record { sfd = some 5; done = false } ∷ []))
    ≡ record { result = none; closed = 5 ∷ []; freed = false }
unfolding bind_create
kept_addresses = refl

create-Chosen_example :
    Chosen four (conn_create (some four)) × Chosen four (bind_create (some four))
create-Chosen_example = create-Chosen four
