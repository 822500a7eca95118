-- ===== src/Sock.antt =====
-- src/kvs_sock.c: sockets for the addresses that `getaddrinfo` finds.
--
-- What the system calls answer for an address is an argument; messages are not modelled.
pub mod First
pub mod Tests
use ckv.Base.{ℕ, List, [], ◌∷◌, Option, some, none, Bool, true, false}

-- What is tried for one address: the result of `socket`, and whether `connect` or `bind` of it
-- succeeds.
pub record Attempt : Type 0 where
  pub sfd : Option ℕ
  pub done : Bool

-- What a call leaves: its result, the descriptors that it has closed in order, and whether the
-- list of addresses has been freed.
pub record Opened : Type 0 where
  pub result : Option ℕ
  pub closed : List ℕ
  pub freed : Bool

abbrev after_close : ℕ → Opened → Opened
after_close sfd o = record o { closed = sfd ∷ o.closed }

-- The loop over the addresses, with what follows it.
unfoldable pub try_addresses : List Attempt → Opened
try_addresses [] = record { result = none; closed = []; freed = false }
try_addresses (a ∷ rest) = elim a.sfd [
  | none ↦ try_addresses rest
  | some sfd ↦ elim a.done [
    | true ↦ record { result = some sfd; closed = []; freed = true }
    | false ↦ after_close sfd (try_addresses rest)
  ]
]

-- `conn_create`; `none` is an error of `getaddrinfo`.
unfoldable pub conn_create : Option (List Attempt) → Opened
unfolding try_addresses
conn_create none = record { result = none; closed = []; freed = false }
conn_create (some attempts) = try_addresses attempts

-- `bind_create`
unfoldable pub bind_create : Option (List Attempt) → Opened
unfolding try_addresses
bind_create none = record { result = none; closed = []; freed = false }
bind_create (some attempts) = try_addresses attempts
