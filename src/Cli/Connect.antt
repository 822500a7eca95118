-- ===== src/Cli/Connect.antt =====
-- `kvs_cli_new` of src/kvs_cli.c: the connection of the client's program.
use mathlib.Core.List.{append-nil, append_assoc}
use ckv.Sock.{Attempt, Opened, conn_create}
use ckv.Sock.First.{Chosen, IsFirst, sockets, create-Chosen}
use ckv.Base.{
  Option-cases, ℕ, List, [], ◌∷◌, ◌++◌, Option, some, none, Bool, true, false, ◌≡◌, refl, sym, ap,
  ◌∙◌, inl, inr, ◌⊎◌,
}

-- `kvs_cli_t` without the arguments of a request
pub record Cli : Type 0 where
  pub fd : ℕ
  pub port : List ℕ

-- `kvs_cli_new` once there is a connection or not, with the descriptors that have been closed.
unfoldable pub cli_of : (copy : Bool) → (port : List ℕ) → Opened → Option Cli × List ℕ
cli_of copy port o = elim o.result [
  | none ↦ (none, o.closed)
  | some fd ↦ elim copy [
    | true ↦ (some (record { fd = fd; port = port }), o.closed)
    | false ↦ (none, o.closed ++ fd ∷ [])
  ]
]

-- `kvs_cli_new`, for the success of `malloc` and `strdup`.
unfoldable pub cli_new :
    (memory copy : Bool) → Option (List Attempt) → (port : List ℕ) → Option Cli × List ℕ
unfolding cli_of conn_create
cli_new false copy addresses port = (none, [])
cli_new true copy addresses port = cli_of copy port (conn_create addresses)

-- Every socket that was made has been closed, but that of the client.
pub IsTidy : List Attempt → Option Cli × List ℕ → Type 0
IsTidy attempts r =
    ((c : Cli) × (r.0 ≡ some c) × IsFirst attempts c.fd r.1)
    ⊎ ((r.0 ≡ none)
        × ((us : List Attempt) × (vs : List Attempt) × (attempts ≡ us ++ vs) × (r.1 ≡ sockets us)))

sockets-append :
    (us : List Attempt) (a : Attempt) (fd : ℕ)
    → a.sfd ≡ some fd
    → sockets (us ++ a ∷ []) ≡ sockets us ++ fd ∷ []
unfolding sockets
sockets-append [] a fd e = rw e refl
sockets-append (u ∷ us) a fd e = elim (Option-cases u.sfd) [
  | inl n ↦ rw n (sockets-append us a fd e)
  | inr (sfd, s) ↦ rw s (ap (λ xs. sfd ∷ xs) (sockets-append us a fd e))
]

cli_of-IsTidy :
    (copy : Bool) (port : List ℕ) (attempts : List Attempt) (o : Opened)
    → Chosen attempts o
    → IsTidy attempts (cli_of copy port o)
unfolding IsTidy cli_of Chosen
cli_of-IsTidy true port attempts o (inl (fd, e, _, first)) =
    inl (record { fd = fd; port = port }, rw e refl, rw e first)
cli_of-IsTidy false port attempts o (inl (fd, e, _, first)) = inr (
  rw e refl,
  (
    first.before ++ first.taken ∷ [],
    first.after,
    first.split ∙ sym (append_assoc first.before (first.taken ∷ []) first.after),
    rw e (
        ap (λ xs. xs ++ fd ∷ []) first.closes
        ∙ sym (sockets-append first.before first.taken fd first.socket)),
  ),
)
cli_of-IsTidy copy port attempts o (inr (e, _, _, closed)) =
    inr (rw e refl, (attempts, [], sym (append-nil attempts), rw e closed))

-- `kvs_cli_new` keeps the socket of the first address that can be connected and closes those before
-- it, or returns a null pointer and leaves no socket open, whether there is memory or not.
pub cli_new-IsTidy :
    (memory copy : Bool) (attempts : List Attempt) (port : List ℕ)
    → IsTidy attempts (cli_new memory copy (some attempts) port)
unfolding cli_new IsTidy sockets
cli_new-IsTidy false copy attempts port = inr (refl, ([], attempts, refl, refl))
cli_new-IsTidy true copy attempts port =
    cli_of-IsTidy copy port attempts (conn_create (some attempts)) (create-Chosen attempts).0
