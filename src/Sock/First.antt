-- ===== src/Sock/First.antt =====
-- Which socket `conn_create` and `bind_create` return, and which they close.
use ckv.Sock.{Attempt, Opened, try_addresses, conn_create, bind_create}
use ckv.Base.{
  sym, ap, ◌∙◌, inr, inl, ◌⊎◌, ℕ, List, [], ◌∷◌, ◌++◌, ◌≡◌, refl, Option, some, none, Bool, true,
  false,
}

-- The sockets that are made for addresses.
unfoldable pub sockets : List Attempt → List ℕ
sockets [] = []
sockets (a ∷ rest) = elim a.sfd [ none ↦ sockets rest | some sfd ↦ sfd ∷ sockets rest ]

pub Fails : Attempt → Type 0
Fails a = (a.sfd ≡ none) ⊎ (a.done ≡ false)

pub AllFail : List Attempt → Type 0
AllFail [] = Unit
AllFail (a ∷ rest) = Fails a × AllFail rest

-- The first address that works is taken.
pub record IsFirst (attempts : List Attempt) (sfd : ℕ) (closed : List ℕ) : Type 0 where
  pub before : List Attempt
  pub taken : Attempt
  pub after : List Attempt
  pub split : attempts ≡ before ++ taken ∷ after
  pub failed : AllFail before
  pub socket : taken.sfd ≡ some sfd
  pub works : taken.done ≡ true
  pub closes : closed ≡ sockets before

unfoldable pub Chosen : List Attempt → Opened → Type 0
Chosen attempts o =
    ((sfd : ℕ) × (o.result ≡ some sfd) × (o.freed ≡ true) × IsFirst attempts sfd o.closed)
    ⊎ ((o.result ≡ none) × (o.freed ≡ false) × AllFail attempts × (o.closed ≡ sockets attempts))

later :
    (a : Attempt) (rest : List Attempt) (o o' : Opened) (made : List ℕ)
    → Fails a
    → o'.result ≡ o.result
    → o'.freed ≡ o.freed
    → o'.closed ≡ made ++ o.closed
    → ((xs : List Attempt) → sockets (a ∷ xs) ≡ made ++ sockets xs)
    → Chosen rest o
    → Chosen (a ∷ rest) o'
unfolding Chosen AllFail
later a rest o o' made fails same same' closes at (inl (sfd, result, freed, first)) = inl (
  sfd,
  same ∙ result,
  same' ∙ freed,
  record {
    before = a ∷ first.before;
    taken = first.taken;
    after = first.after;
    split = ap (λ xs. a ∷ xs) first.split;
    failed = (fails, first.failed);
    socket = first.socket;
    works = first.works;
    closes = closes ∙ ap (λ xs. made ++ xs) first.closes ∙ sym (at first.before);
  },
)
later a rest o o' made fails same same' closes at (inr (result, freed, failed, closed)) = inr (
  same ∙ result,
  same' ∙ freed,
  (fails, failed),
  closes ∙ ap (λ xs. made ++ xs) closed ∙ sym (at rest),
)

one_address :
    (s : Option ℕ) (done : Bool) (rest : List Attempt)
    → Chosen rest (try_addresses rest)
    → Chosen
        (record { sfd = s; done = done } ∷ rest)
        (try_addresses (record { sfd = s; done = done } ∷ rest))
unfolding try_addresses Chosen AllFail Fails sockets
one_address none done rest ih =
    later (record { sfd = none; done = done }) rest (try_addresses rest) (try_addresses rest) []
      (inl refl) refl refl refl (λ xs. refl) ih
one_address (some sfd) false rest ih =
    later (record { sfd = some sfd; done = false }) rest (try_addresses rest)
      (record (try_addresses rest) { closed = sfd ∷ (try_addresses rest).closed }) (sfd ∷ [])
      (inr refl) refl refl refl (λ xs. refl) ih
one_address (some sfd) true rest ih = inl (
  sfd,
  refl,
  refl,
  record {
    before = [];
    taken = record { sfd = some sfd; done = true };
    after = rest;
    split = refl;
    failed = tt;
    socket = refl;
    works = refl;
    closes = refl;
  },
)

try_addresses-Chosen : (attempts : List Attempt) → Chosen attempts (try_addresses attempts)
unfolding try_addresses Chosen AllFail sockets
try_addresses-Chosen [] = inr (refl, refl, tt, refl)
try_addresses-Chosen (a ∷ rest) = one_address a.sfd a.done rest (try_addresses-Chosen rest)

-- `conn_create` and `bind_create` return the socket of the first address that can be connected or
-- bound, and close exactly the sockets that they made for the addresses before it; when there is
-- none they close every socket that they made, and keep the list of addresses.
pub create-Chosen :
    (attempts : List Attempt)
    → Chosen attempts (conn_create (some attempts)) × Chosen attempts (bind_create (some attempts))
unfolding conn_create bind_create
create-Chosen attempts = (try_addresses-Chosen attempts, try_addresses-Chosen attempts)
