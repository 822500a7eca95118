-- ===== src/Server/Answers.antt =====
-- Answers of `accept`, and what `accept_fd` of src/kvs_server.c is to make of them.
use ckv.Ev.{Cache, ev_read}
use ckv.Ev.Exact.{add_to, greater_fd}
use ckv.Base.Int.{ℤ, pos}
use ckv.Str.{buf_null}
use ckv.Net.{Client}
use ckv.Server.{Arrival, Accepted, arrived, failed, Errno, ends_accept}
use ckv.Base.{
  not, ℕ, ◌≡◌, List, [], ◌∷◌, ◌++◌, Bool, true, false, ltb, ◌==◌, ◌&&◌, ◌||◌, bit_or, if◌then◌else◌,
}

-- The connections among answers of `accept`.
unfoldable pub connections : {U : Type 0} → List (Accepted U) → List ℕ
connections [] = []
connections (arrived a ∷ answers) = a.connfd ∷ connections answers
connections (failed errno ∷ answers) = connections answers

-- Whether `accept_fd` goes on after an answer.
unfoldable pub passes : {U : Type 0} → Errno → Accepted U → Bool
passes errno_of (arrived a) = a.calls.getfl && a.calls.setfl
passes errno_of (failed errno) = not (ends_accept errno_of errno)

unfoldable pub all_pass : {U : Type 0} → Errno → List (Accepted U) → Bool
unfolding passes
all_pass errno_of [] = true
all_pass errno_of (x ∷ xs) = passes errno_of x && all_pass errno_of xs

-- The descriptor of an answer.
unfoldable pub descriptor : {U : Type 0} → Accepted U → List ℕ
descriptor (arrived a) = a.connfd ∷ []
descriptor (failed errno) = []

-- The first of the answers that are left ended the loop, and its descriptor has been closed.
unfoldable pub Stopped :
    {U : Type 0} → Errno → List (Accepted U) → (closed before : List ℕ) → Type 0
Stopped errno_of [] closed before = ⊥
Stopped errno_of (x ∷ xs) closed before =
    (passes errno_of x ≡ false) × (closed ≡ descriptor x ++ before)

unfoldable pub among : ℕ → List ℕ → Bool
among fd [] = false
among fd (c ∷ cs) = (c == fd) || among fd cs

-- A client before its first request.
abbrev pub new_client : Client
new_client = record {
  rbuf = buf_null false;
  nargs = pos 0;
  argv = [];
  room = 0;
  out = [];
  cmd_ok = false;
}

-- The clients of the connections among answers, and the pointer that a connection is registered
-- with: null where there is no memory.
unfoldable pub made : {U : Type 0} → List (Accepted U) → List (U × ℕ × Client)
made [] = []
made (arrived a ∷ answers) =
    (if a.memory then (a.user, a.connfd, new_client) ∷ [] else []) ++ made answers
made (failed errno ∷ answers) = made answers

abbrev pub address : {U : Type 0} → U → Arrival U → U
address null a = if a.memory then a.user else null

-- The status flags of `i` after answers, from `x` on.
unfoldable pub flags_after : {U : Type 0} → ℕ → List (Accepted U) → ℕ → ℕ → ℕ
flags_after o [] i x = x
flags_after o (arrived a ∷ answers) i x =
    flags_after o answers i (if a.connfd == i then bit_or x o else x)
flags_after o (failed errno ∷ answers) i x = flags_after o answers i x

module _ {P U : Type 0} (proc : P) (null : U) where
  -- The registration of `i` after answers, from `c` on, and the highest descriptor, from `top` on,
  -- with room for `size` descriptors.
  unfoldable pub entry_after : ℕ → List (Accepted U) → ℕ → Cache P U → Cache P U
  entry_after size [] i c = c
  entry_after size (arrived a ∷ answers) i c =
      entry_after size answers i
        (if ltb a.connfd size && (a.connfd == i) then add_to ev_read proc (address null a) c else c)
  entry_after size (failed errno ∷ answers) i c = entry_after size answers i c

  unfoldable pub top_after : ℕ → List (Accepted U) → ℤ → ℤ
  top_after size [] top = top
  top_after size (arrived a ∷ answers) top =
      top_after size answers (if ltb a.connfd size then greater_fd ev_read a.connfd top else top)
  top_after size (failed errno ∷ answers) top = top_after size answers top
