-- ===== src/Cli.antt =====
-- src/kvs_cli.c, `marshal`: a request as the client's program writes it.
pub mod Sent
pub mod Connect
pub mod Tests
use ckv.Run.{Run, ok, ◌>>=◌}
use ckv.Base.Int.{pos}
use ckv.Str.{Buf, buf_null, append}
use ckv.Str.Print.{append_sprintf}
use ckv.Str.Range.{read_from}
use ckv.Base.{ℕ, List, [], ◌∷◌, ◌++◌, length, Option, Bool, true}

-- The loop over the arguments; what the calls return is not looked at. `decimal` is what `%d`
-- prints, and `memory` says whether there is memory when the buffer grows.
unfoldable pub marshal_args :
    (decimal : ℕ → List ℕ) → (memory : Bool) → Buf → List (List ℕ) → Run Buf
unfolding append_sprintf append
marshal_args decimal memory b [] = ok b
marshal_args decimal memory b (a ∷ args) = do
  (n, b) ← append_sprintf true memory b (36 ∷ (decimal (length a) ++ 13 ∷ 10 ∷ []))
  (n, b) ← append true memory b a
  (n, b) ← append_sprintf true memory b (13 ∷ 10 ∷ [])
  marshal_args decimal memory b args

-- `marshal`: the bytes that `write` is given.
unfoldable pub marshal :
    (decimal : ℕ → List ℕ) → (memory : Bool) → List (List ℕ) → Run (List (Option ℕ))
unfolding marshal_args append_sprintf
marshal decimal memory args = do
  (n, b) ← append_sprintf true memory (buf_null true) (42 ∷ (decimal (length args) ++ 13 ∷ 10 ∷ []))
  b ← marshal_args decimal memory b args
  read_from b.cells (pos 0) b.len
