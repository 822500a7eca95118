-- ===== src/Command.antt =====
-- src/kvs_command.c: `kvs_cmd_set`, `kvs_cmd_get` and the handlers of `set` and `get`, on the
-- table of the server, whose values are the objects of src/kvs_obj.c.
--
-- `decimal` is what `%d` of `snprintf` prints for a number that is not negative. A key is the
-- memory of its buffer with the buffer's length. What the functions log is left out, with the copy
-- of the value that `kvs_cmd_get` makes for it; so is the release of the memory of an old value.
pub mod Map
pub mod Reply
pub mod Session
pub mod Process
pub mod Edit
pub mod Handlers
pub mod Tests
use ckv.Run.{ok, ◌>>=◌}
use ckv.Base.Int.{pos}
use ckv.Str.Range.{read_from}
use ckv.Run.{Run}
use ckv.Hash.{Hash, Malloc}
use ckv.Str.{written, Buf}
use ckv.Hash.Lookup.{find, add, Added, replaced, inserted, no_memory}
use ckv.Base.{◌++◌, ◌+◌, ◌-◌, ◌*◌, ltb, if◌then◌else◌, none, [], some, ◌∷◌, Option, List, ℕ}

-- `kvs_obj_t`; what a list holds plays no part here.
pub data Obj : Type 0 where
  buf_obj : Buf → Obj
  list_obj : Obj

-- `MSG_OK` and `MSG_ERR`
abbrev pub msg_ok : List ℕ
msg_ok = 43 ∷ 79 ∷ 75 ∷ 13 ∷ 10 ∷ []

abbrev pub msg_err : List ℕ
msg_err = 36 ∷ 45 ∷ 49 ∷ 13 ∷ 10 ∷ []

-- The old value that `kvs_cmd_set` frees.
unfoldable pub freed : Added Obj → Option Obj
freed (replaced v) = some v
freed inserted = none
freed no_memory = none

unfoldable pub cmd_set :
    ℕ → Malloc → Hash Obj → List ℕ → ℕ → Obj → Run (Added Obj × Option Obj × Hash Obj)
unfolding freed
cmd_set f memory h k klen val = do (rv, h') ← add f memory h k klen val; ok (rv, freed rv, h')

-- `none` is the result -1.
unfoldable pub buf_of : Option Obj → Option Buf
buf_of none = none
buf_of (some list_obj) = none
buf_of (some (buf_obj b)) = some b

unfoldable pub cmd_get : ℕ → Hash Obj → List ℕ → ℕ → Run (Option Buf × Hash Obj)
unfolding buf_of
cmd_get f h k klen = do (p, h') ← find f h k klen; ok (buf_of p, h')

-- The bytes of `wbuf` up to `wpos`, after the handler.
unfoldable pub command_set :
    ℕ → Malloc → Hash Obj → List ℕ → ℕ → Obj → Run (List (Option ℕ) × Hash Obj)
unfolding cmd_set
command_set f memory h k klen val = do
  (rv, old, h') ← cmd_set f memory h k klen val
  ok (written msg_ok, h')

-- `$%d\r\n` and the bytes, if they fit; otherwise the output stays as it was, that is, empty.
unfoldable pub reply_buf : (decimal : ℕ → List ℕ) → Buf → Run (List (Option ℕ))
reply_buf decimal b =
    if ltb b.len (16 * 1024 - 32 + 3)
    then (read_from b.cells (pos 0) b.len >>= λ bytes.
        ok (written (36 ∷ decimal b.len ++ 13 ∷ 10 ∷ []) ++ bytes))
    else ok []

unfoldable pub command_get :
    (decimal : ℕ → List ℕ) → ℕ → Hash Obj → List ℕ → ℕ → Run (List (Option ℕ) × Hash Obj)
unfolding cmd_get reply_buf
command_get decimal f h k klen = do
  (val, h') ← cmd_get f h k klen
  elim val [
    | none ↦ ok (written msg_err, h')
    | some b ↦ reply_buf decimal b >>= λ out. ok (out, h')
  ]
