-- ===== src/Command/Handlers.antt =====
-- src/kvs_command.c: `del`, `append` and the handlers of lists, which only log.
use ckv.Run.{Run, ok, fault, ◌>>=◌}
use ckv.Str.{Buf, written, append}
use ckv.Hash.{Hash, Malloc, load, write, Node}
use ckv.Hash.Lookup.{find_core, add, del}
use ckv.Command.{Obj, buf_obj, list_obj}
use ckv.Base.{ℕ, ◌+◌, List, [], ◌∷◌, ◌++◌, length, Option, some, none, Bool, true, false}

-- `MSG_TRUE` and `MSG_FALSE`
abbrev pub msg_true : List ℕ
msg_true = 58 ∷ 49 ∷ 13 ∷ 10 ∷ []

abbrev pub msg_false : List ℕ
msg_false = 58 ∷ 48 ∷ 13 ∷ 10 ∷ []

-- The buffer that `kvs_obj_buf_new` makes of the bytes of an argument, where there is memory.
abbrev pub obj_buf : List ℕ → Buf
obj_buf text = record {
  cells = some (written text ++ some 0 ∷ []);
  len = length text;
  alloc = length text + 1;
  is_buffer = false;
  inline_ = false;
}

-- `kvs_cmd_del`: the value that is freed, if there was one, and else the result -1.
unfoldable pub cmd_del : ℕ → Hash Obj → List ℕ → ℕ → Run (Option Obj × Hash Obj)
cmd_del f h k klen = del f h k klen

unfoldable pub del_reply : Option Obj → List ℕ
del_reply none = msg_false
del_reply (some v) = msg_true

-- `kvs_command_del`
unfoldable pub command_del : ℕ → Hash Obj → List ℕ → ℕ → Run (List (Option ℕ) × Hash Obj)
unfolding cmd_del del_reply
command_del f h k klen = do (v, h') ← cmd_del f h k klen; ok (written (del_reply v), h')

-- The second part of `kvs_cmd_append`, on the buffer at a node. `grown` says whether there is
-- memory for the longer text.
unfoldable pub append_at : (grown : Bool) → Hash Obj → ℕ → List ℕ → Node Obj → Run (ℕ × Hash Obj)
append_at grown h p text n = elim n.val [
  | list_obj ↦ fault
  | buf_obj b ↦ append true grown b text >>= λ (result, b').
      ok (b'.len, record h { heap = write h.heap p (some (record n { val = buf_obj b' })) })
]

-- `kvs_cmd_append`: the length that it returns. `text` is what the second argument holds.
unfoldable pub cmd_append :
    ℕ → Malloc → (grown : Bool) → Hash Obj → List ℕ → ℕ → List ℕ → Run (ℕ × Hash Obj)
unfolding append_at
cmd_append f memory grown h k klen text = do
  (r, h') ← find_core f h k klen
  elim r.place [
    | none ↦
        add f memory h' k klen (buf_obj (obj_buf text)) >>= λ (result, h''). ok (length text, h'')
    | some (pp, p) ↦ load h'.heap p >>= λ n. append_at grown h' p text n
  ]

-- `kvs_command_append`
unfoldable pub command_append :
    (decimal : ℕ → List ℕ)
    → ℕ
    → Malloc
    → (grown : Bool) → Hash Obj
    → List ℕ
    → ℕ
    → List ℕ
    → Run (List (Option ℕ) × Hash Obj)
unfolding cmd_append
command_append decimal f memory grown h k klen text = do
  (n, h') ← cmd_append f memory grown h k klen text
  ok (written (58 ∷ (decimal n ++ 13 ∷ 10 ∷ [])), h')
