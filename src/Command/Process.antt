-- ===== src/Command/Process.antt =====
-- src/kvs_command.c: the table of commands (`kvs_command_init`) and `kvs_command_process`.
--
-- The arguments of a client are objects with buffers, which hold the bytes and a NUL.
use ckv.Run.{Run, ok, fault, ◌>>=◌, at}
use ckv.Hash.{Hash, Malloc, new}
use ckv.Hash.Lookup.{find, add}
use ckv.Net.{Client}
use ckv.Ev.{Ev, Vtable, ev_add, ev_write}
use ckv.Command.{Obj, buf_obj, command_set, command_get}
use ckv.Command.Handlers.{obj_buf, command_del, command_append}
use ckv.Base.{
  ℕ, List, [], ◌∷◌, ◌++◌, length, Option, some, none, Bool, not, ◌&&◌, ◌==◌, if◌then◌else◌,
}

pub data Handler : Type 0 where
  set_handler get_handler del_handler list_handler append_handler : Handler

-- `kvs_command_t`
pub record Entry : Type 0 where
  pub name : List ℕ
  pub cmd : Handler
  pub nargs : ℕ

abbrev pub entry : List ℕ → Handler → ℕ → Entry
entry name cmd nargs = record { name = name; cmd = cmd; nargs = nargs }

abbrev pub set_name : List ℕ
set_name = 115 ∷ 101 ∷ 116 ∷ []

abbrev pub get_name : List ℕ
get_name = 103 ∷ 101 ∷ 116 ∷ []

abbrev pub del_name : List ℕ
del_name = 100 ∷ 101 ∷ 108 ∷ []

abbrev pub append_name : List ℕ
append_name = 97 ∷ 112 ∷ 112 ∷ 101 ∷ 110 ∷ 100 ∷ []

-- `cmds`: set, get, del, lpush, rpush, lange, llen, lpop, rpop, lterm and append
abbrev pub cmds : List Entry
cmds =
    entry set_name set_handler 3
    ∷ entry get_name get_handler 2
    ∷ entry del_name del_handler 2
    ∷ entry (108 ∷ 112 ∷ 117 ∷ 115 ∷ 104 ∷ []) list_handler 3
    ∷ entry (114 ∷ 112 ∷ 117 ∷ 115 ∷ 104 ∷ []) list_handler 3
    ∷ entry (108 ∷ 97 ∷ 110 ∷ 103 ∷ 101 ∷ []) list_handler 3
    ∷ entry (108 ∷ 108 ∷ 101 ∷ 110 ∷ []) list_handler 2
    ∷ entry (108 ∷ 112 ∷ 111 ∷ 112 ∷ []) list_handler 2
    ∷ entry (114 ∷ 112 ∷ 111 ∷ 112 ∷ []) list_handler 2
    ∷ entry (108 ∷ 116 ∷ 101 ∷ 114 ∷ 109 ∷ []) list_handler 2
    ∷ entry append_name append_handler 3
    ∷ []

-- What `p` points at where `len` is the length.
abbrev pub nul_ended : List ℕ → List ℕ
nul_ended q = q ++ 0 ∷ []

unfoldable pub init_loop : ℕ → Malloc → Hash Entry → List Entry → Run (Hash Entry)
init_loop f memory h [] = ok h
init_loop f memory h (c ∷ rest) = do
  (result, h') ← add f memory h (nul_ended c.name) (length c.name) c
  init_loop f memory h' rest

-- `kvs_command_init`; a null table is not tested for.
unfoldable pub command_init : ℕ → (table : Bool) → Malloc → Run (Hash Entry)
unfolding init_loop
command_init f table memory = elim (new {V = Entry} table 12) [
  | none ↦ fault
  | some h ↦ init_loop f memory h cmds
]

-- The part of `kvs_server` that requests use.
pub record Server (L : Type 0) : Type 0 where
  pub hash : Hash Obj
  pub commands : Hash Entry
  pub ev : L

-- `get` leaves the output as it was where the text is too long for a reply.
abbrev pub output_after : List (Option ℕ) → List (Option ℕ) → List (Option ℕ)
output_after [] old = old
output_after (b ∷ new_) old = b ∷ new_

module _ (decimal : ℕ → List ℕ) (f : ℕ) (memory : Malloc) (grown : Bool) where
  -- `cmd->cmd(c)`
  unfoldable pub run_handler : Handler → Hash Obj → Client → Run (Client × Hash Obj)
  unfolding command_set command_get command_del command_append
  run_handler set_handler h c = do
    key ← at c.argv 1
    val ← at c.argv 2
    (out, h') ← command_set f memory h (nul_ended key) (length key) (buf_obj (obj_buf val))
    ok (record c { out = out }, h')
  run_handler get_handler h c = do
    key ← at c.argv 1
    (out, h') ← command_get decimal f h (nul_ended key) (length key)
    ok (record c { out = output_after out c.out }, h')
  run_handler del_handler h c = do
    key ← at c.argv 1
    (out, h') ← command_del f h (nul_ended key) (length key)
    ok (record c { out = out }, h')
  run_handler list_handler h c = ok (c, h)
  run_handler append_handler h c = do
    key ← at c.argv 1
    val ← at c.argv 2
    (out, h') ← command_append decimal f memory grown h (nul_ended key) (length key) val
    ok (record c { out = out }, h')

  -- An unknown command is only logged, and so is a wrong number of arguments.
  unfoldable pub run_command : Option Entry → Hash Obj → Client → Run (Client × Hash Obj)
  unfolding run_handler
  run_command none h c = ok (c, h)
  run_command (some e) h c = run_handler e.cmd h c

  module _ {B W P U : Type 0} (vt : Vtable B W P U) (net_write_proc : P) where
    -- The end of `kvs_command_process`: an output is to be written.
    unfoldable pub await_write : Ev B P U → ℕ → U → Client → Run (Ev B P U)
    await_write e fd user c =
        if c.cmd_ok && not (length c.out == 0)
        then (ev_add vt e fd ev_write net_write_proc user >>= λ (result, e'). ok e')
        else ok e

    -- `kvs_command_process`; `user` is the pointer to the client.
    unfoldable pub command_process :
        Server (Ev B P U) → ℕ → U → Client → Run (Client × Server (Ev B P U))
    unfolding run_command await_write
    command_process s fd user c = if not c.cmd_ok then ok (c, s) else do
      name ← at c.argv 0
      (e, commands) ← find f s.commands (nul_ended name) (length name)
      (c', h) ← run_command e s.hash c
      ev ← await_write s.ev fd user c'
      ok (c', record { hash = h; commands = commands; ev = ev })
