-- ===== src/Command/Tests.antt =====
-- The theorems on src/kvs_command.c at a small table.
use mathlib.Core.Option.{some-injective}
use mathlib.Core.Path.{subst}
use ckv.Hash.Assign.{put}
use ckv.Hash.Table.{Steady, home, chain_at-replicate, home_chain, steady, Models}
use ckv.Hash.Insert.{chains_with, bucket_with, insert-Steady, heap_with}
use ckv.Hash.Grow.{fresh_hash-Steady, empties, no_entry, fresh_hash}
use ckv.Str.Text.{Held}
use ckv.Run.{◌>>=◌, Returns}
use ckv.Command.Map.{command_set-Models, SetEffect, AllHeld}
use ckv.Hash.Chain.{Chain, first, count}
use ckv.Hash.{Hash, Malloc}
use ckv.Base.Int.{pos}
use ckv.Ev.{Ev}
use ckv.Ev.Select.{Select, select}
use ckv.Ev.Tests.{ev_two, ev_two-IsWatching}
use ckv.Net.{Client}
use ckv.Command.Handlers.{command_del, command_append}
use ckv.Command.Map.{get_reply}
use ckv.Command.Session.{command_del-command_get, command_set-command_get}
use ckv.Hash.Remove.{fewer}
use ckv.Command.Edit.{AppendEffect, command_append-Models}
use ckv.Command.Process.{Entry, entry, get_name, get_handler, Server, command_process}
use ckv.Command.Reply.{IsReady, GetDone, command_process-GetDone}
use ckv.HashFunc.{IsKey}
use ckv.Str.{buf_null, written, Buf}
use ckv.Command.{msg_err, command_set, msg_ok, command_get, Obj, buf_obj, list_obj}
use ckv.Base.{
  ◌≢◌, inr, ap, inl, true, bytes_eq, false, refl, Bool-cases, [], ◌≡◌, ◌+◌, none, Option, arith,
  ◌∷◌, some, List, ℕ,
}

abbrev pub buf_x : Buf
buf_x = record {
  cells = some (some 120 ∷ some 0 ∷ []);
  len = 1;
  alloc = 2;
  is_buffer = false;
  inline_ = false;
}

buf_x-Held : Held buf_x (120 ∷ [])
unfolding written
buf_x-Held = record {
  slack = some 0 ∷ [];
  cells = refl;
  len = refl;
  alloc = refl;
  room = omega arith;
}

abbrev pub key_a : List ℕ
key_a = 97 ∷ []

key_a-IsKey : IsKey key_a 1 key_a
key_a-IsKey = record { short = omega arith; held = refl; bytes = refl }

-- A table in which "a" has the value "x".
abbrev pub map_x : List ℕ → Option Obj
map_x = put no_entry key_a (some (buf_obj buf_x))

abbrev pub empty_two : Hash Obj
empty_two = fresh_hash 2

abbrev pub hash_x : Hash Obj
hash_x = record empty_two {
  heap =
      heap_with key_a (buf_obj buf_x) empty_two.heap
        (first (home_chain empty_two.buckets (empties {V = Obj} 2) key_a));
  buckets = bucket_with key_a (buf_obj buf_x) empty_two.heap empty_two.buckets;
}

pub hash_x-Models : Models map_x 1 hash_x
unfolding count
hash_x-Models = steady _ (
    insert-Steady key_a (buf_obj buf_x) (fresh_hash-Steady {V = Obj} 2 (omega arith))
      (rw (chain_at-replicate {V = Obj} 2 (home 1 key_a)) refl))

abbrev buf_in : Obj → Buf
buf_in (buf_obj b) = b
buf_in list_obj = buf_x

pub map_x-AllHeld : AllHeld map_x
map_x-AllHeld q b e = elim (Bool-cases (bytes_eq key_a q)) [
  | inl same ↦ (
    120 ∷ [],
    subst (λ x. Held x (120 ∷ []))
        (ap buf_in (some-injective (buf_obj buf_x) (buf_obj b) (rw same at e))) buf_x-Held,
  )
  | inr differ ↦ let missing : none ≡ some (buf_obj b) = rw differ at e in cc
]

-- One digit is enough for the lengths here.
abbrev pub digit : ℕ → List ℕ
digit n = (48 + n) ∷ []

command_set-Models_example :
    Returns
      (λ (out, h').
        (out ≡ written msg_ok)
        × SetEffect digit 2 key_a 1 key_a key_a-IsKey map_x 1
            (omega arith)
            (record { bucket = true; node = true })
            list_obj
            h')
      (command_set 2 (record { bucket = true; node = true }) hash_x key_a 1 list_obj)
command_set-Models_example =
    command_set-Models digit 2 key_a 1 key_a key_a-IsKey map_x 1 (omega arith)
      (record { bucket = true; node = true }) list_obj hash_x-Models

abbrev pub plenty : Malloc
plenty = record { bucket = true; node = true }

no_list : map_x key_a ≢ some list_obj
unfolding bytes_eq
no_list e = cc

-- Another text for the same key.
command_append-Models_example :
    Returns
      (λ (out, h').
        AppendEffect digit 2 key_a 1 key_a key_a-IsKey map_x 1
          (omega arith)
          plenty
          true
          (121 ∷ [])
          (map_x key_a)
          out
          h')
      (command_append digit 2 plenty true hash_x key_a 1 (121 ∷ []))
command_append-Models_example =
    command_append-Models digit 2 key_a 1 key_a key_a-IsKey map_x 1 (omega arith) plenty true
      (121 ∷ []) map_x-AllHeld no_list hash_x-Models

-- A table that knows `get`.
abbrev pub get_entry : Entry
get_entry = entry get_name get_handler 2

abbrev no_commands : Hash Entry
no_commands = fresh_hash 2

abbrev pub commands_map : List ℕ → Option Entry
commands_map = put no_entry get_name (some get_entry)

abbrev pub commands_get : Hash Entry
commands_get = record no_commands {
  heap =
      heap_with get_name get_entry no_commands.heap
        (first (home_chain no_commands.buckets (empties {V = Entry} 2) get_name));
  buckets = bucket_with get_name get_entry no_commands.heap no_commands.buckets;
}

commands_get-Models : Models commands_map 1 commands_get
unfolding count
commands_get-Models = steady _ (
    insert-Steady get_name get_entry (fresh_hash-Steady {V = Entry} 2 (omega arith))
      (rw (chain_at-replicate {V = Entry} 2 (home 1 get_name)) refl))

abbrev pub server : Server (Ev Select ℕ ℕ)
server = record { hash = hash_x; commands = commands_get; ev = ev_two }

pub server-IsReady : IsReady 2 2 server map_x 1 commands_map 1
server-IsReady = record {
  table = hash_x-Models;
  buffers = map_x-AllHeld;
  known = commands_get-Models;
  watching = ev_two-IsWatching;
  inside = omega arith;
  entries_lt = omega arith;
  commands_lt = omega arith;
}

abbrev asking : Client
asking = record {
  rbuf = buf_null false;
  nargs = pos 0;
  argv = get_name ∷ key_a ∷ [];
  room = 2;
  out = [];
  cmd_ok = true;
}

command_process-GetDone_example :
    Returns
      (GetDone digit 2 plenty true true 7 9 2 key_a
        (omega arith)
        map_x
        1
        (omega arith)
        commands_map
        1
        asking)
      (command_process digit 2 plenty true (select true) 7 server 2 9 asking)
unfolding bytes_eq
command_process-GetDone_example =
    command_process-GetDone digit 2 plenty true true 7 9 2 server asking get_name key_a [] get_entry
      server-IsReady refl refl refl (omega arith) (omega arith) refl refl

abbrev chains_x : List (Chain Obj)
chains_x = chains_with key_a (buf_obj buf_x) empty_two.heap empty_two.buckets (empties 2)

hash_x-Steady : Steady map_x 1 hash_x chains_x
unfolding count
hash_x-Steady =
    insert-Steady key_a (buf_obj buf_x) (fresh_hash-Steady {V = Obj} 2 (omega arith))
      (rw (chain_at-replicate {V = Obj} 2 (home 1 key_a)) refl)

command_del-command_get_example :
    Returns
      (λ (out, h').
        (out ≡ written msg_err) × Models (put map_x key_a none) (fewer (map_x key_a) 1) h')
      (command_del 2 hash_x key_a 1 >>= λ (reply, h'). command_get digit 2 h' key_a 1)
command_del-command_get_example =
    command_del-command_get digit 2 key_a 1 key_a key_a-IsKey map_x 1 (omega arith) map_x-AllHeld
      hash_x-Steady

command_set-command_get_example :
    Returns
      (λ (out, h'). out ≡ get_reply digit (120 ∷ []))
      (command_set 3 plenty hash_x key_a 1 (buf_obj buf_x) >>= λ (reply, h').
        command_get digit 3 h' key_a 1)
command_set-command_get_example =
    command_set-command_get digit 3 key_a 1 key_a key_a-IsKey map_x 1 plenty (omega arith) refl
      map_x-AllHeld buf_x-Held hash_x-Models
