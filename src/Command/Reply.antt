-- ===== src/Command/Reply.antt =====
-- `kvs_command_init` and `kvs_command_process` of src/kvs_command.c: the commands that are known,
-- and the reply that a client is left with.
use ckv.Run.{ok, at, Returns}
use ckv.HashFunc.{IsKey}
use ckv.Hash.{Hash, Malloc, new}
use ckv.Hash.Lookup.{add, find, inserted, replaced, no_memory}
use ckv.Hash.Assign.{put}
use ckv.Hash.Table.{Models}
use ckv.Hash.Grow.{new-Models, no_entry}
use ckv.Hash.Map.{add-Models, find-Models, AddEffect}
use ckv.Command.{command_get, Obj}
use ckv.Command.Map.{AllHeld, GetEffect, command_get-Models}
use ckv.Ev.{Ev, ev_add, ev_write, join}
use ckv.Net.{Client}
use ckv.Ev.Select.{Select, select}
use ckv.Ev.Watch.{IsWatching, Changed, ev_add-Changed, mask_at}
use ckv.Command.Process.{
  Handler, run_command, command_process, output_after, get_handler, run_handler, Entry, cmds,
  nul_ended, init_loop, command_init, Server, await_write,
}
use ckv.Base.{
  inl, inr, ◌⊎◌, ◌∙◌, ap, bytes_eq, ◌==◌, not, ◌&&◌, ℕ, suc, ◌+◌, ◌<◌, ◌≤◌, ◌^◌, ◌≡◌, List, [], ◌∷◌,
  length, take-append_of_length, Option, some, none, Bool, true, false, refl, arith,
}

pub nul_ended-IsKey : (q : List ℕ) → length q < 2 ^ 31 → IsKey (nul_ended q) (length q) q
nul_ended-IsKey q short = record {
  short = short;
  held = refl;
  bytes = take-append_of_length q (0 ∷ []) (length q) refl;
}

nil_or_not : {A : Type 0} (xs : List A) → (xs ≡ []) ⊎ (0 < length xs)
nil_or_not [] = inl refl
nil_or_not (x ∷ xs) = inr (omega arith)

at-zero : {A : Type 0} (x : A) (xs : List A) → at (x ∷ xs) 0 ≡ ok x
unfolding at
at-zero x xs = refl

at-one : {A : Type 0} (x y : A) (xs : List A) → at (x ∷ y ∷ xs) 1 ≡ ok y
unfolding at
at-one x y xs = refl

output_after-nil : (out : List (Option ℕ)) → output_after out [] ≡ out
output_after-nil [] = refl
output_after-nil (b ∷ out) = refl

-- The map of the commands, by name.
abbrev pub named : List Entry → (List ℕ → Option Entry) → List ℕ → Option Entry
named [] f = f
named (c ∷ rest) f = named rest (put f c.name (some c))

-- No name is there before, and all fit an `int`.
abbrev AreNew : List Entry → (List ℕ → Option Entry) → Type 0
AreNew [] f = Unit {0}
AreNew (c ∷ rest) f =
    (length c.name < 2 ^ 31) × (f c.name ≡ none) × AreNew rest (put f c.name (some c))

init_loop-Models :
    (k : ℕ) (memory : Malloc) (cs : List Entry) (f : List ℕ → Option Entry) (n : ℕ) {h : Hash Entry}
    → memory.node ≡ true
    → n + length cs ≤ k
    → AreNew cs f
    → Models f n h
    → Returns (Models (named cs f) (n + length cs)) (init_loop k memory h cs)
unfolding init_loop
init_loop-Models k memory [] f n {h} room fuel new_ models =
    let e : n ≡ n + 0 = omega arith in (h, refl, rw e at models)
init_loop-Models k memory (c ∷ rest) f n {h} room fuel (short, unknown, new_) models =
    go
      (add-Models k (nul_ended c.name) (length c.name) c.name (nul_ended-IsKey c.name short) f n
        (omega (arith, fuel)) memory c models)
      (λ h' m.
        init_loop-Models k memory rest (put f c.name (some c)) (suc n) room (omega (arith, fuel))
          new_ m)
  where
    Rest : Hash Entry → Type 0
    Rest h' =
        Returns (Models (named rest (put f c.name (some c))) (suc n + length rest))
          (init_loop k memory h' rest)

    go :
        Returns
          (AddEffect k
            (nul_ended c.name)
            (length c.name)
            c.name
            (nul_ended-IsKey c.name short)
            f
            n
            (omega (arith, fuel))
            memory
            c)
          (add k memory h (nul_ended c.name) (length c.name) c)
        → ((h' : Hash Entry) → Models (put f c.name (some c)) (suc n) h' → Rest h')
        → Returns
            (Models (named (c ∷ rest) f) (n + length (c ∷ rest)))
            (init_loop k memory h (c ∷ rest))
    go ((inserted, h'), run, (z, m)) ih =
        let (h'', run', m') = ih h' m in
        let e : suc n + length rest ≡ n + suc (length rest) = omega arith in
        (h'', rw (init_loop, run) run', rw e at m')
    go ((replaced w, h'), run, (known, m)) ih = cc
    go ((no_memory, h'), run, (z, no_room, m)) ih = cc

-- If there is memory for the table and for every entry, and the fuel is at least eleven,
-- `kvs_command_init` returns without a fault, and the table is sound and stands for the map of
-- exactly the eleven commands, each under its name.
pub command_init-Models :
    (k : ℕ) (table : Bool) (memory : Malloc) (h : Hash Entry)
    → new table 12 ≡ some h
    → memory.node ≡ true
    → 11 ≤ k
    → Returns (Models (named cmds no_entry) 11) (command_init k table memory)
unfolding command_init bytes_eq
command_init-Models k table memory h made room fuel =
    rw (command_init, made)
      (init_loop-Models k memory cmds no_entry 0 {h = h} room (omega (arith, fuel)) all_new
        (new-Models table 12 made))
  where
    all_new : AreNew cmds no_entry
    all_new = (
      omega arith,
      refl,
      (
        omega arith,
        refl,
        (
          omega arith,
          refl,
          (
            omega arith,
            refl,
            (
              omega arith,
              refl,
              (
                omega arith,
                refl,
                (
                  omega arith,
                  refl,
                  (
                    omega arith,
                    refl,
                    (omega arith, refl, (omega arith, refl, (omega arith, refl, tt))),
                  ),
                ),
              ),
            ),
          ),
        ),
      ),
    )

-- A sound server that knows `get` and in which every buffer has memory, and the fuel.
pub record IsReady {P U : Type 0} (k : ℕ) (fd : ℕ) (s : Server (Ev Select P U))
    (f : List ℕ → Option Obj) (n : ℕ) (commands : List ℕ → Option Entry) (m : ℕ) : Type 0 where
  pub table : Models f n s.hash
  pub buffers : AllHeld f
  pub known : Models commands m s.commands
  pub watching : IsWatching s.ev
  pub inside : fd < s.ev.size
  pub entries_lt : n < k
  pub commands_lt : m < k

module _ (decimal : ℕ → List ℕ) (k : ℕ) (memory : Malloc) (grown : Bool) {P U : Type 0}
    (events : Bool) (net_write_proc : P) (user : U) (fd : ℕ) where
  -- The descriptor is watched for writing, unless there is nothing to write.
  abbrev pub Awaited : Client → Ev Select P U → Type 0
  Awaited c e = IsWatching e × ((c.out ≡ []) ⊎ ((mask_at e.cache fd).write ≡ true))

  await_write-Awaited :
      (e : Ev Select P U) (c : Client)
      → IsWatching e
      → fd < e.size
      → c.cmd_ok ≡ true
      → Returns
          (Awaited c)
          (await_write decimal k memory grown (select events) net_write_proc e fd user c)
  unfolding await_write
  await_write-Awaited e c w inside flag = elim (nil_or_not c.out) [
    | inl nothing ↦
        let idle : (c.cmd_ok && not (length c.out == 0)) ≡ false =
          ground (arith, flag, ap length nothing) in
        (e, rw (idle, await_write), (w, inl nothing))
    | inr some_out ↦
        let writes : (c.cmd_ok && not (length c.out == 0)) ≡ true =
          ground (arith, flag, some_out) in
        go writes (ev_add-Changed events fd ev_write net_write_proc user w)
  ]
    where
      go :
          (c.cmd_ok && not (length c.out == 0)) ≡ true
          → Returns
              (Changed e (λ m. join m ev_write) fd)
              (ev_add (select events) e fd ev_write net_write_proc user)
          → Returns
              (Awaited c)
              (await_write decimal k memory grown (select events) net_write_proc e fd user c)
      go writes ((r, e'), run, ch) = (
        e',
        rw (writes, run, await_write),
        (ch.sound, inr (rw (ch.masks fd) (ground (arith, inside)))),
      )

  run_get :
      (c : Client) (h : Hash Obj) (key : List ℕ) (f : List ℕ → Option Obj) (n : ℕ) (fuel : n < k)
      → at c.argv 1 ≡ ok key
      → (short : length key < 2 ^ 31) → c.out ≡ []
      → Returns
          (λ (out, h').
            GetEffect decimal k
              (nul_ended key)
              (length key)
              key
              (nul_ended-IsKey key short)
              f
              n
              fuel
              (f key)
              out
            × Models f n h')
          (command_get decimal k h (nul_ended key) (length key))
      → Returns
          (λ (c', h').
            GetEffect decimal k
              (nul_ended key)
              (length key)
              key
              (nul_ended-IsKey key short)
              f
              n
              fuel
              (f key)
              c'.out
            × Models f n h'
            × (c' ≡ record c { out = c'.out }))
          (run_handler decimal k memory grown get_handler h c)
  unfolding run_handler
  run_get c h key f n fuel at_key short no_out ((out, h'), run, (effect, models)) = (
    (record c { out = out }, h'),
    rw (run_handler, at_key, run) (ap (λ o. ok (record c { out = o }, h')) kept),
    (effect, models, refl),
  )
    where
      kept : output_after out c.out ≡ out
      kept = ap (output_after out) no_out ∙ output_after-nil out

  run_command-some :
      (e : Entry) (h : Hash Obj) (c : Client) {handler : Handler}
      → e.cmd ≡ handler
      → run_command decimal k memory grown (some e) h c
        ≡ run_handler decimal k memory grown handler h c
  unfolding run_command
  run_command-some e h c is_handler = ap (λ x. run_handler decimal k memory grown x h c) is_handler

  -- What the client and the server are left with after a `get`.
  abbrev pub GetDone :
      (key : List ℕ)
      → length key < 2 ^ 31
      → (f : List ℕ → Option Obj) (n : ℕ) → n < k
      → (List ℕ → Option Entry)
      → ℕ
      → Client
      → Client × Server (Ev Select P U)
      → Type 0
  GetDone key short f n fuel commands m before (c, s) =
      GetEffect decimal k (nul_ended key) (length key) key (nul_ended-IsKey key short) f n fuel
        (f key) c.out
      × Models f n s.hash
      × Models commands m s.commands
      × Awaited c s.ev
      × (c ≡ record before { out = c.out })

  -- A client with a whole request of at least two arguments, the first two of fewer than 2 ^ 31
  -- bytes, of which the first names a command for the handler of `get`, and with an empty output,
  -- on a sound server with more fuel than its tables have entries: `kvs_command_process` returns
  -- without a fault. The output is the reply to `get` for what the map has at the second argument
  -- and the rest of the client is as before, the tables are sound and stand for the same maps, and
  -- `select` watches what is registered, in particular the descriptor for writing unless the output
  -- is empty.
  pub command_process-GetDone :
      (s : Server (Ev Select P U)) (c : Client) (name key : List ℕ) (rest : List (List ℕ))
      (e : Entry) {f : List ℕ → Option Obj} {n : ℕ} {commands : List ℕ → Option Entry} {m : ℕ}
      (ready : IsReady k fd s f n commands m)
      → c.cmd_ok ≡ true
      → c.out ≡ []
      → c.argv ≡ name ∷ key ∷ rest
      → length name < 2 ^ 31
      → (short : length key < 2 ^ 31) → commands name ≡ some e
      → e.cmd ≡ get_handler
      → Returns
          (GetDone key short f n ready.entries_lt commands m c)
          (command_process decimal k memory grown (select events) net_write_proc s fd user c)
  unfolding command_process
  command_process-GetDone s c name key rest e {f} {n} {commands} {m} ready flag no_out args
        name_short short is_known is_get =
      found (
        find-Models k (nul_ended name) (length name) name (nul_ended-IsKey name name_short) commands
          m ready.commands_lt ready.known)
    where
      Done : Type 0
      Done =
          Returns (GetDone key short f n ready.entries_lt commands m c)
            (command_process decimal k memory grown (select events) net_write_proc s fd user c)

      at_name : at c.argv 0 ≡ ok name
      at_name = ap (λ l. at l 0) args ∙ at-zero name (key ∷ rest)

      finish :
          {h₁ : Hash Entry} {c' : Client} {h' : Hash Obj}
          → find k s.commands (nul_ended name) (length name) ≡ ok (some e, h₁)
          → Models commands m h₁
          → run_command decimal k memory grown (some e) s.hash c ≡ ok (c', h')
          → GetEffect decimal k
              (nul_ended key)
              (length key)
              key
              (nul_ended-IsKey key short)
              f
              n
              ready.entries_lt
              (f key)
              c'.out
          → Models f n h'
          → c' ≡ record c { out = c'.out }
          → Returns
              (Awaited c')
              (await_write decimal k memory grown (select events) net_write_proc s.ev fd user c')
          → Done
      finish {h₁} {c'} {h'} run models₁ ran effect models kept (ev, waits, awaited) = (
        (c', record { hash = h'; commands = h₁; ev = ev }),
        rw (command_process, ap not flag, at_name, run, ran, waits),
        (effect, models, models₁, awaited, kept),
      )

      handled :
          {h₁ : Hash Entry}
          → find k s.commands (nul_ended name) (length name) ≡ ok (some e, h₁)
          → Models commands m h₁
          → Returns
              (λ (c', h').
                GetEffect decimal k
                  (nul_ended key)
                  (length key)
                  key
                  (nul_ended-IsKey key short)
                  f
                  n
                  ready.entries_lt
                  (f key)
                  c'.out
                × Models f n h'
                × (c' ≡ record c { out = c'.out }))
              (run_handler decimal k memory grown get_handler s.hash c)
          → Done
      handled run models₁ ((c', h'), run', (effect, models, kept)) =
          finish run models₁ (run_command-some e s.hash c is_get ∙ run') effect models kept (
            await_write-Awaited s.ev c' ready.watching ready.inside
              (ap (λ x. x.cmd_ok) kept ∙ flag))

      found :
          Returns
            (λ (o, h₁). (o ≡ commands name) × Models commands m h₁)
            (find k s.commands (nul_ended name) (length name))
          → Done
      found ((o, h₁), run, (known, models₁)) =
          handled (run ∙ ap (λ x. ok (x, h₁)) (known ∙ is_known)) models₁ (
            run_get c s.hash key f n ready.entries_lt (ap (λ l. at l 1) args ∙ at-one name key rest)
              short no_out
              (command_get-Models decimal k (nul_ended key) (length key) key
                (nul_ended-IsKey key short) f n ready.entries_lt ready.buffers ready.table))
