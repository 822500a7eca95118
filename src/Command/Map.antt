-- ===== src/Command/Map.antt =====
-- The handlers of src/kvs_command.c on the map that the server's table stands for.
use ckv.Hash.Lookup.{replaced, inserted, no_memory}
use ckv.Hash.Assign.{put}
use ckv.Str.Range.{read_from-written}
use ckv.Hash.Map.{add-Models, AddEffect, find-Models}
use ckv.Hash.Lookup.{add, find}
use ckv.Run.{ok, Returns}
use ckv.Hash.Table.{Models}
use ckv.Hash.{Malloc, Hash}
use ckv.Str.Text.{Held}
use ckv.HashFunc.{IsKey}
use ckv.Str.{written, Buf}
use ckv.Command.{
  replaced, msg_ok, cmd_set, command_set, buf_of, cmd_get, msg_err, command_get, Obj, reply_buf,
  buf_obj, list_obj,
}
use ckv.Base.{
  ◌⊎◌, suc, false, true, Bool, take-length, arith, refl, inl, inr, sym, Bool-cases, [], none, ◌++◌,
  ◌∷◌, length, some, ◌<◌, ltb, ◌≡◌, if◌then◌else◌, Option, List, ℕ,
}

abbrev pub is_none : Option Obj → Bool
is_none none = true
is_none (some v) = false

-- Every buffer in the map has memory.
abbrev pub AllHeld : (List ℕ → Option Obj) → Type 0
AllHeld f = (q : List ℕ) (b : Buf) → f q ≡ some (buf_obj b) → (s : List ℕ) × Held b s

-- The reply to `get` for what the map has at the key.
abbrev pub get_reply : (ℕ → List ℕ) → List ℕ → List (Option ℕ)
get_reply decimal s =
    if ltb (length s) 16355
    then written (36 ∷ decimal (length s) ++ 13 ∷ 10 ∷ []) ++ written s
    else []

reply_buf-Held :
    (decimal : ℕ → List ℕ) {b : Buf} {s : List ℕ}
    → Held b s
    → reply_buf decimal b ≡ ok (get_reply decimal s)
unfolding reply_buf
reply_buf-Held decimal {b} {s} h =
    rw (h.len, h.cells)
      (elim (Bool-cases (ltb (length s) 16355)) [
        | inr long ↦ rw long
        | inl fits ↦
            rw (fits, read_from-written s h.slack 0 (length s) (omega arith), take-length s)
      ])

module _ (decimal : ℕ → List ℕ) (k : ℕ) (mem : List ℕ) (klen : ℕ) (q : List ℕ)
    (arg : IsKey mem klen q) (f : List ℕ → Option Obj) (n : ℕ) (fuel : n < k) where
  -- What `get` replies by what the map has: nothing there or no buffer, or a buffer with a text.
  abbrev pub GetEffect : Option Obj → List (Option ℕ) → Type 0
  GetEffect none out = out ≡ written msg_err
  GetEffect (some list_obj) out = out ≡ written msg_err
  GetEffect (some (buf_obj b)) out = (s : List ℕ) × Held b s × (out ≡ get_reply decimal s)

  -- On a sound table that stands for the map `f`, in which every buffer has memory, the handler of
  -- `get` returns without a fault, and leaves a sound table for `f`. It replies `$-1` where `f` has
  -- no buffer at the key, and otherwise the length and the bytes of the buffer's text, or nothing
  -- for a text of 16355 bytes or more. The fuel is to exceed the number of entries.
  pub command_get-Models :
      {h : Hash Obj}
      → AllHeld f
      → Models f n h
      → Returns
          (λ (out, h'). GetEffect (f q) out × Models f n h')
          (command_get decimal k h mem klen)
  unfolding command_get cmd_get buf_of
  command_get-Models {h} all models = go (find-Models k mem klen q arg f n fuel models)
    where
      go :
          Returns (λ (o, h'). (o ≡ f q) × Models f n h') (find k h mem klen)
          → Returns
              (λ (out, h'). GetEffect (f q) out × Models f n h')
              (command_get decimal k h mem klen)
      go ((none, h'), run, (e, m)) = ((written msg_err, h'), rw run, (rw (← e) refl, m))
      go ((some list_obj, h'), run, (e, m)) = ((written msg_err, h'), rw run, (rw (← e) refl, m))
      go ((some (buf_obj b), h'), run, (e, m)) =
          let (s, held_) = all q b (sym e) in
          (
            (get_reply decimal s, h'),
            rw (run, reply_buf-Held decimal held_),
            (rw (← e) (s, held_, refl), m),
          )

  -- What `set` leaves: the key stands for the value, or there was no memory and nothing changed.
  abbrev pub SetEffect : Malloc → Obj → Hash Obj → Type 0
  SetEffect memory val h =
      Models (put f q (some val)) (if is_none (f q) then suc n else n) h
      ⊎ ((memory.node ≡ false) × (f q ≡ none) × Models f n h)

  -- On a sound table that stands for the map `f`, the handler of `set` returns without a fault and
  -- always replies `+OK`: either the table left is sound and stands for `f` with the value at the
  -- key, with one entry more if the key was not there, or there was no memory for a new entry and
  -- the table stands for `f` as before. The fuel is to exceed the number of entries.
  pub command_set-Models :
      (memory : Malloc) (val : Obj) {h : Hash Obj}
      → Models f n h
      → Returns
          (λ (out, h'). (out ≡ written msg_ok) × SetEffect memory val h')
          (command_set k memory h mem klen val)
  unfolding command_set cmd_set
  command_set-Models memory val {h} models =
      go (add-Models k mem klen q arg f n fuel memory val models)
    where
      go :
          Returns (AddEffect k mem klen q arg f n fuel memory val) (add k memory h mem klen val)
          → Returns
              (λ (out, h'). (out ≡ written msg_ok) × SetEffect memory val h')
              (command_set k memory h mem klen val)
      go ((replaced w, h'), run, (e, m)) = ((written msg_ok, h'), rw run, (refl, inl (rw e m)))
      go ((inserted, h'), run, (e, m)) = ((written msg_ok, h'), rw run, (refl, inl (rw e m)))
      go ((no_memory, h'), run, (e, z, m)) = ((written msg_ok, h'), rw run, (refl, inr (z, e, m)))
