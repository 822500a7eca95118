-- ===== src/Command/Session.antt =====
-- Two commands of src/kvs_command.c one after the other on the same key.
use mathlib.Core.Path.{subst}
use ckv.Run.{ok, ◌>>=◌, Returns}
use mathlib.Core.Option.{some-injective}
use ckv.Str.{Buf, written}
use ckv.Str.Text.{Held, length-written}
use ckv.Hash.{Hash, Malloc}
use ckv.Hash.Assign.{put}
use ckv.Hash.Chain.{Chain}
use ckv.Hash.Table.{Models, Steady, steady}
use ckv.Hash.Remove.{DelEffect, del-Steady, fewer}
use ckv.Hash.Lookup.{del}
use ckv.HashFunc.{IsKey}
use ckv.Command.{Obj, buf_obj, list_obj, msg_ok, msg_err, command_set, command_get}
use ckv.Command.Map.{
  is_none, AllHeld, get_reply, GetEffect, SetEffect, command_get-Models, command_set-Models,
}
use ckv.Command.Handlers.{command_del, cmd_del, del_reply}
use ckv.Base.{
  take, if◌then◌else◌, take-append_of_length, bytes_eq_refl, ℕ, suc, ◌<◌, ◌≡◌, inl, inr, List, [],
  ◌∷◌, ◌++◌, Option, some, none, true, refl, sym, ap, ◌∙◌, arith, bytes_eq, Bool-cases,
}

AllHeld-put-none : {f : List ℕ → Option Obj} (q : List ℕ) → AllHeld f → AllHeld (put f q none)
AllHeld-put-none q all r b e = elim (Bool-cases (bytes_eq q r)) [
  | inl same ↦ let missing : none ≡ some (buf_obj b) = rw same at e in cc
  | inr differ ↦ all r b (rw differ at e)
]

AllHeld-put :
    {f : List ℕ → Option Obj} (q : List ℕ) {b : Buf} {s : List ℕ}
    → Held b s
    → AllHeld f
    → AllHeld (put f q (some (buf_obj b)))
AllHeld-put q {b} {s} held_ all r b' e = elim (Bool-cases (bytes_eq q r)) [
  | inl same ↦
      let e' : some (buf_obj b) ≡ some (buf_obj b') = rw same at e in
      let e'' : b ≡ b' = cc in (s, subst (λ x. Held x s) e'' held_)
  | inr differ ↦ all r b' (rw differ at e)
]

written-injective : (s t : List ℕ) → written s ≡ written t → s ≡ t
unfolding written
written-injective [] [] e = refl
written-injective [] (d ∷ t) e = cc
written-injective (c ∷ s) [] e = cc
written-injective (c ∷ s) (d ∷ t) e =
    let tail : written s ≡ written t = cc in
    let head : c ≡ d = cc in rw (head, written-injective s t tail)

-- A buffer stands for one text only.
Held-unique : {b : Buf} {s t : List ℕ} → Held b s → Held b t → s ≡ t
Held-unique {b} {s} {t} hs ht = written-injective s t (
    sym (take-append_of_length (written s) hs.slack b.len (hs.len ∙ sym (length-written s)))
    ∙ ap (take b.len) cells
    ∙ take-append_of_length (written t) ht.slack b.len (ht.len ∙ sym (length-written t)))
  where
    cells : written s ++ hs.slack ≡ written t ++ ht.slack
    cells = some-injective (written s ++ hs.slack) (written t ++ ht.slack) (sym hs.cells ∙ ht.cells)

put_self : {V : Type 0} (f : List ℕ → Option V) (q : List ℕ) (o : Option V) → put f q o q ≡ o
put_self f q o = rw (bytes_eq_refl q)

module _ (decimal : ℕ → List ℕ) (k : ℕ) (mem : List ℕ) (klen : ℕ) (q : List ℕ)
    (arg : IsKey mem klen q) (f : List ℕ → Option Obj) (n : ℕ) where
  -- On one sound table that stands for the map `f`, the handler of `del` returns without a fault,
  -- replies 1 where `f` has the key and 0 where it has not, and leaves one sound table for `f`
  -- without the key, with one entry less if the key was there. The fuel is to exceed the number of
  -- entries.
  command_del-Steady :
      n < k
      → {h : Hash Obj} {gs : List (Chain Obj)} → Steady f n h gs
      → Returns
          (λ (out, h').
            (out ≡ written (del_reply (f q)))
            × ((gs' : List (Chain Obj)) × Steady (put f q none) (fewer (f q) n) h' gs'))
          (command_del k h mem klen)
  unfolding command_del cmd_del
  command_del-Steady fuel {h} {gs} s = go (del-Steady k mem klen q arg fuel s)
    where
      go :
          Returns (DelEffect k mem klen q arg fuel s) (del k h mem klen)
          → Returns
              (λ (out, h').
                (out ≡ written (del_reply (f q)))
                × ((gs' : List (Chain Obj)) × Steady (put f q none) (fewer (f q) n) h' gs'))
              (command_del k h mem klen)
      go ((o, h'), run, (e, freed, (gs', s'))) = (
        (written (del_reply o), h'),
        rw (run, command_del, cmd_del),
        (
          ap (λ x. written (del_reply x)) e,
          (gs', subst (λ x. Steady (put f q none) (fewer x n) h' gs') e s'),
        ),
      )

  fewer-lt : (o : Option Obj) → n < k → fewer o n < k
  fewer-lt none fuel = fuel
  fewer-lt (some v) fuel = omega (arith, fuel)

  error_reply :
      (o : Option Obj) {m : ℕ} (fuel : m < k) (g : List ℕ → Option Obj) {out : List (Option ℕ)}
      → o ≡ none
      → GetEffect decimal k mem klen q arg g m fuel o out
      → out ≡ written msg_err
  error_reply none fuel g e effect = effect
  error_reply (some list_obj) fuel g e effect = effect
  error_reply (some (buf_obj b)) fuel g e effect = cc

  -- On one sound table in which every buffer has memory, the handler of `del` and then that of `get`
  -- for the same key return without a fault, and the second replies `$-1`. The fuel is to exceed
  -- the number of entries.
  pub command_del-command_get :
      n < k
      → AllHeld f
      → {h : Hash Obj} {gs : List (Chain Obj)} → Steady f n h gs
      → Returns
          (λ (out, h'). (out ≡ written msg_err) × Models (put f q none) (fewer (f q) n) h')
          (command_del k h mem klen >>= λ (reply, h'). command_get decimal k h' mem klen)
  command_del-command_get fuel all {h} {gs} s = first (command_del-Steady fuel s)
    where
      Done : Type 0
      Done =
          Returns (λ (out, h'). (out ≡ written msg_err) × Models (put f q none) (fewer (f q) n) h')
            (command_del k h mem klen >>= λ (reply, h'). command_get decimal k h' mem klen)

      less : fewer (f q) n < k
      less = fewer-lt (f q) fuel

      second :
          {reply : List (Option ℕ)} {h' : Hash Obj}
          → command_del k h mem klen ≡ ok (reply, h')
          → Returns
              (λ (out, h'').
                GetEffect decimal k mem klen q arg
                  (put f q none)
                  (fewer (f q) n)
                  less
                  (put f q none q)
                  out
                × Models (put f q none) (fewer (f q) n) h'')
              (command_get decimal k h' mem klen)
          → Done
      second run ((out, h''), run', (effect, models)) = (
        (out, h''),
        rw (run, run'),
        (error_reply (put f q none q) less (put f q none) (put_self f q none) effect, models),
      )

      first :
          Returns
            (λ (out, h').
              (out ≡ written (del_reply (f q)))
              × ((gs' : List (Chain Obj)) × Steady (put f q none) (fewer (f q) n) h' gs'))
            (command_del k h mem klen)
          → Done
      first ((reply, h'), run, (e, (gs', s'))) = second run (
          command_get-Models decimal k mem klen q arg (put f q none) (fewer (f q) n) less
            (AllHeld-put-none q all) (steady gs' s'))

  text_reply :
      (o : Option Obj) {m : ℕ} (fuel : m < k) (g : List ℕ → Option Obj) {out : List (Option ℕ)}
      {b : Buf} {s : List ℕ}
      → o ≡ some (buf_obj b)
      → Held b s
      → GetEffect decimal k mem klen q arg g m fuel o out
      → out ≡ get_reply decimal s
  text_reply none fuel g e held_ effect = cc
  text_reply (some list_obj) fuel g e held_ effect = cc
  text_reply (some (buf_obj b')) fuel g {b = b} {s = s} e held_ (s', held', out) =
      out ∙ ap (get_reply decimal) (Held-unique held' (subst (λ x. Held x s) (same b' e) held_))
    where
      same : (b' : Buf) → some (buf_obj b') ≡ some (buf_obj b) → b ≡ b'
      same b' e = cc

  -- On a sound table in which every buffer has memory, the handler of `set` with a buffer that
  -- stands for a text, and then that of `get` for the same key, return without a fault if there is
  -- memory for an entry, and the second replies with that text, or with nothing if it has 16355
  -- bytes or more. The fuel is to exceed the number of entries by two or more.
  pub command_set-command_get :
      (memory : Malloc) {b : Buf} {s : List ℕ} {h : Hash Obj}
      → suc n < k
      → memory.node ≡ true
      → AllHeld f
      → Held b s
      → Models f n h
      → Returns
          (λ (out, h'). out ≡ get_reply decimal s)
          (command_set k memory h mem klen (buf_obj b) >>= λ (reply, h').
            command_get decimal k h' mem klen)
  command_set-command_get memory {b} {s} {h} fuel room all held_ models = first (
      command_set-Models decimal k mem klen q arg f n (omega (arith, fuel)) memory (buf_obj b)
        models)
    where
      Done : Type 0
      Done =
          Returns (λ (out, h'). out ≡ get_reply decimal s)
            (command_set k memory h mem klen (buf_obj b) >>= λ (reply, h').
              command_get decimal k h' mem klen)

      g : List ℕ → Option Obj
      g = put f q (some (buf_obj b))

      second :
          {reply : List (Option ℕ)} {h' : Hash Obj} (m : ℕ) (lt : m < k)
          → command_set k memory h mem klen (buf_obj b) ≡ ok (reply, h')
          → Returns
              (λ (out, h''). GetEffect decimal k mem klen q arg g m lt (g q) out × Models g m h'')
              (command_get decimal k h' mem klen)
          → Done
      second m lt run ((out, h''), run', (effect, models')) = (
        (out, h''),
        rw (run, run'),
        text_reply (g q) lt g (put_self f q (some (buf_obj b))) held_ effect,
      )

      size : (o : Option Obj) → (if is_none o then suc n else n) < k
      size none = fuel
      size (some v) = omega (arith, fuel)

      first :
          Returns
            (λ (out, h').
              (out ≡ written msg_ok)
              × SetEffect decimal k mem klen q arg f n (omega (arith, fuel)) memory (buf_obj b) h')
            (command_set k memory h mem klen (buf_obj b))
          → Done
      first ((reply, h'), run, (e, inl models')) =
          second (if is_none (f q) then suc n else n) (size (f q)) run (
            command_get-Models decimal k mem klen q arg g (if is_none (f q) then suc n else n)
              (size (f q)) (AllHeld-put q held_ all) models')
      first ((reply, h'), run, (e, inr (none_left, unknown, models'))) = cc
