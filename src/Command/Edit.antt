-- ===== src/Command/Edit.antt =====
-- The handlers of `append` and `del` of src/kvs_command.c on the map of the server's table.
use ckv.Run.{ok, Returns}
use ckv.Str.{Buf, written, append}
use ckv.Str.Text.{Held, text_of, IsText, null_text}
use ckv.Str.Write.{append-IsText, WriteEffect}
use ckv.Hash.{Ptr, Place, Hash, Malloc, load, write, Node}
use ckv.Hash.Lookup.{Found, find_core, add, inserted, replaced, no_memory}
use ckv.Hash.Assign.{put}
use ckv.Hash.Table.{Models}
use ckv.Hash.Map.{AddEffect, find_core-Answer, Answer, absent, present, add-Models}
use ckv.HashFunc.{IsKey}
use ckv.Command.{Obj, buf_obj, list_obj}
use ckv.Command.Map.{AllHeld}
use ckv.Command.Handlers.{obj_buf, append_at, cmd_append, command_append}
use ckv.Base.{
  ◌≢◌, ℕ, suc, ◌<◌, ◌≡◌, ◌⊎◌, inl, inr, List, [], ◌∷◌, ◌++◌, length, Option, some, none, Bool, true,
  false, refl, sym, ap, ◌∙◌,
}

none-ne-some {ℓ} : {A : Type ℓ} {a : A} → ◌≢◌ {A = Option A} none (some a)
none-ne-some e = cc

len-of : {b : Buf} {s : List ℕ} → IsText b s → b.len ≡ length s
len-of (null_text none_at z e) = z ∙ ap length (sym e)
len-of (text_of h) = h.len

module _ (decimal : ℕ → List ℕ) (k : ℕ) (mem : List ℕ) (klen : ℕ) (q : List ℕ)
    (arg : IsKey mem klen q) (f : List ℕ → Option Obj) (n : ℕ) (fuel : n < k) (memory : Malloc)
    (grown : Bool) (text : List ℕ) where
  -- `:` and a number
  abbrev pub number_reply : ℕ → List (Option ℕ)
  number_reply m = written (58 ∷ (decimal m ++ 13 ∷ 10 ∷ []))

  -- What `append` leaves, by what the map has at the key.
  abbrev pub AppendEffect : Option Obj → List (Option ℕ) → Hash Obj → Type 0
  AppendEffect none out h =
      (out ≡ number_reply (length text))
      × (Models (put f q (some (buf_obj (obj_buf text)))) (suc n) h
          ⊎ ((memory.node ≡ false) × Models f n h))
  AppendEffect (some list_obj) out h = ⊥
  AppendEffect (some (buf_obj b)) out h =
      (s : List ℕ) × (b' : Buf) × Held b s
      × Models (put f q (some (buf_obj b'))) n h
      × (((out ≡ number_reply (length (s ++ text))) × IsText b' (s ++ text))
          ⊎ ((grown ≡ false) × (out ≡ number_reply (length s)) × IsText b' s))

  -- What the second part of `kvs_cmd_append` does to a buffer with the text `s`.
  abbrev Longer : List ℕ → ℕ × Hash Obj → Type 0
  Longer s (m, h) =
      (b' : Buf) × Models (put f q (some (buf_obj b'))) n h
      × (((m ≡ length (s ++ text)) × IsText b' (s ++ text))
          ⊎ ((grown ≡ false) × (m ≡ length s) × IsText b' s))

  append_at-Longer :
      (h : Hash Obj) (p : ℕ) (node : Node Obj) {b : Buf} {s : List ℕ}
      → node.val ≡ buf_obj b
      → Held b s
      → ((v : Obj)
          → Models
              (put f q (some v))
              n
              (record h { heap = write h.heap p (some (record node { val = v })) }))
      → Returns (Longer s) (append_at grown h p text node)
  unfolding append_at
  append_at-Longer h p node {b} {s} e held_ assigning =
      go (append-IsText grown text (text_of held_))
    where
      go :
          Returns (WriteEffect (s ++ text) s grown) (append true grown b text)
          → Returns (Longer s) (append_at grown h p text node)
      go ((true, b'), run, text_) =
          (_, rw (e, run), (b', assigning (buf_obj b'), inl (len-of text_, text_)))
      go ((false, b'), run, (no_room, text_)) =
          (_, rw (e, run), (b', assigning (buf_obj b'), inr (no_room, len-of text_, text_)))

  -- On a sound table that stands for the map `f`, in which every buffer has memory and the key has
  -- no list, the handler of `append` returns without a fault and leaves a sound table. Where `f`
  -- has nothing at the key, the text is put there, or the map stays as it was if there is no memory
  -- for an entry; the reply is its length in both cases. Where `f` has a buffer, the text is added
  -- at its end and the reply is the new length, or, only if there is no memory to grow, its text
  -- stays and the reply is the old length. The fuel is to exceed the number of entries.
  pub command_append-Models :
      {h : Hash Obj}
      → AllHeld f
      → f q ≢ some list_obj
      → Models f n h
      → Returns
          (λ (out, h'). AppendEffect (f q) out h')
          (command_append decimal k memory grown h mem klen text)
  unfolding command_append cmd_append
  command_append-Models {h} all no_list models =
      go (find_core-Answer k mem klen q arg f n fuel models)
    where
      Done : Type 0
      Done =
          Returns (λ (out, h'). AppendEffect (f q) out h')
            (command_append decimal k memory grown h mem klen text)

      created :
          {r : Found} {h' : Hash Obj}
          → find_core k h mem klen ≡ ok (r, h')
          → r.place ≡ none
          → f q ≡ none
          → Returns
              (AddEffect k mem klen q arg f n fuel memory (buf_obj (obj_buf text)))
              (add k memory h' mem klen (buf_obj (obj_buf text)))
          → Done
      created run none_at unknown ((replaced w, h''), run', (known, m)) =
          absurd (none-ne-some (sym unknown ∙ known))
      created run none_at unknown ((inserted, h''), run', (z, m)) =
          ((number_reply (length text), h''), rw (run, none_at, run'), rw unknown (refl, inl m))
      created run none_at unknown ((no_memory, h''), run', (z, no_room, m)) = (
        (number_reply (length text), h''),
        rw (run, none_at, run'),
        rw unknown (refl, inr (no_room, m)),
      )

      longer :
          {r : Found} {h' : Hash Obj} {node : Node Obj} {b : Buf} {s : List ℕ} {pp : Place × Ptr}
          → find_core k h mem klen ≡ ok (r, h')
          → r.place ≡ some pp
          → load h'.heap pp.1 ≡ ok node
          → f q ≡ some (buf_obj b)
          → Held b s
          → Returns (Longer s) (append_at grown h' pp.1 text node)
          → Done
      longer {s} run at_pp loaded known held_ ((m, h''), run', (b', models', inl (e, text_))) = (
        (number_reply m, h''),
        rw (run, at_pp, loaded, run'),
        rw known (s, b', held_, models', inl (ap number_reply e, text_)),
      )
      longer {s} run at_pp loaded known held_
            ((m, h''), run', (b', models', inr (no_room, e, text_))) =
          (
            (number_reply m, h''),
            rw (run, at_pp, loaded, run'),
            rw known (s, b', held_, models', inr (no_room, ap number_reply e, text_)),
          )

      old :
          {r : Found} {h' : Hash Obj} {pp : Place × Ptr} (node : Node Obj) (v : Obj)
          → node.val ≡ v
          → find_core k h mem klen ≡ ok (r, h')
          → r.place ≡ some pp
          → load h'.heap pp.1 ≡ ok node
          → f q ≡ some v
          → ((w : Obj)
              → Models
                  (put f q (some w))
                  n
                  (record h' { heap = write h'.heap pp.1 (some (record node { val = w })) }))
          → Done
      old node list_obj e run at_pp loaded known assigning = absurd (no_list known)
      old {h'} {pp} node (buf_obj b) e run at_pp loaded known assigning =
          let (s, held_) = all q b known in
          longer run at_pp loaded known held_ (append_at-Longer h' pp.1 node e held_ assigning)

      go :
          Returns
            (λ (r, h'). Models f n h' × Answer k mem klen q arg f n fuel r h')
            (find_core k h mem klen)
          → Done
      go ((r, h'), run, (m, absent none_at unknown adding)) =
          created run none_at unknown
            (add-Models k mem klen q arg f n fuel memory (buf_obj (obj_buf text)) m)
      go ((r, h'), run, (m, present pp node at_pp loaded known assigning)) =
          old node node.val refl run at_pp loaded known assigning
