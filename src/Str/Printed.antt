-- ===== src/Str/Printed.antt =====
-- What `kvs_buf_append_sprintf` of src/kvs_str.c does to the text of a buffer.
use mathlib.Core.List.{append_assoc, append-nil}
use mathlib.Core.Path.{subst}
use ckv.Str.Text.{
  take-drop, take_beyond, copy_to-middle, length-written, written-append, Held, IsText,
}
use ckv.Str.Grow.{ensure_kept, moved-Held, refused, ensure-Held}
use ckv.Str.Print.{print_at, after_print, print_loop, append_sprintf, not_moved}
use ckv.Run.{Run, ok, Returns}
use ckv.Str.{Buf, buf_dsize, copy_to, ensure, moved, written}
use ckv.Base.{
  ◌∙◌, ◌∙◌, ◌∙◌, ◌∙◌, ◌∙◌, ◌∙◌, ◌∙◌, ◌∙◌, ◌∙◌, ◌∙◌, ◌∙◌, ◌∙◌, ◌∙◌, ◌∙◌, ◌∙◌, ◌∙◌, ◌∙◌, ◌∙◌, ◌∙◌,
  drop_all, ◌∙◌, length-drop, ℕ, suc, ◌+◌, ◌-◌, ◌<◌, ◌≤◌, ◌≡◌, ◌⊎◌, inl, inr, List, [], ◌∷◌, ◌++◌,
  length, take, drop, Option, some, none, Bool, true, false, ltb, ◌==◌, refl, sym, arith,
  length-append, length-take, ap, ◌∙◌, min,
}

-- The ways in which a round ends.
module _ (again : Buf → Run (Option ℕ × Buf)) (memory : Bool) (b : Buf) (t : List ℕ) where
  after_print_ends :
      length t < b.alloc
      → after_print again memory b t ≡ ok (some (length t), record b { len = b.len + length t })
  unfolding after_print
  after_print_ends short =
      let e : ltb (length t) b.alloc ≡ true = ground (arith, short) in rw (e, after_print)

  after_print_fails :
      b.alloc ≤ length t
      → moved memory b (b.len + length t + 1) ≡ none
      → after_print again memory b t
        ≡ ok (none, record (not_moved b) { alloc = b.len + length t + 1 })
  unfolding after_print
  after_print_fails long none_there =
      let e : ltb (length t) b.alloc ≡ false = ground (arith, long) in
      rw (e, none_there, after_print)

  after_print_moves :
      (cells : List (Option ℕ))
      → b.alloc ≤ length t
      → moved memory b (b.len + length t + 1) ≡ some cells
      → after_print again memory b t
        ≡ again (record b { cells = some cells; alloc = b.len + length t + 1; inline_ = false })
  unfolding after_print
  after_print_moves cells long there =
      let e : ltb (length t) b.alloc ≡ false = ground (arith, long) in rw (e, there, after_print)

-- What `vsnprintf` writes.
abbrev pub shown : Buf → List ℕ → List ℕ
shown b t = take (b.alloc - b.len - 1) t ++ 0 ∷ []

-- The cells after it, over the unused ones.
abbrev pub shown_cells : Buf → List ℕ → List (Option ℕ) → List ℕ → List (Option ℕ)
shown_cells b s slack t = written s ++ written (shown b t) ++ drop (length (shown b t)) slack

module _ {b : Buf} {s : List ℕ} (h : Held b s) (t : List ℕ) where
  pub length-shown : length (shown b t) ≡ suc (min (length h.slack - 1) (length t))
  length-shown = omega (
    arith,
    length-append (take (b.alloc - b.len - 1) t) (0 ∷ []),
    length-take (b.alloc - b.len - 1) t,
    h.alloc,
    h.len,
  )

  print_at-lem : print_at b t ≡ ok (record b { cells = some (shown_cells b s h.slack t) })
  unfolding print_at
  print_at-lem = rw (some_room, not_less, copied)
    where
      some_room : b.len == b.alloc ≡ false
      some_room = ground (arith, h.room, h.alloc, h.len)

      not_less : ltb b.alloc b.len ≡ false
      not_less = ground (arith, h.room, h.alloc, h.len)

      m : ℕ
      m = length (shown b t)

      inside : length (take m h.slack) ≡ m
      inside = omega (arith, length-take m h.slack, length-shown, h.room)

      copied : copy_to b.cells b.len (shown b t) ≡ ok (shown_cells b s h.slack t)
      copied =
          ap (λ x. copy_to x b.len (shown b t))
            (h.cells
              ∙ ap (λ x. some (written s ++ x)) (take-drop m h.slack)
              ∙ ap some (sym (append_assoc (written s) (take m h.slack) (drop m h.slack))))
          ∙ copy_to-middle (written s) (take m h.slack) (drop m h.slack) b.len (shown b t)
              (h.len ∙ sym (length-written s)) inside

  -- The buffer after it.
  abbrev pub shown_buf : Buf
  shown_buf = record b { cells = some (shown_cells b s h.slack t) }

  shown_buf-Held : Held shown_buf s
  shown_buf-Held = record {
    slack = written (shown b t) ++ drop (length (shown b t)) h.slack;
    cells =
        ap some
          (append_assoc (written s) (written (shown b t)) (drop (length (shown b t)) h.slack));
    len = h.len;
    alloc = omega (arith, h.alloc, sizes);
    room = omega (arith, h.room, sizes);
  }
    where
      sizes : length (written (shown b t) ++ drop (length (shown b t)) h.slack) ≡ length h.slack
      sizes = omega (
        arith,
        length-append (written (shown b t)) (drop (length (shown b t)) h.slack),
        length-written (shown b t),
        length-drop (length (shown b t)) h.slack,
        length-shown,
        h.room,
      )

  -- The text fits into what is left.
  pub fits-Held :
      length s + length t < b.alloc → Held (record shown_buf { len = b.len + length t }) (s ++ t)
  unfolding written
  fits-Held fits = record {
    slack = some 0 ∷ drop (length (shown b t)) h.slack;
    cells =
        ap (λ x. some (written s ++ written (x ++ 0 ∷ []) ++ drop (length (shown b t)) h.slack)) all
        ∙ ap (λ x. some (written s ++ x ++ drop (length (shown b t)) h.slack))
            (written-append t (0 ∷ []))
        ∙ ap (λ x. some (x ++ drop (length (shown b t)) h.slack))
            (sym (append_assoc (written s) (written t) (some 0 ∷ [])))
        ∙ ap (λ x. some (x ++ some 0 ∷ [] ++ drop (length (shown b t)) h.slack))
            (sym (written-append s t))
        ∙ ap some
            (append_assoc (written (s ++ t)) (some 0 ∷ []) (drop (length (shown b t)) h.slack));
    len = omega (arith, h.len, length-append s t);
    alloc = omega (
      arith,
      h.alloc,
      fits,
      length-append s t,
      length-drop (length (shown b t)) h.slack,
      length-shown,
    );
    room = omega arith;
  }
    where
      all : take (b.alloc - b.len - 1) t ≡ t
      all = take_beyond (b.alloc - b.len - 1) t (omega (arith, fits, h.len))

  print_loop-suc :
      (rounds : ℕ) (memory : Bool)
      → print_loop (suc rounds) memory b t
        ≡ after_print (λ x. print_loop rounds memory x t) memory shown_buf t
  unfolding print_loop
  print_loop-suc rounds memory = rw print_at-lem

  -- The loop ends when the text is shorter than the memory, whether it was cut off or not.
  pub print_loop-last :
      (rounds : ℕ) (memory : Bool)
      → length t < b.alloc
      → print_loop (suc rounds) memory b t
        ≡ ok (some (length t), record shown_buf { len = b.len + length t })
  print_loop-last rounds memory short =
      print_loop-suc rounds memory
      ∙ after_print_ends (λ x. print_loop rounds memory x t) memory shown_buf t short

-- What `kvs_buf_append_sprintf` has done: the text and its NUL stand after the others; or there was
-- no memory.
abbrev pub PrintEffect : Bool → List ℕ → List ℕ → Option ℕ × Buf → Type 0
PrintEffect memory s t (some n, b) = (n ≡ length t) × Held b (s ++ t)
PrintEffect memory s t (none, b) = memory ≡ false

module _ {b : Buf} {s : List ℕ} (h : Held b s) (t : List ℕ) where
  print_loop-fits :
      (rounds : ℕ) (memory : Bool)
      → length s + length t < b.alloc
      → Returns (PrintEffect memory s t) (print_loop (suc rounds) memory b t)
  print_loop-fits rounds memory fits = (
    (some (length t), record (shown_buf h t) { len = b.len + length t }),
    print_loop-last h t rounds memory (omega (arith, fits)),
    (refl, fits-Held h t fits),
  )

  -- A text that is longer than the whole memory is printed again.
  print_loop-grows :
      (rounds : ℕ) (memory : Bool)
      → b.alloc ≤ length t
      → Returns (PrintEffect memory s t) (print_loop (suc (suc rounds)) memory b t)
  print_loop-grows rounds memory long = go (moved memory b₁ size) refl
    where
      b₁ : Buf
      b₁ = shown_buf h t

      again : Buf → Run (Option ℕ × Buf)
      again x = print_loop (suc rounds) memory x t

      size : ℕ
      size = b.len + length t + 1

      more : b₁.alloc < size
      more = omega (arith, long)

      go :
          (o : Option (List (Option ℕ)))
          → moved memory b₁ size ≡ o
          → Returns (PrintEffect memory s t) (print_loop (suc (suc rounds)) memory b t)
      go none e = (
        (none, record (not_moved b₁) { alloc = size }),
        print_loop-suc h t (suc rounds) memory ∙ after_print_fails again memory b₁ t long e,
        refused (shown_buf-Held h t) memory size more e,
      )
      go (some cells) e =
          let h₂ = moved-Held (shown_buf-Held h t) memory size cells more e in
          (
            (some (length t), record (shown_buf h₂ t) { len = b.len + length t }),
            print_loop-suc h t (suc rounds) memory
                ∙ after_print_moves again memory b₁ t cells long e
                ∙ print_loop-last h₂ t rounds memory (omega arith),
            (refl, fits-Held h₂ t (omega (arith, h.len))),
          )

some_cells :
    {A : Type 0} (o : Option (List (Option ℕ))) (x y : A) {cells : List (Option ℕ)}
    → o ≡ some cells
    → (elim o [ none ↦ x | some c ↦ y ]) ≡ y
some_cells o x y e = rw e

pub append_sprintf-loop :
    (second : Bool) (b : Buf) (s t : List ℕ)
    → Held (ensure true b buf_dsize) s
    → append_sprintf true second b t ≡ print_loop 2 second (ensure true b buf_dsize) t
unfolding append_sprintf
append_sprintf-loop second b s t h =
    some_cells (ensure true b buf_dsize).cells (ok (none, ensure true b buf_dsize))
      (print_loop 2 second (ensure true b buf_dsize) t) h.cells

-- A text that fits: the memory stays what it was.
pub append_sprintf-fits :
    (memory : Bool) (b : Buf) {s : List ℕ} (t : List ℕ)
    → Held (ensure true b buf_dsize) s
    → length s + length t < (ensure true b buf_dsize).alloc
    → Returns
        (λ (n, b'). Held b' (s ++ t) × (b'.alloc ≡ (ensure true b buf_dsize).alloc))
        (append_sprintf true memory b t)
append_sprintf-fits memory b {s} t h fits = (
  (some (length t), record (shown_buf h t) { len = (ensure true b buf_dsize).len + length t }),
  append_sprintf-loop memory b s t h ∙ print_loop-last h t 1 memory (omega (arith, fits)),
  (fits-Held h t fits, refl),
)

-- A buffer that stands for the text `s`, and a text `t` that fits, with a NUL, into the memory left
-- after `s` or is at least as long as the whole memory, where a null pointer gets memory for 64
-- bytes. If that memory is there, `kvs_buf_append_sprintf` returns without a fault after at most
-- two calls of `vsnprintf`: with the length of `t`, and the buffer stands for `s` followed by `t`;
-- or with -1, only if there was no memory.
pub append_sprintf-PrintEffect :
    (second : Bool) {b : Buf} {s : List ℕ} (t : List ℕ)
    → IsText b s
    → (length s + length t < (ensure true b buf_dsize).alloc)
      ⊎ ((ensure true b buf_dsize).alloc ≤ length t)
    → Returns (PrintEffect second s t) (append_sprintf true second b t)
append_sprintf-PrintEffect second {b} {s} t text fits = go fits
  where
    h : Held (ensure true b buf_dsize) s
    h = ensure-Held buf_dsize (omega arith) text

    go :
        (length s + length t < (ensure true b buf_dsize).alloc)
          ⊎ ((ensure true b buf_dsize).alloc ≤ length t)
        → Returns (PrintEffect second s t) (append_sprintf true second b t)
    go (inl left) =
        subst (Returns (PrintEffect second s t)) (sym (append_sprintf-loop second b s t h))
          (print_loop-fits h t 1 second left)
    go (inr long) =
        subst (Returns (PrintEffect second s t)) (sym (append_sprintf-loop second b s t h))
          (print_loop-grows h t 0 second long)

-- What a buffer holds whose new text `t` was cut off.
abbrev pub CutEffect : Buf → List ℕ → List ℕ → Option ℕ × Buf → Type 0
CutEffect b s t (n, b') =
    (n ≡ some (length t))
    × (b'.len ≡ length s + length t)
    × (b'.alloc ≡ b.alloc)
    × (b'.cells ≡ some (written (s ++ take (b.alloc - length s - 1) t) ++ some 0 ∷ []))

-- A buffer with memory that stands for the text `s`, and a text `t` that is shorter than the whole
-- memory but does not fit, with a NUL, after `s`. `kvs_buf_append_sprintf` returns the length of
-- `t` as if all was well and adds it to the buffer's length, but the memory stays as it was and
-- holds only the first bytes of `t`, with a NUL in its last cell.
pub append_sprintf-CutEffect :
    (memory : Bool) {b : Buf} {s : List ℕ} (t : List ℕ)
    → Held b s
    → length t < b.alloc
    → b.alloc ≤ length s + length t
    → Returns (CutEffect b s t) (append_sprintf true memory b t)
unfolding written
append_sprintf-CutEffect memory {b} {s} t h short over = (
  (some (length t), record (shown_buf h t) { len = b.len + length t }),
  append_sprintf-loop memory b s t (subst (λ x. Held x s) (sym kept) h)
      ∙ ap (λ x. print_loop 2 memory x t) kept
      ∙ print_loop-last h t 1 memory short,
  (refl, omega (arith, h.len), refl, ap some cut),
)
  where
    kept : ensure true b buf_dsize ≡ b
    kept = ensure_kept true b buf_dsize (written s ++ h.slack) h.cells

    full : drop (length (shown b t)) h.slack ≡ []
    full =
        drop_all (length (shown b t)) h.slack
          (omega (arith, length-shown h t, h.alloc, h.room, over))

    cut : shown_cells b s h.slack t ≡ written (s ++ take (b.alloc - length s - 1) t) ++ some 0 ∷ []
    cut =
        ap (λ x. written s ++ written (shown b t) ++ x) full
        ∙ append-nil (written s ++ written (shown b t))
        ∙ ap (λ x. written s ++ x) (written-append (take (b.alloc - b.len - 1) t) (0 ∷ []))
        ∙ sym (append_assoc (written s) (written (take (b.alloc - b.len - 1) t)) (some 0 ∷ []))
        ∙ ap (λ x. x ++ some 0 ∷ []) (sym (written-append s (take (b.alloc - b.len - 1) t)))
        ∙ ap (λ k. written (s ++ take (b.alloc - k - 1) t) ++ some 0 ∷ []) h.len
