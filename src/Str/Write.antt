-- ===== src/Str/Write.antt =====
-- The writes of src/kvs_str.c on the text of a buffer.
use mathlib.Core.Path.{subst}
use mathlib.Core.List.{append-nil}
use ckv.Str.Grow.{grow-GrowEffect, GrowEffect, ensure-Held}
use ckv.Run.{ok, Returns}
use ckv.Str.{malloc, copy_to, buf_new, written, grow, ensure, buf_dsize, pos, Buf, append, setrange}
use ckv.Str.Text.{
  copy_to-nul, copy_to-middle, fill-Held, zero_of, padded, Held, IsText, null_text, text_of,
}
use ckv.Base.{
  length-replicate, [], zero, ◌∷◌, suc, ◌<◌, refl, none, some, take-length, Option, arith, take,
  ◌+◌, drop, sym, max, ap, false, ◌∙◌, true, length, ◌++◌, ◌≤◌, ◌≡◌, replicate, Bool, List, ℕ,
}

-- What a write has done: the buffer stands for the text `t`; or there was no memory, and the text
-- is `s` as before.
abbrev pub WriteEffect : List ℕ → List ℕ → Bool → Bool × Buf → Type 0
WriteEffect t s second (true, b) = IsText b t
WriteEffect t s second (false, b) = (second ≡ false) × IsText b s

-- On a buffer that stands for the text `s`, `kvs_buf_setrange` with an offset that is not negative
-- returns without a fault if the first allocation succeeds: with 0, and the buffer stands for the
-- first `offset` bytes of `s`, filled up with zeros, and the new bytes; or with -1, only if the
-- second allocation fails, and the text is the same.
pub setrange-IsText :
    (second : Bool) {b : Buf} {s : List ℕ} (offset : ℕ) (bytes : List ℕ)
    → IsText b s
    → Returns
        (WriteEffect (padded offset s ++ bytes) s second)
        (setrange true second b (pos offset) bytes)
unfolding setrange
setrange-IsText second {b} {s} offset bytes text =
    go (grow second b₁ (offset + length bytes + 1)) refl
      (grow-GrowEffect ready second (offset + length bytes + 1))
  where
    b₁ : Buf
    b₁ = ensure true b (max buf_dsize (offset + length bytes + 1))

    ready : Held b₁ s
    ready = ensure-Held (max buf_dsize (offset + length bytes + 1)) (omega arith) text

    go :
        (o : Option Buf)
        → grow second b₁ (offset + length bytes + 1) ≡ o
        → GrowEffect second (offset + length bytes + 1) s o
        → Returns
            (WriteEffect (padded offset s ++ bytes) s second)
            (setrange true second b (pos offset) bytes)
    go none e refused = ((false, b₁), rw (setrange, e), (refused, text_of ready))
    go (some b₂) e (h, room) =
        let (b₃, run, h') = fill-Held b₂ s offset bytes h.len h (omega (arith, room)) in
        ((true, b₃), rw (setrange, e, run), text_of h')

pub padded-length : (n : ℕ) (s : List ℕ) → n ≡ length s → padded n s ≡ s
unfolding replicate
padded-length n s e =
    ap (λ k. padded k s) e
    ∙ ap (λ k. take (length s) s ++ replicate k 0) (zero_of (length s) (length s) (omega arith))
    ∙ append-nil (take (length s) s)
    ∙ take-length s

-- On a buffer that stands for the text `s`, `kvs_buf_append` returns without a fault if the first
-- allocation succeeds: with 0, and the buffer stands for `s` followed by the new bytes; or with
-- -1, only if the second allocation fails, and the text is the same.
pub append-IsText :
    (second : Bool) {b : Buf} {s : List ℕ} (bytes : List ℕ)
    → IsText b s
    → Returns (WriteEffect (s ++ bytes) s second) (append true second b bytes)
unfolding append
append-IsText second {b} {s} bytes text =
    subst (λ t. Returns (WriteEffect (t ++ bytes) s second) (append true second b bytes))
      (padded-length b.len s (at_end s text)) (setrange-IsText second b.len bytes text)
  where
    at_end : (t : List ℕ) → IsText b t → b.len ≡ length t
    at_end t (null_text none_at z e) = z ∙ ap length (sym e)
    at_end t (text_of h) = h.len

pub drop-written :
    (n : ℕ) (s : List ℕ) (slack : List (Option ℕ))
    → n ≤ length s
    → drop n (written s ++ slack) ≡ written (drop n s) ++ slack
unfolding written
drop-written zero s slack h = refl
drop-written (suc n) [] slack h = absurd (omega arith)
drop-written (suc n) (c ∷ cs) slack h = drop-written n cs slack (omega arith)

-- What `kvs_buf_truncate` has done; -1 is only for a number beyond the buffer's own bytes.
abbrev pub TruncateEffect : Buf → ℕ → List ℕ → Bool × Buf → Type 0
TruncateEffect b n s (true, b') = Held b' (drop n s)
TruncateEffect b n s (false, b') = (b' ≡ b) × (buf_dsize < n)

-- What `kvs_buf_new` returns: a null pointer, or a buffer with the bytes.
abbrev pub NewEffect : Bool → List ℕ → Option Buf → Type 0
NewEffect false bytes o = o ≡ none
NewEffect true bytes o = (b : Buf) × (o ≡ some b) × Held b bytes

replicate_succ : (n : ℕ) → replicate {A = Option ℕ} (suc n) none ≡ replicate n none ++ none ∷ []
unfolding replicate
replicate_succ zero = refl
replicate_succ (suc n) = ap (◌∷◌ none) (replicate_succ n)

blank_cells :
    (n : ℕ) → copy_to (malloc true (n + 1)) n (0 ∷ []) ≡ ok (replicate n none ++ some 0 ∷ [])
blank_cells n =
    ap (λ x. copy_to (some x) n (0 ∷ []))
      (ap (λ k. replicate k none) (omega (arith)) ∙ replicate_succ n)
    ∙ copy_to-nul (replicate n none) [] none n (sym (length-replicate n none))

-- If the memory for the bytes is there, `kvs_buf_new` returns without a fault: a null pointer
-- where there is no memory for the structure, and else a buffer that stands for the bytes.
pub buf_new-Held :
    (first : Bool) (bytes : List ℕ) → Returns (NewEffect first bytes) (buf_new first true bytes)
unfolding buf_new
buf_new-Held false bytes = (none, refl, refl)
buf_new-Held true bytes = (
  _,
  rw (blank_cells (length bytes), copied),
  (
    record {
      cells = some (written bytes ++ some 0 ∷ []);
      len = length bytes;
      alloc = length bytes + 1;
      is_buffer = false;
      inline_ = false;
    },
    refl,
    record { slack = some 0 ∷ []; cells = refl; len = refl; alloc = refl; room = omega arith },
  ),
)
  where
    copied :
        copy_to (some (replicate (length bytes) none ++ some 0 ∷ [])) 0 bytes
        ≡ ok (written bytes ++ some 0 ∷ [])
    copied =
        copy_to-middle [] (replicate (length bytes) none) (some 0 ∷ []) 0 bytes refl
          (length-replicate (length bytes) none)
