-- ===== src/Str/Grow.antt =====
-- The memory of a buffer of src/kvs_str.c: it grows, and keeps the text.
use mathlib.Core.List.{append_assoc}
use mathlib.Core.Path.{subst}
use ckv.Str.Text.{length-written, null_text, text_of}
use ckv.Str.Text.{null_text, IsText, Held}
use ckv.Str.{buf_dsize, grow, moved, malloc, Buf, written, ensure}
use ckv.Base.{
  length-append, ap, take-append_of_length, ◌-◌, ◌&&◌, ◌+◌, ◌∙◌, length, ◌*◌, refl, inl, arith,
  ◌++◌, length-replicate, inr, sym, ltb, replicate, Bool-cases, [], if◌then◌else◌, false, ◌≤◌, true,
  none, some, Option, ◌<◌, ◌≡◌, Bool, List, ℕ,
}

pub ensure_kept :
    (memory : Bool) (b : Buf) (needlen : ℕ) (cells : List (Option ℕ))
    → b.cells ≡ some cells
    → ensure memory b needlen ≡ b
unfolding ensure
ensure_kept memory b needlen cells e = rw e

ensure_inline :
    (b : Buf) (needlen : ℕ)
    → b.cells ≡ none
    → b.is_buffer ≡ true
    → ensure true b needlen
      ≡ record b { cells = malloc true buf_dsize; len = 0; alloc = buf_dsize; inline_ = true }
unfolding ensure
ensure_inline b needlen e f = rw (e, f)

ensure-malloc :
    (b : Buf) (needlen : ℕ)
    → b.cells ≡ none
    → b.is_buffer ≡ false
    → ensure true b needlen ≡ record b { cells = malloc true needlen; len = 0; alloc = needlen }
unfolding ensure
ensure-malloc b needlen e f = rw (e, f)

-- Memory of which nothing is written.
blank-Held :
    (b : Buf) (n : ℕ) → 0 < n → Held (record b { cells = malloc true n; len = 0; alloc = n }) []
unfolding written
blank-Held b n lo = record {
  slack = replicate n none;
  cells = refl;
  len = refl;
  alloc = omega (arith, length-replicate {A = Option ℕ} n none);
  room = omega (arith, lo, length-replicate {A = Option ℕ} n none);
}

-- A buffer has memory after the first block of `kvs_buf_setrange`.
pub ensure-Held :
    {b : Buf} {s : List ℕ} (needlen : ℕ) → 0 < needlen → IsText b s → Held (ensure true b needlen) s
ensure-Held {b} {s} needlen lo (text_of h) =
    subst (λ x. Held x s) (sym (ensure_kept true b needlen (written s ++ h.slack) h.cells)) h
ensure-Held {b} needlen lo (null_text none_at z e) = rw e (elim (Bool-cases b.is_buffer) [
  | inl is_inline ↦
      subst (λ x. Held x []) (sym (ensure_inline b needlen none_at is_inline))
        (blank-Held (record b { inline_ = true }) buf_dsize (omega arith))
  | inr is_malloc ↦
      subst (λ x. Held x []) (sym (ensure-malloc b needlen none_at is_malloc))
        (blank-Held b needlen lo)
])

-- What `grow` returns: no memory, or a buffer with the same text and enough of it.
abbrev pub GrowEffect : Bool → ℕ → List ℕ → Option Buf → Type 0
GrowEffect memory needlen s none = memory ≡ false
GrowEffect memory needlen s (some b) = Held b s × (needlen ≤ b.alloc)

module _ {b : Buf} {s : List ℕ} (h : Held b s) where
  -- What the memory is after it has been moved.
  moved_cells :
      (size : ℕ)
      → b.alloc < size
      → (slack : List (Option ℕ)) × (moved true b size ≡ some (written s ++ slack))
        × (size ≡ length s + length slack)
  unfolding moved
  moved_cells size lt = elim (Bool-cases (b.is_buffer && b.inline_)) [
    | inl in_buf ↦ (
      replicate (size - b.len) none,
      rw (
        h.cells,
        in_buf,
        take-append_of_length (written s) h.slack b.len (h.len ∙ sym (length-written s)),
      ),
      omega (arith, length-replicate {A = Option ℕ} (size - b.len) none, h.len, h.alloc),
    )
    | inr outside ↦ (
      h.slack ++ replicate (size - length (written s ++ h.slack)) none,
      rw (h.cells, outside)
          (ap some (
            append_assoc (written s) h.slack
              (replicate (size - length (written s ++ h.slack)) none))),
      omega (
        arith,
        length-replicate {A = Option ℕ} (size - length (written s ++ h.slack)) none,
        length-append h.slack (replicate (size - length (written s ++ h.slack)) none),
        length-append (written s) h.slack,
        length-written s,
        h.alloc,
      ),
    )
  ]

  pub moved-Held :
      (memory : Bool) (size : ℕ) (cells : List (Option ℕ))
      → b.alloc < size
      → moved memory b size ≡ some cells
      → Held (record b { cells = some cells; alloc = size; inline_ = false }) s
  unfolding moved
  moved-Held false size cells lt e = cc
  moved-Held true size cells lt e =
      let (slack, e', sizes) = moved_cells size lt in
      record {
        slack = slack;
        cells = sym e ∙ e';
        len = h.len;
        alloc = sizes;
        room = omega (arith, sizes, lt, h.alloc);
      }

  pub refused :
      (memory : Bool) (size : ℕ) → b.alloc < size → moved memory b size ≡ none → memory ≡ false
  refused false size lt e = refl
  refused true size lt e = let (slack, e', sizes) = moved_cells size lt in cc

  pub grow-GrowEffect :
      (memory : Bool) (needlen : ℕ) → GrowEffect memory needlen s (grow memory b needlen)
  unfolding grow
  grow-GrowEffect memory needlen = elim (Bool-cases (ltb b.alloc needlen)) [
    | inr fits ↦ rw fits (h, ground arith)
    | inl more ↦ rw more (
        go (if ltb needlen (2 * b.alloc) then 2 * b.alloc else needlen) (ground arith)
          (ground arith))
  ]
    where
      go :
          (size : ℕ)
          → b.alloc < size
          → needlen ≤ size
          → GrowEffect memory needlen s (elim (moved memory b size) [
            | none ↦ none
            | some cells ↦ some (record b { cells = some cells; alloc = size; inline_ = false })
          ])
      go size lt le = settle (moved memory b size) refl
        where
          settle :
              (o : Option (List (Option ℕ)))
              → moved memory b size ≡ o
              → GrowEffect memory needlen s (elim o [
                | none ↦ none
                | some cells ↦ some (record b { cells = some cells; alloc = size; inline_ = false })
              ])
          settle none e = refused memory size lt e
          settle (some cells) e = (moved-Held memory size cells lt e, le)
