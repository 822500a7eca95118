-- ===== src/Str/Range.antt =====
-- src/kvs_str.c, `kvs_buf_getrange`.
use ckv.Str.Write.{drop-written}
use mathlib.Core.Option.{some-injective}
use ckv.Str.Text.{take-written, length-written, Held}
use ckv.Str.{written, Buf}
use ckv.Run.{ok, fault, Run}
use ckv.Run.{◌>>=◌}
use ckv.Base.Int.{ltb_ℤ, pos_part, negsuc, pos, ◌-ℤ◌, ◌+ℤ◌, ℤ}
use ckv.Base.{
  ◌∙◌, inl, inr, Bool-cases, length-drop, min, length-append, ◌&&◌, ap, ltb, suc, arith, ◌-◌, ◌≡◌,
  true, ◌++◌, not, length, false, ◌<◌, drop, ◌||◌, ◌+◌, ◌≤◌, take, [], leb, if◌then◌else◌, ◌∷◌,
  some, none, List, Bool, Option, ℕ,
}

-- `kvs_str_t`
pub record Str : Type 0 where
  pub cells : Option (List (Option ℕ))
  pub len : ℕ

-- `b->len + start` for a negative `start`
unfoldable pub from_end : ℕ → ℤ → ℤ
from_end len (pos n) = pos n
from_end len (negsuc n) = pos len +ℤ negsuc n

-- The source of `memcpy(out->p, b->p + start, n)`
unfoldable pub read_from : Option (List (Option ℕ)) → ℤ → ℕ → Run (List (Option ℕ))
read_from none start n = fault
read_from (some cells) (negsuc k) n = fault
read_from (some cells) (pos k) n =
    if leb (k + n) (length cells) then ok (take n (drop k cells)) else fault

-- The label `empty`: `strdup("")` and the length 1.
unfoldable pub empty_str : Bool → Str
empty_str false = record { cells = none; len = 1 }
empty_str true = record { cells = some (some 0 ∷ []); len = 1 }

-- What follows the clamps; `none` is the result -1.
unfoldable pub copy_range : Bool → Buf → ℤ → ℤ → Run (Option Str)
unfolding read_from
copy_range false b start end_ = ok none
copy_range true b start end_ = do
  let n = pos_part (end_ -ℤ start +ℤ pos 1)
  bytes ← read_from b.cells start n
  ok (some (record { cells = some (bytes ++ some 0 ∷ []); len = n }))

-- `kvs_buf_getrange` from here on has no negative end.
unfoldable pub clamp_range : Bool → Buf → ℤ → ℤ → Run (Option Str)
unfolding copy_range empty_str
clamp_range memory b start end_ =
    if ltb_ℤ end_ start || not (ltb_ℤ start (pos b.len))
    then ok (some (empty_str memory))
    else copy_range memory b start (if ltb_ℤ end_ (pos b.len) then end_ else pos b.len -ℤ pos 1)

unfoldable pub getrange : Bool → Buf → ℤ → ℤ → Run (Option Str)
unfolding clamp_range from_end
getrange memory b start end_ = clamp_range memory b (from_end b.len start) (from_end b.len end_)

-- The `n` bytes of `s` from `i` on, with a NUL, as a string.
abbrev pub slice : ℕ → ℕ → List ℕ → Str
slice i n s = record { cells = some (written (take n (drop i s)) ++ some 0 ∷ []); len = n }

pub read_from-written :
    (s : List ℕ) (slack : List (Option ℕ)) (i n : ℕ)
    → i + n ≤ length s
    → read_from (some (written s ++ slack)) (pos i) n ≡ ok (written (take n (drop i s)))
unfolding read_from
read_from-written s slack i n le = rw (
  fits,
  drop-written i s slack (omega (arith, le)),
  take-written n (drop i s) slack (omega (arith, le, length-drop i s)),
)
  where
    fits : leb (i + n) (length (written s ++ slack)) ≡ true
    fits = ground (arith, length-append (written s) slack, length-written s, le)

range_length : (i j : ℕ) → i ≤ j → pos_part (pos j -ℤ pos i +ℤ pos 1) ≡ suc j - i
unfolding ◌+ℤ◌ ◌-ℤ◌
range_length i j le = ground arith

copy_range-slice :
    {b : Buf} {s : List ℕ} (i j : ℕ)
    → Held b s
    → i ≤ j
    → j < length s
    → copy_range true b (pos i) (pos j) ≡ ok (some (slice i (suc j - i) s))
unfolding copy_range
copy_range-slice {b} {s} i j h le lt =
    rw (range_length i j le, h.cells, read_from-written s h.slack i (suc j - i) (omega arith))

-- The index that an argument stands for: a negative one counts from the end, and must not go back
-- before the start.
unfoldable pub index_of : ℕ → ℤ → Option ℕ
index_of len (pos n) = some n
index_of len (negsuc k) = if ltb k len then some (len - suc k) else none

from_end-index_of : (len i : ℕ) (z : ℤ) → index_of len z ≡ some i → from_end len z ≡ pos i
unfolding index_of from_end ◌+ℤ◌
from_end-index_of len i (pos n) e = ap pos (some-injective n i e)
from_end-index_of len i (negsuc k) e = ground (arith, e)

last_index : (n : ℕ) → 0 < n → pos n -ℤ pos 1 ≡ pos (n - 1)
unfolding ◌-ℤ◌
last_index n lo = ground arith

clamp_range-slice :
    {b : Buf} {s : List ℕ} (i j : ℕ)
    → Held b s
    → clamp_range true b (pos i) (pos j)
      ≡ ok (
          some (
            if leb i j && ltb i (length s)
            then slice i (min (suc j) (length s) - i) s
            else empty_str true))
unfolding clamp_range
clamp_range-slice {b} {s} i j h = elim (Bool-cases (leb i j && ltb i (length s))) [
  | inr outside ↦ rw (outside, stop outside)
  | inl within ↦
      rw (within, go_on within)
        (elim (Bool-cases (ltb_ℤ (pos j) (pos b.len))) [
          | inl short ↦ rw short (
              copy_range-slice i j h (ground arith) (ground (arith, h.len))
              ∙ ap (λ n. ok (some (slice i (n - i) s))) (ground (arith, h.len)))
          | inr long ↦
              rw (long, last_index b.len (ground (arith, h.len)))
                (copy_range-slice i (b.len - 1) h (ground (arith, h.len)) (ground (arith, h.len))
                  ∙ ap (λ n. ok (some (slice i (n - i) s))) (ground (arith, h.len)))
        ])
]
  where
    stop :
        (leb i j && ltb i (length s)) ≡ false
        → (ltb_ℤ (pos j) (pos i) || not (ltb_ℤ (pos i) (pos b.len))) ≡ true
    stop e = ground (arith, h.len)

    go_on :
        (leb i j && ltb i (length s)) ≡ true
        → (ltb_ℤ (pos j) (pos i) || not (ltb_ℤ (pos i) (pos b.len))) ≡ false
    go_on e = ground (arith, h.len)

-- On a buffer that has memory and stands for the text `s`, `kvs_buf_getrange` with indices that
-- stand for `i` and `j`, none of which goes back before the start, and with memory for the result,
-- returns 0 without a fault, and the bytes of `s` from `i` to `j`, or to the end if that comes
-- first; where `i` is beyond `j` or the end, an empty string with the length 1.
pub getrange-slice :
    {b : Buf} {s : List ℕ} (start end_ : ℤ) (i j : ℕ)
    → Held b s
    → index_of (length s) start ≡ some i
    → index_of (length s) end_ ≡ some j
    → getrange true b start end_
      ≡ ok (
          some (
            if leb i j && ltb i (length s)
            then slice i (min (suc j) (length s) - i) s
            else empty_str true))
unfolding getrange
getrange-slice {b} {s} start end_ i j h at_i at_j =
    ap (λ x. clamp_range true b x (from_end b.len end_)) (there start i at_i)
    ∙ ap (clamp_range true b (pos i)) (there end_ j at_j)
    ∙ clamp_range-slice i j h
  where
    there : (z : ℤ) (k : ℕ) → index_of (length s) z ≡ some k → from_end b.len z ≡ pos k
    there z k e = ap (λ n. from_end n z) h.len ∙ from_end-index_of (length s) k z e
