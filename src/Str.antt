-- ===== src/Str.antt =====
-- src/kvs_str.c and src/kvs_str.h: byte buffers that grow.
--
-- A byte is `none` while nothing has been written to it. A read or write outside the memory of a
-- buffer is a fault. Whether an allocation succeeds is an argument. Lengths and offsets are `int`s
-- whose sums are taken to fit; arguments that may be negative are integers.
pub mod Text
pub mod Grow
pub mod Write
pub mod Range
pub mod Print
pub mod Printed
pub mod Split
pub mod Tokens
pub mod Tests
use ckv.Run.{◌>>=◌, ok, fault, Run}
use ckv.Base.Int.{negsuc, pos, ℤ}
use ckv.Base.{
  drop, ◌++◌, length, ◌-◌, max, ◌*◌, take, ◌+◌, [], leb, ltb, ◌&&◌, true, replicate, false, some,
  if◌then◌else◌, ◌∷◌, none, List, Bool, Option, ℕ,
}

-- `kvs_buf_t` and `kvs_buffer_t`: `cells` is what `p` points at, `none` for a null pointer;
-- `is_buffer` is the flag IS_BUFFER and `inline_` says that `p` is the buffer's own `buf`.
pub record Buf : Type 0 where
  pub cells : Option (List (Option ℕ))
  pub len : ℕ
  pub alloc : ℕ
  pub is_buffer : Bool
  pub inline_ : Bool

-- `kvs_buf_dsize`
abbrev pub buf_dsize : ℕ
buf_dsize = 64

-- `kvs_buf_null` and `kvs_buffer_null`
abbrev pub buf_null : Bool → Buf
buf_null is_buffer = record {
  cells = none;
  len = 0;
  alloc = 0;
  is_buffer = is_buffer;
  inline_ = false;
}

abbrev pub malloc : Bool → ℕ → Option (List (Option ℕ))
malloc false n = none
malloc true n = some (replicate n none)

-- Bytes as cells that have been written.
unfoldable pub written : List ℕ → List (Option ℕ)
written [] = []
written (c ∷ cs) = some c ∷ written cs

-- `memcpy(p + offset, bytes, length)`
unfoldable pub copy_to : Option (List (Option ℕ)) → ℕ → List ℕ → Run (List (Option ℕ))
copy_to none offset bytes = fault
copy_to (some cells) offset bytes =
    if leb (offset + length bytes) (length cells)
    then ok (take offset cells ++ written bytes ++ drop (offset + length bytes) cells)
    else fault

-- The first block of `kvs_buf_setrange`: a null pointer gets memory.
unfoldable pub ensure : Bool → Buf → ℕ → Buf
ensure memory b needlen = elim b.cells [
  | some cells ↦ b
  | none ↦
      if b.is_buffer
      then record b { cells = malloc true buf_dsize; len = 0; alloc = buf_dsize; inline_ = true }
      else record b { cells = malloc memory needlen; len = 0; alloc = needlen }
]

-- The memory after `malloc` and `memcpy`, or after `realloc`.
unfoldable pub moved : Bool → Buf → ℕ → Option (List (Option ℕ))
moved false b needlen = none
moved true b needlen = elim b.cells [
  | none ↦ malloc true needlen
  | some cells ↦
      if b.is_buffer && b.inline_
      then some (take b.len cells ++ replicate (needlen - b.len) none)
      else some (cells ++ replicate (needlen - length cells) none)
]

-- The second block: `none` is the result -1.
unfoldable pub grow : Bool → Buf → ℕ → Option Buf
unfolding moved
grow memory b needlen =
    if ltb b.alloc needlen
    then (let size = if ltb needlen (2 * b.alloc) then 2 * b.alloc else needlen in
        elim (moved memory b size) [
          | none ↦ none
          | some cells ↦ some (record b { cells = some cells; alloc = size; inline_ = false })
        ])
    else some b

-- The last block: the bytes, the gap before them and the NUL.
unfoldable pub fill : Buf → ℕ → List ℕ → Run Buf
unfolding copy_to
fill b offset bytes = do
  cells ← copy_to b.cells offset bytes
  cells ←
      if ltb b.len offset
      then copy_to (some cells) b.len (replicate (offset - b.len) 0)
      else ok cells
  cells ← copy_to (some cells) (offset + length bytes) (0 ∷ [])
  ok (record b { cells = some cells; len = offset + length bytes })

-- `kvs_buf_setrange`, with the buffer it leaves; `false` is the result -1. `first` and `second`
-- say whether the two allocations succeed.
unfoldable pub setrange : (first second : Bool) → Buf → ℤ → List ℕ → Run (Bool × Buf)
unfolding ensure grow fill
setrange first second b (negsuc o) bytes = ok (false, b)
setrange first second b (pos offset) bytes =
    let b₁ = ensure first b (max buf_dsize (offset + length bytes + 1)) in
    elim (grow second b₁ (offset + length bytes + 1)) [
      | none ↦ ok (false, b₁)
      | some b₂ ↦ fill b₂ offset bytes >>= λ b₃. ok (true, b₃)
    ]

-- `kvs_buf_append`
unfoldable pub append : (first second : Bool) → Buf → List ℕ → Run (Bool × Buf)
unfolding setrange
append first second b bytes = setrange first second b (pos b.len) bytes

-- `kvs_buf_new`; the memory for the bytes is not checked.
unfoldable pub buf_new : (first second : Bool) → List ℕ → Run (Option Buf)
unfolding copy_to
buf_new false second bytes = ok none
buf_new true second bytes = do
  cells ← copy_to (malloc second (length bytes + 1)) (length bytes) (0 ∷ [])
  cells ← copy_to (some cells) 0 bytes
  ok (
      some (record {
        cells = some cells;
        len = length bytes;
        alloc = length bytes + 1;
        is_buffer = false;
        inline_ = false;
      }))

-- `memmove(p, p + n, size)`
unfoldable pub move_down : List (Option ℕ) → ℕ → ℕ → Run (List (Option ℕ))
move_down cells n size =
    if leb (n + size) (length cells)
    then ok (take size (drop n cells) ++ drop size cells)
    else fault

-- `kvs_buf_truncate`; a size below 0 is a `size_t` beyond any memory.
unfoldable pub truncate : Buf → ℤ → Run (Bool × Buf)
unfolding move_down
truncate b (negsuc n) = ok (false, b)
truncate b (pos n) =
    if b.is_buffer && b.inline_ && ltb buf_dsize n then ok (false, b) else elim b.cells [
      | none ↦ fault
      | some cells ↦
          if leb n b.len
          then (move_down cells n (b.len - n) >>= λ cells.
              ok (true, record b { cells = some cells; len = b.len - n }))
          else fault
    ]
