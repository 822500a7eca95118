-- ===== src/Net.antt =====
-- src/kvs_net.c and src/kvs_net.h: a client's connection, and the parser of its requests.
--
-- `strtoul` is the library function of that name for base 10, on the bytes from its argument on.
-- An argument of a request is the bytes of its buffer; there is memory for arguments. A read of a
-- byte that was never written is a fault.
mod Cells
pub mod Wire
pub mod Digits
pub mod Request
pub mod Close
pub mod Input
pub mod Output
pub mod Sending
pub mod Tests
use ckv.Str.{buf_null, Buf}
use ckv.Run.{◌>>=◌, ok, fault, at, Run}
use ckv.Base.Int.{is_zero, pos_part, ℤ, pos, negsuc, ltb_ℤ}
use ckv.Base.{
  ◌&&◌, ◌∷◌, ◌++◌, ◌-◌, length, ◌^◌, zero, true, drop, not, ◌%◌, suc, ◌+◌, ltb, ◌==◌, false,
  if◌then◌else◌, List, Option, [], Bool, ℕ, none, some,
}

-- `kvs_client_t`: `argv` holds the first `argc` arguments, of `room` that fit; `out` is what
-- `wbuf` holds before `wpos`, and `cmd_ok` the flag KVS_CMD_OK.
pub record Client : Type 0 where
  pub rbuf : Buf
  pub nargs : ℤ
  pub argv : List (List ℕ)
  pub room : ℕ
  pub out : List (Option ℕ)
  pub cmd_ok : Bool

-- `kvs_client_new`
unfoldable pub client_new : Bool → Option Client
client_new false = none
client_new true =
    some (record {
      rbuf = buf_null false;
      nargs = pos 0;
      argv = [];
      room = 0;
      out = [];
      cmd_ok = false;
    })

-- `kvs_client_free`, with `kvs_buf_free`: the memory that is released. The structure, the arguments
-- and the output are not.
unfoldable pub client_free : Client → Option (List (Option ℕ))
client_free c = if c.rbuf.is_buffer && c.rbuf.inline_ then none else c.rbuf.cells

-- `kvs_client_reset`
unfoldable pub client_reset : Client → Client
client_reset c = record c { out = []; cmd_ok = false }

-- `p[k]`
abbrev pub written_byte : Option ℕ → Run ℕ
written_byte none = fault
written_byte (some b) = ok b

unfoldable pub byte_at : List (Option ℕ) → ℕ → Run ℕ
byte_at p k = at p k >>= written_byte

-- `strchr(p, '\\r') - p`
unfoldable pub find_cr : List (Option ℕ) → Run (Option ℕ)
find_cr [] = fault
find_cr (none ∷ p) = fault
find_cr (some b ∷ p) =
    let rest = find_cr p in
    if b == 13
    then ok (some 0)
    else if b == 0
    then ok none
    else (rest >>= λ o. elim o [ none ↦ ok none | some k ↦ ok (some (suc k)) ])

-- The bytes of `n` cells
unfoldable pub bytes_of : ℕ → List (Option ℕ) → Run (List ℕ)
bytes_of zero p = ok []
bytes_of (suc n) [] = fault
bytes_of (suc n) (none ∷ p) = fault
bytes_of (suc n) (some b ∷ p) = bytes_of n p >>= λ bs. ok (b ∷ bs)

-- An `unsigned long` as an `int`
unfoldable pub to_int : ℕ → ℤ
to_int n = if ltb (n % 2 ^ 32) (2 ^ 31) then pos (n % 2 ^ 32) else negsuc (2 ^ 32 - n % 2 ^ 32 - 1)

-- `c->nargs` after the loop, which runs while it is positive.
abbrev pub after_loop : ℤ → ℕ → ℤ
after_loop (pos k) n = pos n
after_loop (negsuc k) n = negsuc k

module _ (strtoul : List (Option ℕ) → ℕ) where
  -- A line `*n` or `$n` at `p`, and the position after it; `none` is the result -1.
  unfoldable pub header : ℕ → List (Option ℕ) → Run (Option (ℤ × ℕ))
  unfolding find_cr byte_at to_int
  header mark p = do
    last ← find_cr p
    elim last [
      | none ↦ ok none
      | some k ↦ byte_at p (k + 1) >>= λ newline.
          if not (newline == 10)
          then ok none
          else (byte_at p 0 >>= λ b.
              if not (b == mark) then ok none else ok (some (to_int (strtoul (drop 1 p)), k + 2)))
    ]

  -- What the loop of `kvs_net_parse` leaves: the arguments that are missing and those that are
  -- there.
  unfoldable pub parse_args : ℕ → List (Option ℕ) → ℕ → List (List ℕ) → Run (ℕ × List (List ℕ))
  unfolding header bytes_of
  parse_args zero p room argv = ok (0, argv)
  parse_args (suc n) p room argv = header 36 p >>= λ h. elim h [
    | none ↦ ok (suc n, argv)
    | some x ↦ elim x.0 [
      | negsuc k ↦ fault
      | pos nhead ↦ bytes_of nhead (drop x.1 p) >>= λ bs.
          if ltb (length argv) room
          then parse_args n (drop (x.1 + nhead + 2) p) room (argv ++ bs ∷ [])
          else fault
    ]
  ]

  -- The loop, with the flag that is set when it ends.
  unfoldable pub parse_rest : Client → List (Option ℕ) → Run (Bool × Client)
  unfolding parse_args
  parse_rest c p = do
    (n, argv) ← parse_args (pos_part c.nargs) p c.room c.argv
    let more = record c { nargs = after_loop c.nargs n; argv = argv }
    if n == 0 then ok (true, record more { cmd_ok = true }) else ok (false, more)

  -- `kvs_net_parse`
  unfoldable pub net_parse : Client → Run (Bool × Client)
  unfolding parse_rest
  net_parse c = elim c.rbuf.cells [
    | none ↦ fault
    | some p ↦
        if is_zero c.nargs
        then (header 42 p >>= λ h. elim h [
          | none ↦ ok (false, c)
          | some x ↦ parse_rest (record c { nargs = x.0; room = pos_part x.0 }) (drop x.1 p)
        ])
        else parse_rest c p
  ]
