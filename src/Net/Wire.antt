-- ===== src/Net/Wire.antt =====
-- The bytes of a request, and that `kvs_net_parse` reads them back.
use ckv.Net.Cells.{
  to_int-pos, bytes_of-written, byte_at-zero, find_cr-digits, at-beyond, drop_add, written-split,
  AreDigits,
}
use ckv.Base.Int.{is_zero, pos_part, ℤ}
use mathlib.Core.List.{append-nil, append_assoc}
use ckv.Str.Text.{length-written}
use ckv.Str.{written}
use ckv.Net.{Client, parse_rest, net_parse, parse_args, byte_at, pos, header, ok, bytes_of, find_cr}
use ckv.Run.{at}
use ckv.Base.{
  length-append, ltb, true, drop-append_of_length, sym, false, ◌∙◌, refl, ◌==◌, arith, suc, ap, ◌^◌,
  ◌≡◌, ◌<◌, ◌≤◌, ◌++◌, Option, ◌+◌, [], length, ◌∷◌, drop, List, ℕ, some,
}

-- A count in a line, an argument, and a whole request, as `marshal` of src/kvs_cli.c writes them.
-- `decimal` is what `%d` prints.
abbrev pub line : (ℕ → List ℕ) → ℕ → ℕ → List ℕ → List ℕ
line decimal mark n rest = mark ∷ (decimal n ++ 13 ∷ 10 ∷ rest)

unfoldable pub encode_args : (ℕ → List ℕ) → List (List ℕ) → List ℕ
encode_args decimal [] = []
encode_args decimal (a ∷ args) =
    line decimal 36 (length a) (a ++ 13 ∷ 10 ∷ encode_args decimal args)

unfoldable pub encode : (ℕ → List ℕ) → List (List ℕ) → List ℕ
unfolding encode_args
encode decimal args = line decimal 42 (length args) (encode_args decimal args)

-- Every argument is short enough for an `int`.
abbrev pub AreShort : List (List ℕ) → Type 0
AreShort [] = Unit {0}
AreShort (a ∷ args) = (length a < 2 ^ 31) × AreShort args

-- How the C library prints and reads numbers: as digits, and a number below 2 ^ 31 that has been
-- printed is read back where the digits end.
module _ (decimal : ℕ → List ℕ) (strtoul : List (Option ℕ) → ℕ)
    (prints : (n : ℕ) → AreDigits (decimal n))
    (reads : (n : ℕ) (rest : List (Option ℕ))
      → n < 2 ^ 31
      → strtoul (written (decimal n) ++ some 13 ∷ rest) ≡ n) where
  -- A line, with the cells after it.
  abbrev cells_of : ℕ → ℕ → List (Option ℕ) → List (Option ℕ)
  cells_of mark n rest = some mark ∷ (written (decimal n) ++ some 13 ∷ some 10 ∷ rest)

  written-line :
      (mark n : ℕ) (s : List ℕ) (slack : List (Option ℕ))
      → written (line decimal mark n s) ++ slack ≡ cells_of mark n (written s ++ slack)
  unfolding written
  written-line mark n s slack = ap (◌∷◌ (some mark)) (written-split (decimal n) (13 ∷ 10 ∷ s) slack)

  after_line :
      (mark n : ℕ) (rest : List (Option ℕ))
      → drop (suc (length (decimal n)) + 2) (cells_of mark n rest) ≡ rest
  after_line mark n rest =
      let e : suc (length (decimal n)) + 2 ≡ suc (length (decimal n) + 2) = omega arith in
      ap (λ k. drop k (cells_of mark n rest)) e
      ∙ drop_add (length (decimal n)) 2 (written (decimal n) ++ some 13 ∷ some 10 ∷ rest)
      ∙ ap (drop 2) (
          drop-append_of_length (written (decimal n)) (some 13 ∷ some 10 ∷ rest)
            (length (decimal n)) (sym (length-written (decimal n))))

  newline :
      (mark n : ℕ) (rest : List (Option ℕ))
      → byte_at (cells_of mark n rest) (suc (length (decimal n)) + 1) ≡ ok 10
  unfolding byte_at at
  newline mark n rest =
      let e : suc (length (decimal n)) + 1 ≡ suc (length (decimal n) + 1) = omega arith in
      rw (e, at-beyond (decimal n) (some 13 ∷ some 10 ∷ rest) 1)

  header-lem :
      (mark n : ℕ) (rest : List (Option ℕ))
      → mark == 13 ≡ false
      → mark == 0 ≡ false
      → n < 2 ^ 31
      → header strtoul mark (cells_of mark n rest) ≡ ok (some (pos n, suc (length (decimal n)) + 2))
  unfolding header find_cr
  header-lem mark n rest no_cr no_nul small = rw (
    no_cr,
    no_nul,
    find_cr-digits (decimal n) (some 10 ∷ rest) (prints n),
    newline mark n rest,
    byte_at-zero mark (written (decimal n) ++ some 13 ∷ some 10 ∷ rest),
    self,
    reads n (some 10 ∷ rest) small,
    to_int-pos n small,
  )
    where
      self : mark == mark ≡ true
      self = ground arith

  -- The cells after an argument's header, and those after the argument.
  after_argument :
      (a s : List ℕ) (slack : List (Option ℕ))
      → drop
          (suc (length (decimal (length a))) + 2 + length a + 2)
          (cells_of 36 (length a) (written (a ++ 13 ∷ 10 ∷ s) ++ slack))
        ≡ written s ++ slack
  unfolding written
  after_argument a s slack =
      let n = length a in
      let rest = written (a ++ 13 ∷ 10 ∷ s) ++ slack in
      let tail : List (Option ℕ) = some 13 ∷ some 10 ∷ (written s ++ slack) in
      let front = suc (length (decimal n)) + 2 in
      drop_add (front + n) 2 (cells_of 36 n rest)
      ∙ ap (drop 2) (drop_add front n (cells_of 36 n rest))
      ∙ ap (λ x. drop 2 (drop n x)) (after_line 36 n rest)
      ∙ ap (λ x. drop 2 (drop n x)) (written-split a (13 ∷ 10 ∷ s) slack)
      ∙ ap (drop 2) (drop-append_of_length (written a) tail n (sym (length-written a)))

  argument_bytes :
      (a s : List ℕ) (slack : List (Option ℕ))
      → bytes_of (length a) (
          drop
            (suc (length (decimal (length a))) + 2)
            (cells_of 36 (length a) (written (a ++ 13 ∷ 10 ∷ s) ++ slack)))
        ≡ ok a
  unfolding written
  argument_bytes a s slack =
      rw
        (
          after_line 36 (length a) (written (a ++ 13 ∷ 10 ∷ s) ++ slack),
          written-split a (13 ∷ 10 ∷ s) slack,
        )
        (bytes_of-written a (some 13 ∷ some 10 ∷ (written s ++ slack)))

  -- One more argument.
  parse_args-suc :
      (n : ℕ) (p : List (Option ℕ)) (a : List ℕ) (k room : ℕ) (argv : List (List ℕ))
      → header strtoul 36 p ≡ ok (some (pos (length a), k))
      → bytes_of (length a) (drop k p) ≡ ok a
      → length argv < room
      → parse_args strtoul (suc n) p room argv
        ≡ parse_args strtoul n (drop (k + length a + 2) p) room (argv ++ a ∷ [])
  unfolding parse_args
  parse_args-suc n p a k room argv head bytes fits = rw (head, bytes, has_room)
    where
      has_room : ltb (length argv) room ≡ true
      has_room = ground (arith, fits)

  parse_args-encode_args :
      (args argv : List (List ℕ)) (room : ℕ) (slack : List (Option ℕ))
      → AreShort args
      → length argv + length args ≤ room
      → parse_args strtoul (length args) (written (encode_args decimal args) ++ slack) room argv
        ≡ ok (0, argv ++ args)
  unfolding parse_args encode_args
  parse_args-encode_args [] argv room slack short fits = rw (append-nil argv)
  parse_args-encode_args (a ∷ args) argv room slack (small, short) fits =
      let s = encode_args decimal args in
      let rest = written (a ++ 13 ∷ 10 ∷ s) ++ slack in
      let more : length (argv ++ a ∷ []) + length args ≤ room =
        omega (arith, fits, length-append argv (a ∷ [])) in
      ap (λ p. parse_args strtoul (suc (length args)) p room argv)
        (written-line 36 (length a) (a ++ 13 ∷ 10 ∷ s) slack)
      ∙ parse_args-suc (length args) (cells_of 36 (length a) rest) a
          (suc (length (decimal (length a))) + 2) room argv
          (header-lem 36 (length a) rest refl refl small) (argument_bytes a s slack)
          (omega (arith, fits))
      ∙ ap (λ p. parse_args strtoul (length args) p room (argv ++ a ∷ []))
          (after_argument a s slack)
      ∙ parse_args-encode_args args (argv ++ a ∷ []) room slack short more
      ∙ ap (λ l. ok (0, l)) (append_assoc argv (a ∷ []) args)

  net_parse-first :
      (c : Client) (p : List (Option ℕ)) (n : ℤ) (k : ℕ)
      → c.rbuf.cells ≡ some p
      → c.nargs ≡ pos 0
      → header strtoul 42 p ≡ ok (some (n, k))
      → net_parse strtoul c
        ≡ parse_rest strtoul (record c { nargs = n; room = pos_part n }) (drop k p)
  unfolding net_parse
  net_parse-first c p n k cells fresh head = rw (cells, ap is_zero fresh, head)

  -- Numbers are printed as digits and, below 2 ^ 31, read back where they end. A client that waits for a request
  -- and has no arguments, and whose buffer begins with the printed request of `args`, fewer than 2
  -- ^ 31 arguments of fewer than 2 ^ 31 bytes each: `kvs_net_parse` returns true without a fault,
  -- and the client has exactly `args` as its arguments, misses none, and has the flag of a whole
  -- request; the rest of it is as before.
  pub net_parse-encode :
      (c : Client) (args : List (List ℕ)) (slack : List (Option ℕ))
      → c.rbuf.cells ≡ some (written (encode decimal args) ++ slack)
      → c.nargs ≡ pos 0
      → c.argv ≡ []
      → length args < 2 ^ 31
      → AreShort args
      → net_parse strtoul c
        ≡ ok (true, record c { nargs = pos 0; argv = args; room = length args; cmd_ok = true })
  unfolding parse_rest encode
  net_parse-encode c args slack cells fresh empty small short =
      net_parse-first c (cells_of 42 n rest) (pos n) (suc (length (decimal n)) + 2)
        (cells ∙ ap some (written-line 42 n (encode_args decimal args) slack)) fresh
        (header-lem 42 n rest refl refl small)
      ∙ ap (parse_rest strtoul (record c { nargs = pos n; room = n })) (after_line 42 n rest)
      ∙ rw (empty, parse_args-encode_args args [] n slack short (omega arith))
    where
      n : ℕ
      n = length args

      rest : List (Option ℕ)
      rest = written (encode_args decimal args) ++ slack
