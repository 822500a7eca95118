-- ===== src/Cli/Tests.antt =====
-- Runs of `marshal` of src/kvs_cli.c, and its theorem at a small request.
use ckv.Cli.Connect.{cli_new}
use ckv.Str.{written, ensure, copy_to, setrange, append, fill, grow, moved}
use ckv.Str.Print.{print_at, after_print, print_loop, append_sprintf, not_moved}
use ckv.Str.Range.{read_from}
use ckv.Net.Digits.{decimal, digits}
use ckv.Net.Wire.{encode, encode_args}
use ckv.Cli.{marshal, marshal_args}
use ckv.Cli.Sent.{marshal-encode}
use ckv.Run.{ok, ◌>>=◌}
use ckv.Base.{none, ℕ, List, [], ◌∷◌, ◌≡◌, refl, true, false, some, arith, drop, replicate}

-- "get" and "k"
abbrev get_k : List (List ℕ)
get_k = (103 ∷ 101 ∷ 116 ∷ []) ∷ (107 ∷ []) ∷ []

marshal-encode_example : marshal decimal false get_k ≡ ok (written (encode decimal get_k))
unfolding encode encode_args decimal digits
marshal-encode_example = marshal-encode decimal false get_k (omega arith)

-- One argument of 53 bytes: the last byte of the request is a NUL where it ought to be 10.
test_cut :
    (marshal decimal true (replicate 53 97 ∷ []) >>= λ out. ok (drop 60 out))
    ≡ ok (some 97 ∷ some 97 ∷ some 13 ∷ some 0 ∷ [])
unfolding marshal marshal_args decimal digits append_sprintf print_loop after_print print_at
    not_moved ensure moved append setrange grow fill copy_to read_from written replicate
test_cut = refl

-- Without memory for the port the connection is closed.
port_missing :
    cli_new true false (some (record { sfd = some 5; done = true } ∷ [])) [] ≡ (none, 5 ∷ [])
unfolding cli_new
port_missing = refl
