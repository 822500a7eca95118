-- ===== src/Net/Tests.antt =====
-- Runs of src/kvs_net.c on a small request.
use ckv.Str.{buf_null, Buf, written}
use ckv.Net.Digits.{decimal, strtoul, digits, decimal-AreDigits, strtoul-decimal}
use ckv.Net.Wire.{encode, encode_args, net_parse-encode}
use ckv.Net.{Client, net_parse}
use ckv.Run.{Returns, ok}
use ckv.Base.Int.{pos, negsuc}
use ckv.Net.Output.{taken, interrupted, refused, net_write}
use ckv.Net.Sending.{SentEffect, net_write-SentEffect, net_write-refused}
use ckv.Ev.Select.{select}
use ckv.Ev.Tests.{ev_two, ev_two-IsWatching}
use ckv.Net.Request.{IsIdle, Served, net_read-Served}
use ckv.Net.Close.{Gone, net_read-Gone}
use ckv.Net.Input.{closed, Answered, chunk, again, net_read}
use ckv.Command.Tests.{plenty, key_a, server, server-IsReady, map_x, commands_map, get_entry}
use ckv.Command.Process.{get_name}
use ckv.Str.Text.{null_text}
use ckv.Base.{
  ◌^◌, ◌<◌, Option, bytes_eq, take, ℕ, List, [], ◌∷◌, ◌++◌, ◌≡◌, refl, true, false, some, arith,
}

-- "get" and "k"
abbrev request : List (List ℕ)
request = (103 ∷ 101 ∷ 116 ∷ []) ∷ (107 ∷ []) ∷ []

abbrev request_buf : Buf
request_buf = record (buf_null false) {
  cells = some (written (encode decimal request) ++ some 0 ∷ []);
}

abbrev waiting : Client
waiting = record {
  rbuf = request_buf;
  nargs = pos 0;
  argv = [];
  room = 0;
  out = [];
  cmd_ok = false;
}

-- "*2\r\n$3\r\nget\r\n$1\r\nk\r\n"
test_encode :
    encode decimal request
    ≡ 42 ∷ 50 ∷ 13 ∷ 10 ∷ 36 ∷ 51 ∷ 13 ∷ 10 ∷ 103 ∷ 101 ∷ 116 ∷ 13 ∷ 10 ∷ 36 ∷ 49 ∷ 13 ∷ 10 ∷ 107
      ∷ 13 ∷ 10 ∷ []
unfolding encode encode_args decimal digits
test_encode = refl

small_numbers :
    (n : ℕ) (rest : List (Option ℕ))
    → n < 2 ^ 31
    → strtoul (written (decimal n) ++ some 13 ∷ rest) ≡ n
small_numbers n rest small = strtoul-decimal n rest

net_parse-encode_example :
    net_parse strtoul waiting
    ≡ ok (true, record waiting { nargs = pos 0; argv = request; room = 2; cmd_ok = true })
net_parse-encode_example =
    net_parse-encode decimal strtoul decimal-AreDigits small_numbers waiting request (some 0 ∷ [])
      refl refl refl (omega arith) (omega arith)

-- `write` is interrupted, takes two bytes, and then the other three.
abbrev replying : Client
replying = record waiting { out = written (43 ∷ 79 ∷ 75 ∷ 13 ∷ 10 ∷ []) }

net_write-SentEffect_example :
    Returns
      (SentEffect true (interrupted ∷ taken 2 ∷ taken 3 ∷ []) 2 replying ev_two-IsWatching)
      (net_write (select true) (interrupted ∷ taken 2 ∷ taken 3 ∷ []) ev_two 2 replying)
unfolding written
net_write-SentEffect_example =
    net_write-SentEffect true (interrupted ∷ taken 2 ∷ taken 3 ∷ []) 2 replying ev_two-IsWatching
      (omega arith) (omega arith)

net_write-refused_example :
    net_write (select true) (taken 2 ∷ refused ∷ []) ev_two 2 replying
    ≡ ok (record { result = negsuc 0; sent = take 2 replying.out; client = replying; ev = ev_two })
unfolding written
net_write-refused_example =
    net_write-refused true (taken 2 ∷ refused ∷ []) 2 replying ev_two-IsWatching 2 (omega arith)

-- The request for "a" arrives in two pieces.
abbrev get_a : List (List ℕ)
get_a = get_name ∷ key_a ∷ []

abbrev idle_client : Client
idle_client = record waiting { rbuf = buf_null false }

idle_client-IsIdle : IsIdle idle_client
idle_client-IsIdle = record { input = null_text refl refl refl; fresh = refl; no_args = refl }

abbrev pieces : List Answered
pieces =
    chunk (42 ∷ 50 ∷ 13 ∷ 10 ∷ 36 ∷ 51 ∷ 13 ∷ [])
    ∷ chunk (10 ∷ 103 ∷ 101 ∷ 116 ∷ 13 ∷ 10 ∷ 36 ∷ 49 ∷ 13 ∷ 10 ∷ 97 ∷ 13 ∷ 10 ∷ [])
    ∷ again
    ∷ []

net_read-Served_example :
    Returns
      (Served decimal strtoul decimal-AreDigits small_numbers 2 plenty true 7 9 2 key_a
        (omega arith)
        map_x
        1
        (omega arith)
        commands_map
        1)
      (net_read decimal strtoul 2 plenty true (select true) 7 pieces server 2 9 idle_client)
unfolding bytes_eq encode encode_args decimal digits
net_read-Served_example =
    net_read-Served decimal strtoul decimal-AreDigits small_numbers 2 plenty true 7 9 2
      server-IsReady idle_client pieces get_name key_a [] get_entry idle_client-IsIdle refl tt refl
      (omega arith) (omega arith) refl refl

net_read-Gone_example : Returns (Gone 2 server idle_client) (
    net_read decimal strtoul 2 plenty true
      (select true)
      7
      (Answered.interrupted ∷ closed ∷ [])
      server
      2
      9
      idle_client)
net_read-Gone_example =
    net_read-Gone decimal strtoul 2 plenty true true 7 9 2 server idle_client
      (Answered.interrupted ∷ closed ∷ []) ev_two-IsWatching (omega arith) refl refl refl tt
