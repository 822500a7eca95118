-- ===== src/Net/Input.antt =====
-- src/kvs_net.c, `kvs_net_read`. What `read` answers is an argument: bytes, an error, or the end.
use ckv.Run.{Run, ok, out_of_fuel, ◌>>=◌}
use ckv.Str.{Buf, append}
use ckv.Ev.{Ev, Vtable, ev_del}
use ckv.Hash.{Malloc}
use ckv.Net.{Client, client_free, net_parse}
use ckv.Command.Process.{Server, command_process}
use ckv.Base.{ℕ, ◌+◌, List, [], ◌∷◌, length, Option, Bool, true, ltb, ◌==◌, if◌then◌else◌}

pub data Answered : Type 0 where
  chunk : List ℕ → Answered
  interrupted again failed closed : Answered

-- How the loop ends: EAGAIN with nothing read, the end of the input, or another error.
pub data Ended : Type 0 where
  nothing hung_up stopped : Ended

-- What `kvs_net_read` leaves of the client: the client, or the descriptor that it has closed and
-- the memory that it has released.
pub data Fate : Type 0 where
  kept : Client → Fate
  dropped : (closed_fd : ℕ) (released : Option (List (Option ℕ))) → Fate

-- The loop; `memory` says whether the buffer can grow.
unfoldable pub read_loop : (memory : Bool) → List Answered → ℕ → Buf → Run (Ended × Buf)
unfolding append
read_loop memory [] cnt b = out_of_fuel
read_loop memory (chunk bytes ∷ rs) cnt b =
    append true memory b bytes >>= λ (result, b'). read_loop memory rs (cnt + length bytes) b'
read_loop memory (interrupted ∷ rs) cnt b = read_loop memory rs cnt b
read_loop memory (again ∷ rs) cnt b = if cnt == 0 then ok (nothing, b) else ok (stopped, b)
read_loop memory (failed ∷ rs) cnt b = ok (stopped, b)
read_loop memory (closed ∷ rs) cnt b = ok (hung_up, b)

-- `kvs_buf_reset`
abbrev pub buf_reset : Buf → Buf
buf_reset b = record b { len = 0 }

module _ (decimal : ℕ → List ℕ) (strtoul : List (Option ℕ) → ℕ) (f : ℕ) (memory : Malloc)
    (grown : Bool) {B W P U : Type 0} (vt : Vtable B W P U) (net_write_proc : P) where
  -- `if (c->rbuf.len > 0)`; the result is not looked at.
  unfoldable pub parse_input : Client → Run Client
  unfolding net_parse
  parse_input c = if ltb 0 c.rbuf.len then (net_parse strtoul c >>= λ (result, c'). ok c') else ok c

  -- `if (c->argc > 0)`
  unfoldable pub process_input :
      Server (Ev B P U) → ℕ → U → Client → Run (Client × Server (Ev B P U))
  unfolding command_process
  process_input s fd user c =
      if ltb 0 (length c.argv)
      then (command_process decimal f memory grown vt net_write_proc s fd user c >>= λ (c', s').
          ok (record c' { argv = []; rbuf = buf_reset c'.rbuf }, s'))
      else ok (c, s)

  -- `if (rv == 0)`: the client is freed and its descriptor is closed.
  unfoldable pub end_input : Ended → Server (Ev B P U) → ℕ → Client → Run (Fate × Server (Ev B P U))
  end_input nothing s fd c = ok (kept c, s)
  end_input stopped s fd c = ok (kept c, s)
  end_input hung_up s fd c =
      ev_del vt s.ev fd (record { read = true; write = true }) >>= λ (result, e).
      ok (dropped fd (client_free c), record s { ev = e })

  unfoldable pub serve_input : Server (Ev B P U) → ℕ → U → Client → Run (Client × Server (Ev B P U))
  unfolding parse_input process_input
  serve_input s fd user c = parse_input c >>= λ c₁. process_input s fd user c₁

  -- What follows the loop.
  unfoldable pub after_reads :
      Server (Ev B P U) → ℕ → U → Client → Ended × Buf → Run (Fate × Server (Ev B P U))
  unfolding serve_input end_input
  after_reads s fd user c (nothing, b) = ok (kept (record c { rbuf = b }), s)
  after_reads s fd user c (stopped, b) = do
    (c', s') ← serve_input s fd user (record c { rbuf = b })
    end_input stopped s' fd c'
  after_reads s fd user c (hung_up, b) = do
    (c', s') ← serve_input s fd user (record c { rbuf = b })
    end_input hung_up s' fd c'

  -- `kvs_net_read`
  unfoldable pub net_read :
      List Answered → Server (Ev B P U) → ℕ → U → Client → Run (Fate × Server (Ev B P U))
  unfolding read_loop after_reads
  net_read rs s fd user c = read_loop grown rs 0 c.rbuf >>= λ r. after_reads s fd user c r
