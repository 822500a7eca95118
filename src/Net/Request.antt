-- ===== src/Net/Request.antt =====
-- A request from its bytes to the reply, through src/kvs_net.c and src/kvs_command.c.
use mathlib.Core.List.{append_assoc, append-nil}
use mathlib.Core.Path.{subst}
use ckv.Run.{ok, Returns}
use ckv.Base.Int.{pos}
use ckv.Str.{Buf, append, written}
use ckv.Str.Text.{IsText, null_text, text_of, length-written}
use ckv.Str.Write.{append-IsText, WriteEffect}
use ckv.Net.{Client, net_parse}
use ckv.Net.Cells.{AreDigits}
use ckv.Net.Wire.{encode, AreShort, net_parse-encode}
use ckv.Hash.{Malloc}
use ckv.Hash.Table.{Models}
use ckv.Ev.{Ev}
use ckv.Ev.Select.{Select, select}
use ckv.Command.{Obj}
use ckv.Command.Map.{GetEffect}
use ckv.Command.Process.{Server, Entry, nul_ended, command_process, get_handler}
use ckv.Command.Reply.{IsReady, Awaited, GetDone, command_process-GetDone, nul_ended-IsKey}
use ckv.Net.Input.{
  Answered, Ended, Fate, kept, dropped, chunk, interrupted, again, failed, closed, stopped,
  read_loop, buf_reset, parse_input, process_input, serve_input, after_reads, end_input, net_read,
}
use ckv.Base.{
  ◌≢◌, ◌==◌, ℕ, ◌+◌, ◌<◌, ◌^◌, ltb, ◌≡◌, List, [], ◌∷◌, ◌++◌, length, length-append, Option, some,
  Bool, true, false, refl, sym, ap, arith,
}

-- The bytes that are read before the end or an error.
abbrev pub arrived : List Answered → List ℕ
arrived [] = []
arrived (chunk bytes ∷ rs) = bytes ++ arrived rs
arrived (interrupted ∷ rs) = arrived rs
arrived (again ∷ rs) = []
arrived (failed ∷ rs) = []
arrived (closed ∷ rs) = []

-- The input ends with EAGAIN.
abbrev pub Pauses : List Answered → Type 0
Pauses [] = ⊥
Pauses (chunk bytes ∷ rs) = Pauses rs
Pauses (interrupted ∷ rs) = Pauses rs
Pauses (again ∷ rs) = Unit {0}
Pauses (failed ∷ rs) = ⊥
Pauses (closed ∷ rs) = ⊥

-- With memory to grow, the loop adds all bytes to the buffer.
Collected : List ℕ → Ended × Buf → Type 0
Collected s (end_, b) = (end_ ≡ stopped) × IsText b s

read_loop-arrived :
    (rs : List Answered) (cnt : ℕ) (b : Buf) (s : List ℕ)
    → IsText b s
    → Pauses rs
    → 0 < cnt + length (arrived rs)
    → Returns (Collected (s ++ arrived rs)) (read_loop true rs cnt b)
unfolding read_loop Collected
read_loop-arrived [] cnt b s text pauses some_ = absurd pauses
read_loop-arrived (chunk bytes ∷ rs) cnt b s text pauses some_ =
    go (append-IsText true bytes text) (λ b' text'.
      read_loop-arrived rs (cnt + length bytes) b' (s ++ bytes) text' pauses
        (omega (arith, some_, length-append bytes (arrived rs))))
  where
    go :
        Returns (WriteEffect (s ++ bytes) s true) (append true true b bytes)
        → ((b' : Buf)
            → IsText b' (s ++ bytes)
            → Returns
                (Collected (s ++ bytes ++ arrived rs))
                (read_loop true rs (cnt + length bytes) b'))
        → Returns (Collected (s ++ (bytes ++ arrived rs))) (read_loop true (chunk bytes ∷ rs) cnt b)
    go ((false, b'), run, (no_room, t)) rest = cc
    go ((true, b'), run, t) rest =
        let ((end_, b''), run', (stops, t')) = rest b' t in
        (
          (end_, b''),
          rw (read_loop, run) run',
          (stops, subst (IsText b'') (append_assoc s bytes (arrived rs)) t'),
        )
read_loop-arrived (interrupted ∷ rs) cnt b s text pauses some_ =
    read_loop-arrived rs cnt b s text pauses some_
read_loop-arrived (again ∷ rs) cnt b s text pauses some_ =
    let e : cnt == 0 ≡ false = ground (arith, some_) in
    ((stopped, b), rw (read_loop, e), (refl, subst (IsText b) (sym (append-nil s)) text))
read_loop-arrived (failed ∷ rs) cnt b s text pauses some_ = absurd pauses
read_loop-arrived (closed ∷ rs) cnt b s text pauses some_ = absurd pauses

reset-IsText : {b : Buf} {s : List ℕ} → IsText b s → IsText (buf_reset b) []
unfolding written
reset-IsText (null_text none_at z e) = null_text none_at refl refl
reset-IsText {b} {s} (text_of h) = text_of (record {
  slack = written s ++ h.slack;
  cells = h.cells;
  len = refl;
  alloc = omega (arith, h.alloc, length-append (written s) h.slack, length-written s);
  room = omega (arith, h.room, length-append (written s) h.slack);
})

-- A client that waits for a request.
pub record IsIdle (c : Client) : Type 0 where
  pub input : IsText c.rbuf []
  pub fresh : c.nargs ≡ pos 0
  pub no_args : c.argv ≡ []

module _ (decimal : ℕ → List ℕ) (strtoul : List (Option ℕ) → ℕ)
    (prints : (n : ℕ) → AreDigits (decimal n))
    (reads : (n : ℕ) (rest : List (Option ℕ))
      → n < 2 ^ 31
      → strtoul (written (decimal n) ++ some 13 ∷ rest) ≡ n)
    (k : ℕ) (memory : Malloc) {P U : Type 0} (events : Bool) (net_write_proc : P) (user : U)
    (fd : ℕ) where
  parse_input-lem :
      (c c' : Client) (result : Bool)
      → 0 < c.rbuf.len
      → net_parse strtoul c ≡ ok (result, c')
      → parse_input decimal strtoul k memory true (select {P = P} {U = U} events) net_write_proc c
        ≡ ok c'
  unfolding parse_input
  parse_input-lem c c' result some_ run =
      let e : ltb 0 c.rbuf.len ≡ true = ground (arith, some_) in rw (e, run, parse_input)

  process_input-lem :
      (s s' : Server (Ev Select P U)) (c c' : Client)
      → 0 < length c.argv
      → command_process decimal k memory true (select events) net_write_proc s fd user c
        ≡ ok (c', s')
      → process_input decimal strtoul k memory true (select events) net_write_proc s fd user c
        ≡ ok (record c' { argv = []; rbuf = buf_reset c'.rbuf }, s')
  unfolding process_input
  process_input-lem s s' c c' some_ run =
      let e : ltb 0 (length c.argv) ≡ true = ground (arith, some_) in rw (e, run, process_input)

  -- What a request for `get` leaves.
  abbrev pub Served :
      (key : List ℕ)
      → length key < 2 ^ 31
      → (f : List ℕ → Option Obj) (n : ℕ) → n < k
      → (List ℕ → Option Entry)
      → ℕ
      → Fate × Server (Ev Select P U)
      → Type 0
  Served key short f n fuel commands m (dropped closed_fd released, s) = ⊥
  Served key short f n fuel commands m (kept c, s) =
      GetEffect decimal k (nul_ended key) (length key) key (nul_ended-IsKey key short) f n fuel
        (f key) c.out
      × IsIdle c
      × Models f n s.hash
      × Models commands m s.commands
      × Awaited decimal k memory true events net_write_proc user fd c s.ev

  after_parse : Client → Buf → List (List ℕ) → Client
  after_parse c b args = record c {
    rbuf = b;
    nargs = pos 0;
    argv = args;
    room = length args;
    cmd_ok = true;
  }

  -- The buffer that has received a request is read back.
  parsed :
      (c : Client) (b : Buf) (args : List (List ℕ))
      → IsIdle c
      → IsText b (encode decimal args)
      → length args < 2 ^ 31
      → AreShort args
      → parse_input decimal strtoul k memory true
          (select {P = P} {U = U} events)
          net_write_proc
          (record c { rbuf = b })
        ≡ ok (after_parse c b args)
  unfolding after_parse encode
  parsed c b args idle (null_text none_at z e) few short = absurd (cons-ne-nil e)
    where
      cons-ne-nil : {x : ℕ} {xs : List ℕ} → x ∷ xs ≢ []
      cons-ne-nil h = cc
  parsed c b args idle (text_of h) few short =
      parse_input-lem (record c { rbuf = b }) (after_parse c b args) true (omega (arith, h.len))
        (net_parse-encode decimal strtoul prints reads (record c { rbuf = b }) args h.slack h.cells
          idle.fresh idle.no_args few short)

  module _ {s : Server (Ev Select P U)} {f : List ℕ → Option Obj} {n : ℕ}
      {commands : List ℕ → Option Entry} {m : ℕ} (ready : IsReady k fd s f n commands m) where
    answered :
        (c : Client) (b : Buf) (args : List (List ℕ)) (key : List ℕ) (short : length key < 2 ^ 31)
        → IsText b (encode decimal args)
        → 0 < length args
        → parse_input decimal strtoul k memory true
            (select {P = P} {U = U} events)
            net_write_proc
            (record c { rbuf = b })
          ≡ ok (after_parse c b args)
        → Returns
            (GetDone decimal k memory true events net_write_proc user fd key short f n
              ready.entries_lt commands m
              (after_parse c b args))
            (command_process decimal k memory true
              (select events)
              net_write_proc
              s
              fd
              user
              (after_parse c b args))
        → Returns (Served key short f n ready.entries_lt commands m) (
            after_reads decimal strtoul k memory true
              (select events)
              net_write_proc
              s
              fd
              user
              c
              (stopped, b))
    unfolding after_reads serve_input end_input after_parse
    answered c b args key short text some_ parse_run
          ((c', s'), run, (effect, models, models', awaited, same)) =
        (
          (kept (record c' { argv = []; rbuf = buf_reset c'.rbuf }), s'),
          rw (parse_run, process_input-lem s s' (after_parse c b args) c' some_ run, after_reads),
          (
            effect,
            record {
              input =
                  subst (λ x. IsText (buf_reset x) []) (sym (ap (λ x. x.rbuf) same))
                    (reset-IsText text);
              fresh = ap (λ x. x.nargs) same;
              no_args = refl;
            },
            models,
            models',
            awaited,
          ),
        )

    -- Numbers are printed as digits and, below 2 ^ 31, read back where they end. A client that waits for a request
    -- and has no output to write; on its descriptor arrive, in pieces and with interruptions, the
    -- bytes of a request of fewer than 2 ^ 31 arguments of fewer than 2 ^ 31 bytes each, whose
    -- first argument names a command for the handler of `get` and which has a second one, then
    -- EAGAIN; there is memory for the buffer to grow, and the server is sound and the fuel is more
    -- than its tables have entries. `kvs_net_read` returns without a fault: the output is the reply
    -- to `get` for what the map has at the second argument, the client waits for the next request,
    -- the tables stand for the same maps, and `select` watches what is registered, in particular
    -- the descriptor for writing unless the output is empty.
    pub net_read-Served :
        (c : Client) (rs : List Answered) (name key : List ℕ) (rest : List (List ℕ)) (e : Entry)
        → IsIdle c
        → c.out ≡ []
        → Pauses rs
        → arrived rs ≡ encode decimal (name ∷ key ∷ rest)
        → length (name ∷ key ∷ rest) < 2 ^ 31
        → (short : AreShort (name ∷ key ∷ rest)) → commands name ≡ some e
        → e.cmd ≡ get_handler
        → Returns
            (Served key short.1.0 f n ready.entries_lt commands m)
            (net_read decimal strtoul k memory true (select events) net_write_proc rs s fd user c)
    unfolding net_read Collected after_parse encode
    net_read-Served c rs name key rest e idle no_out pauses bytes few short is_known is_get =
        go (read_loop-arrived rs 0 c.rbuf [] idle.input pauses (omega (arith, ap length bytes)))
      where
        args : List (List ℕ)
        args = name ∷ key ∷ rest

        Result : Ended × Buf → Type 0
        Result r =
            Returns (Served key short.1.0 f n ready.entries_lt commands m) (
              after_reads decimal strtoul k memory true (select events) net_write_proc s fd user c
                r)

        served : (b : Buf) → IsText b (encode decimal args) → Result (stopped, b)
        served b text =
            answered c b args key short.1.0 text (omega arith) (parsed c b args idle text few short)
              (command_process-GetDone decimal k memory true events net_write_proc user fd s
                (after_parse c b args) name key rest e ready refl no_out refl short.0 short.1.0
                is_known is_get)

        go :
            Returns (Collected (arrived rs)) (read_loop true rs 0 c.rbuf)
            → Returns (Served key short.1.0 f n ready.entries_lt commands m) (
                net_read decimal strtoul k memory true
                  (select events)
                  net_write_proc
                  rs
                  s
                  fd
                  user
                  c)
        go ((end_, b), run, (stops, text)) =
            let (r, run', done) = served b (subst (IsText b) bytes text) in
            (r, rw (net_read, run, stops) run', done)
