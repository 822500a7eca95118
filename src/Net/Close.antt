-- ===== src/Net/Close.antt =====
-- src/kvs_net.c, `kvs_net_read` when the client hangs up.
use ckv.Run.{ok, Returns}
use ckv.Hash.{Malloc}
use ckv.Str.{Buf}
use ckv.Ev.{Ev, Mask, ev_unused, without}
use ckv.Ev.Select.{Select, select}
use ckv.Ev.Watch.{IsWatching, mask_at}
use ckv.Ev.Exact.{OnlyAt, take_from, ev_del-Unregistered}
use mathlib.Core.Path.{subst}
use ckv.Net.{Client, client_free}
use ckv.Net.Input.{
  Answered, Fate, kept, dropped, chunk, interrupted, again, failed, closed, hung_up, read_loop,
  parse_input, process_input, serve_input, end_input, after_reads, net_read,
}
use ckv.Command.Process.{Server}
use ckv.Base.{
  ◌==◌, ◌&&◌, ℕ, ◌<◌, ◌≡◌, List, [], ◌∷◌, length, Option, Bool, true, false, ltb, refl, ap, ◌∙◌,
  arith,
}

-- The end of the input, with nothing before it.
abbrev pub HangsUp : List Answered → Type 0
HangsUp [] = ⊥
HangsUp (chunk bytes ∷ rs) = ⊥
HangsUp (interrupted ∷ rs) = HangsUp rs
HangsUp (again ∷ rs) = ⊥
HangsUp (failed ∷ rs) = ⊥
HangsUp (closed ∷ rs) = Unit {0}

read_loop-HangsUp :
    (memory : Bool) (rs : List Answered) (cnt : ℕ) (b : Buf)
    → HangsUp rs
    → read_loop memory rs cnt b ≡ ok (hung_up, b)
unfolding read_loop
read_loop-HangsUp memory [] cnt b h = absurd h
read_loop-HangsUp memory (chunk bytes ∷ rs) cnt b h = absurd h
read_loop-HangsUp memory (interrupted ∷ rs) cnt b h = read_loop-HangsUp memory rs cnt b h
read_loop-HangsUp memory (again ∷ rs) cnt b h = absurd h
read_loop-HangsUp memory (failed ∷ rs) cnt b h = absurd h
read_loop-HangsUp memory (closed ∷ rs) cnt b h = refl

-- `KVS_EV_READ|KVS_EV_WRITE`
abbrev both : Mask
both = record { read = true; write = true }

without-both : (m : Mask) → without m both ≡ ev_unused
without-both m = go m.read m.write
  where
    go : (r w : Bool) → without (record { read = r; write = w }) both ≡ ev_unused
    go true true = refl
    go true false = refl
    go false true = refl
    go false false = refl

-- What is left without the client: its descriptor is closed, the memory of its input released, and
-- nothing watches the descriptor.
abbrev pub Gone :
    {P U : Type 0} → ℕ → Server (Ev Select P U) → Client → Fate × Server (Ev Select P U) → Type 0
Gone fd s c (kept c', s') = ⊥
Gone fd s c (dropped closed_fd released, s') =
    (closed_fd ≡ fd)
    × (released ≡ c.rbuf.cells)
    × (s'.hash ≡ s.hash)
    × (s'.commands ≡ s.commands)
    × IsWatching s'.ev
    × (mask_at s'.ev.cache fd ≡ ev_unused)
    × OnlyAt s.ev fd (take_from both) s.ev.maxfd (true, s'.ev)

module _ (decimal : ℕ → List ℕ) (strtoul : List (Option ℕ) → ℕ) (k : ℕ) (memory : Malloc)
    (grown : Bool) {P U : Type 0} (events : Bool) (net_write_proc : P) (user : U) (fd : ℕ) where
  -- Nothing to parse and nothing to run.
  serve_input_idle :
      (s : Server (Ev Select P U)) (c : Client)
      → c.rbuf.len ≡ 0
      → c.argv ≡ []
      → serve_input decimal strtoul k memory grown (select events) net_write_proc s fd user c
        ≡ ok (c, s)
  unfolding serve_input parse_input process_input
  serve_input_idle s c empty no_args =
      let quiet : ltb 0 c.rbuf.len ≡ false = ground (arith, empty) in
      let no_command : ltb 0 (length c.argv) ≡ false = ground (arith, ap length no_args) in
      rw (quiet, no_command)

  -- A client without input or arguments, with a buffer that is not a `kvs_buffer_t`, hangs up, after
  -- some interruptions: `kvs_net_read` returns without a fault, has closed the client's descriptor,
  -- one below the loop's size, and released the memory of its input; the tables are as before,
  -- `select` watches what is registered, the descriptor is not watched at all, and no other
  -- registration is different.
  pub net_read-Gone :
      (s : Server (Ev Select P U)) (c : Client) (rs : List Answered)
      → IsWatching s.ev
      → fd < s.ev.size
      → c.rbuf.is_buffer ≡ false
      → c.rbuf.len ≡ 0
      → c.argv ≡ []
      → HangsUp rs
      → Returns
          (Gone fd s c)
          (net_read decimal strtoul k memory grown (select events) net_write_proc rs s fd user c)
  unfolding net_read after_reads end_input client_free
  net_read-Gone s c rs w inside plain empty no_args hangs =
      let ((r, e'), run, (ch, only)) = ev_del-Unregistered events fd both w in
      let here : (ltb fd s.ev.size && (fd == fd)) ≡ true = ground (arith, inside) in
      let done : r ≡ true = ch.done ∙ ground (arith, inside) in
      (
        (dropped fd c.rbuf.cells, record s { ev = e' }),
        rw (
          net_read,
          read_loop-HangsUp grown rs 0 c.rbuf hangs,
          after_reads,
          serve_input_idle s c empty no_args,
          run,
          end_input,
          plain,
        ),
        (
          refl,
          refl,
          refl,
          refl,
          ch.sound,
          ch.masks fd ∙ rw here (without-both (mask_at s.ev.cache fd)),
          subst (λ x. OnlyAt s.ev fd (take_from both) s.ev.maxfd (x, e')) done only,
        ),
      )
