-- ===== src/Net/Sending.antt =====
-- What src/kvs_net.c sends, whatever `write` takes at a time.
use ckv.Run.{ok, ◌>>=◌, Returns}
use ckv.Str.Text.{take-drop}
use ckv.Net.Cells.{drop_add}
use ckv.Net.{Client, client_reset}
use ckv.Ev.{Ev, ev_del, ev_write, without}
use ckv.Ev.Select.{Select, select}
use ckv.Ev.Watch.{IsWatching, Changed, ev_del-Changed, mask_at}
use ckv.Base.Int.{pos, negsuc}
use ckv.Net.Output.{Wrote, taken, interrupted, refused, write_loop, after_writes, net_write, Output}
use ckv.Base.{
  ◌∙◌, ◌∙◌, ◌∙◌, ◌∙◌, ◌∙◌, ◌∙◌, ◌∙◌, ◌∙◌, ◌∙◌, ◌∙◌, ◌∙◌, ◌∙◌, ◌∙◌, ◌∙◌, ◌∙◌, ◌∙◌, ◌∙◌, ◌∙◌, ◌∙◌,
  take_add, drop_all, ◌∙◌, ℕ, suc, zero, ◌+◌, ◌-◌, ◌<◌, ◌≤◌, ◌≡◌, List, [], ◌∷◌, ◌++◌, length, take,
  drop, Option, Bool, true, false, ltb, ◌==◌, refl, sym, ap, ◌∙◌, arith,
}

-- `write` takes all of `left` bytes in the end, never more than it is given.
abbrev pub TakesAll : List Wrote → ℕ → Type 0
TakesAll ws zero = Unit {0}
TakesAll [] (suc left) = ⊥
TakesAll (interrupted ∷ ws) (suc left) = TakesAll ws (suc left)
TakesAll (refused ∷ ws) (suc left) = ⊥
TakesAll (taken n ∷ ws) (suc left) = (n ≤ suc left) × TakesAll ws (suc left - n)

-- `write` takes `k` of `left` bytes, not all, and then answers with an error.
abbrev pub TakesSome : List Wrote → ℕ → ℕ → Type 0
TakesSome [] k left = ⊥
TakesSome (interrupted ∷ ws) k left = (0 < left) × TakesSome ws k left
TakesSome (refused ∷ ws) k left = (k ≡ 0) × (0 < left)
TakesSome (taken n ∷ ws) k left = (n ≤ k) × (n < left) × TakesSome ws (k - n) (left - n)

write_loop_end :
    (ws : List Wrote) (cn : ℕ) (out : List (Option ℕ))
    → length out ≤ cn
    → write_loop ws cn out ≡ ok (true, cn, [])
unfolding write_loop
write_loop_end ws cn out le = go ws
  where
    at_end : ltb cn (length out) ≡ false
    at_end = ground (arith, le)

    go : (ws : List Wrote) → write_loop ws cn out ≡ ok (true, cn, [])
    go [] = rw at_end
    go (interrupted ∷ ws) = rw (at_end, write_loop)
    go (refused ∷ ws) = rw at_end
    go (taken n ∷ ws) = rw (at_end, write_loop)

write_loop_taken :
    (n : ℕ) (ws : List Wrote) (cn : ℕ) (out : List (Option ℕ)) {done : Bool} {k : ℕ}
    {sent : List (Option ℕ)}
    → ltb cn (length out) ≡ true
    → write_loop ws (cn + n) out ≡ ok (done, k, sent)
    → write_loop (taken n ∷ ws) cn out ≡ ok (done, k, take n (drop cn out) ++ sent)
unfolding write_loop
write_loop_taken n ws cn out more run = rw (more, run, write_loop)

write_loop-TakesAll :
    (ws : List Wrote) (cn left : ℕ) (out : List (Option ℕ))
    → length out ≡ cn + left
    → TakesAll ws left
    → write_loop ws cn out ≡ ok (true, length out, drop cn out)
unfolding write_loop
write_loop-TakesAll ws cn zero out e all =
    write_loop_end ws cn out (omega (arith, e))
    ∙ ap (λ x. ok (true, cn, x)) (sym (drop_all cn out (omega (arith, e))))
    ∙ ap (λ n. ok (true, n, drop cn out)) (omega (arith, e))
write_loop-TakesAll [] cn (suc left) out e all = absurd all
write_loop-TakesAll (interrupted ∷ ws) cn (suc left) out e all =
    let more : ltb cn (length out) ≡ true = ground (arith, e) in
    rw (more, write_loop) (write_loop-TakesAll ws cn (suc left) out e all)
write_loop-TakesAll (refused ∷ ws) cn (suc left) out e all = absurd all
write_loop-TakesAll (taken n ∷ ws) cn (suc left) out e (le, all) =
    let more : ltb cn (length out) ≡ true = ground (arith, e) in
    write_loop_taken n ws cn out more
      (write_loop-TakesAll ws (cn + n) (suc left - n) out (omega (arith, e, le)) all)
    ∙ ap (λ x. ok (true, length out, take n (drop cn out) ++ x)) (drop_add cn n out)
    ∙ ap (λ x. ok (true, length out, x)) (sym (take-drop n (drop cn out)))

write_loop-TakesSome :
    (ws : List Wrote) (cn k left : ℕ) (out : List (Option ℕ))
    → length out ≡ cn + left
    → TakesSome ws k left
    → write_loop ws cn out ≡ ok (false, cn + k, take k (drop cn out))
unfolding write_loop
write_loop-TakesSome [] cn k left out e some_ = absurd some_
write_loop-TakesSome (interrupted ∷ ws) cn k left out e (lt, some_) =
    let more : ltb cn (length out) ≡ true = ground (arith, e, lt) in
    rw (more, write_loop) (write_loop-TakesSome ws cn k left out e some_)
write_loop-TakesSome (refused ∷ ws) cn k left out e (z, lt) =
    let more : ltb cn (length out) ≡ true = ground (arith, e, lt) in
    let same : cn + 0 ≡ cn = omega arith in rw (more, z, same)
write_loop-TakesSome (taken n ∷ ws) cn k left out e (nk, lt, some_) =
    let more : ltb cn (length out) ≡ true = ground (arith, e, lt) in
    let whole : cn + n + (k - n) ≡ cn + k = omega (arith, nk) in
    let parts : n + (k - n) ≡ k = omega (arith, nk) in
    write_loop_taken n ws cn out more
      (write_loop-TakesSome ws (cn + n) (k - n) (left - n) out (omega (arith, e, lt)) some_)
    ∙ ap (λ x. ok (false, cn + n + (k - n), take n (drop cn out) ++ take (k - n) x))
        (drop_add cn n out)
    ∙ ap (λ x. ok (false, cn + n + (k - n), x)) (sym (take_add n (k - n) (drop cn out)))
    ∙ rw (whole, parts)

module _ {P U : Type 0} (memory : Bool) (ws : List Wrote) (fd : ℕ) (c : Client) {e : Ev Select P U}
    (w : IsWatching e) where
  -- What `kvs_net_write` leaves when everything was taken.
  abbrev pub SentEffect : Output (Ev Select P U) → Type 0
  SentEffect o =
      (o.result ≡ pos (length c.out))
      × (o.sent ≡ c.out)
      × (o.client ≡ client_reset c)
      × IsWatching o.ev
      × ((mask_at o.ev.cache fd).write ≡ false)

  -- While `select` watches what is registered, and `write` takes all bytes of the output in the
  -- end, some at a time and with interruptions: `kvs_net_write` returns their number, the bytes of
  -- the output have been written once each and in order, the client's output is empty, and the
  -- descriptor, one below the loop's size, is no longer watched for writing.
  pub net_write-SentEffect :
      fd < e.size
      → TakesAll ws (length c.out)
      → Returns SentEffect (net_write (select memory) ws e fd c)
  unfolding net_write after_writes
  net_write-SentEffect inside all = go (ev_del-Changed memory fd ev_write w)
    where
      same : (length c.out == length c.out) ≡ true
      same = ground arith

      go :
          Returns (Changed e (λ m. without m ev_write) fd) (ev_del (select memory) e fd ev_write)
          → Returns SentEffect (net_write (select memory) ws e fd c)
      go ((r, e'), run, ch) = (
        record { result = pos (length c.out); sent = c.out; client = client_reset c; ev = e' },
        ap (λ r. r >>= λ x. after_writes (select memory) e fd c x)
              (write_loop-TakesAll ws 0 (length c.out) c.out (omega arith) all)
            ∙ rw (same, run, after_writes),
        (refl, refl, refl, ch.sound, rw (ch.masks fd) (ground (arith, inside))),
      )

  -- `write` takes the first `k` bytes of the output and then answers with an error: the result is
  -- -1, exactly these bytes have been written, and the client and the loop are as before, so that
  -- the next call starts at the first byte again.
  pub net_write-refused :
      (k : ℕ)
      → TakesSome ws k (length c.out)
      → net_write (select memory) ws e fd c
        ≡ ok (record { result = negsuc 0; sent = take k c.out; client = c; ev = e })
  unfolding net_write
  net_write-refused k some_ =
      rw (write_loop-TakesSome ws 0 k (length c.out) c.out (omega arith) some_)
