-- ===== src/Net/Output.antt =====
-- src/kvs_net.c, `kvs_net_write`. What `write` answers is an argument: a number of bytes that it
-- has taken, the error EINTR, or another error.
use ckv.Run.{Run, ok, out_of_fuel, ◌>>=◌}
use ckv.Base.Int.{ℤ, pos, negsuc}
use ckv.Ev.{Ev, Vtable, ev_del, ev_write}
use ckv.Net.{Client, client_reset}
use ckv.Base.{
  ℕ, ◌+◌, List, [], ◌∷◌, ◌++◌, length, take, drop, Option, Bool, true, false, ltb, ◌==◌,
  if◌then◌else◌,
}

pub data Wrote : Type 0 where
  taken : ℕ → Wrote
  interrupted refused : Wrote

-- The loop, from `cn` on: whether it ended without an error, `cn`, and the bytes that were taken.
unfoldable pub write_loop : List Wrote → ℕ → List (Option ℕ) → Run (Bool × ℕ × List (Option ℕ))
write_loop [] cn out = if ltb cn (length out) then out_of_fuel else ok (true, cn, [])
write_loop (interrupted ∷ ws) cn out = elim (ltb cn (length out)) [
  | false ↦ ok (true, cn, [])
  | true ↦ write_loop ws cn out
]
write_loop (refused ∷ ws) cn out =
    if ltb cn (length out) then ok (false, cn, []) else ok (true, cn, [])
write_loop (taken n ∷ ws) cn out = elim (ltb cn (length out)) [
  | false ↦ ok (true, cn, [])
  | true ↦
      write_loop ws (cn + n) out >>= λ (done, k, sent). ok (done, k, take n (drop cn out) ++ sent)
]

-- What a call leaves: its result, the bytes that were taken, the client and the event loop.
pub record Output (L : Type 0) : Type 0 where
  pub result : ℤ
  pub sent : List (Option ℕ)
  pub client : Client
  pub ev : L

module _ {B W P U : Type 0} (vt : Vtable B W P U) where
  -- What follows the loop.
  unfoldable pub after_writes :
      Ev B P U → ℕ → Client → Bool × ℕ × List (Option ℕ) → Run (Output (Ev B P U))
  unfolding client_reset
  after_writes e fd c (false, cn, sent) =
      ok (record { result = negsuc 0; sent = sent; client = c; ev = e })
  after_writes e fd c (true, cn, sent) = elim (length c.out == cn) [
    | true ↦ ev_del vt e fd ev_write >>= λ (r, e').
        ok (record { result = pos cn; sent = sent; client = client_reset c; ev = e' })
    | false ↦ ok (record { result = pos cn; sent = sent; client = c; ev = e })
  ]

  -- `kvs_net_write`
  unfoldable pub net_write : List Wrote → Ev B P U → ℕ → Client → Run (Output (Ev B P U))
  unfolding write_loop after_writes
  net_write ws e fd c = write_loop ws 0 c.out >>= λ r. after_writes e fd c r
