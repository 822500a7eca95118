-- ===== src/Hash/Rehash.antt =====
-- `kvs_hash_rehash`: up to `nbucket` slots move, and the map stays what it is.
use ckv.Base.Int.{is_zero}
use mathlib.Core.Option.{or_else}
use ckv.Base.{
  ap, sym, false, ◌≢◌, ℕ, zero, suc, ◌-◌, ◌≤◌, ◌<◌, ◌≡◌, refl, ◌∙◌, inl, inr, Option, none, some,
  List, [], arith, ◌==◌, Bool-cases, length, length-set, get_or, get_or-set, get_or-set_self,
  get_or-set_ne, set,
}
use ckv.Hash.{
  after_moves, start_index, ok, Bucket, rehash, rehash_into, Hash, Ptr, null, Moving, before,
  move_chain, move_buckets,
}
use ckv.Hash.Chain.{lookup, Chain, first}
use ckv.Hash.Migrate.{Migrating, move_chain-Emptied}
use ckv.Hash.Table.{
  Cursor, total-eq-zero, home, chain_at-eq-nil, growing, steady, Growing, Models, Steady, chain_at,
  total, total-set, length-le-total, Stale,
}
use ckv.Run.{◌>>=◌, at, at-get_or, bind-ok, Returns}

-- `h->index` as the number of slots that are still to be moved.
abbrev pub AtIndex : Option ℕ → ℕ → Type 0
AtIndex none c = c ≡ 0
AtIndex (some i) c = c ≡ suc i

AtIndex-before : (i c : ℕ) → c ≡ i → AtIndex (before i) c
AtIndex-before zero c e = e
AtIndex-before (suc i) c e = e

-- A count of slots, as `h->index` has it.
Cursor-AtIndex : (x : Option ℕ) (c n : ℕ) → AtIndex x c → c ≤ n → Cursor x c n
Cursor-AtIndex none c n e le = inl e
Cursor-AtIndex (some i) c n e le = (e, le)

-- Between two rounds of the outer loop: the slots from `c` on have been moved.
pub record Sweep {ℓ} {V : Type ℓ} (f : List ℕ → Option V) (n mask : ℕ) (slots : List Ptr) (c : ℕ)
    (index : Option ℕ) (m : Moving V) (old new : List (Chain V)) : Type ℓ where
  pub state : Migrating f n mask m old new
  pub width : length slots ≡ length old
  pub kept : (i : ℕ) → i < c → get_or slots i null ≡ first (chain_at old i)
  pub moved : (i : ℕ) → c ≤ i → (chain_at old i ≡ []) × Stale new (get_or slots i null)
  pub at_index : AtIndex index c
  pub bound : c ≤ length old

abbrev pub Swept {ℓ} :
    {V : Type ℓ} → (List ℕ → Option V) → ℕ → ℕ → List Ptr → ℕ → Option ℕ × Moving V → Type ℓ
Swept {V} f n mask slots c r =
    (old : List (Chain V)) × (new : List (Chain V)) × Sweep f n mask slots c r.0 r.1 old new

module _ {ℓ} {V : Type ℓ} (k : ℕ) (f : List ℕ → Option V) (n mask : ℕ) (slots : List Ptr) where
  -- One slot: its chain is moved, and its pointer stays where it was.
  Sweep-slot :
      (i c : ℕ) (m : Moving V) (old new : List (Chain V))
      → Sweep f n mask slots c (some i) m old new
      → total old < k
      → Returns
          (λ m'. (new' : List (Chain V)) × Sweep f n mask slots i (before i) m' (set old i []) new')
          (at slots i >>= move_chain k m)
  Sweep-slot i c m old new w fuel =
      let inside : i < length old = omega (arith, w.bound, w.at_index) in
      let p : get_or slots i null ≡ first (chain_at old i) = w.kept i (omega (arith, w.at_index)) in
      let (m', run, t) =
        move_chain-Emptied k n mask i f m old new (chain_at old i) w.state inside refl
          (omega (arith, length-le-total old i)) in
      (
        m',
        rw (at-get_or slots i null (omega (arith, w.width, inside)), p) run,
        (
          t.chains,
          record {
            state = t.state;
            width = rw length-set w.width;
            kept = λ j lt. ground (arith, w.kept j, get_or-set old i j [] [] inside, w.at_index);
            moved = λ j le. elim (Bool-cases (i == j)) [
              | inl same ↦
                  let e : i ≡ j = ground arith in
                  (rw (← e) (get_or-set_self old i [] [] inside), rw (← e) (rw p t.stale))
              | inr differ ↦ (
                get_or-set_ne old [] [] (ground arith) ∙ (w.moved j (ground (arith, w.at_index))).0,
                t.still (get_or slots j null) (w.moved j (ground (arith, w.at_index))).1,
              )
            ];
            at_index = AtIndex-before i i refl;
            bound = rw length-set (omega arith);
          },
        ),
      )

  pub move_buckets-Swept :
      (nbucket c c' : ℕ) (index : Option ℕ) (m : Moving V) (old new : List (Chain V))
      → c - nbucket ≡ c'
      → Sweep f n mask slots c index m old new
      → total old < k
      → Returns (Swept f n mask slots c') (move_buckets k slots nbucket index m)
  unfolding move_buckets
  move_buckets-Swept zero c c' index m old new e w fuel =
      let same : c ≡ c' = omega arith in ((index, m), refl, (old, new, rw (← same) w))
  move_buckets-Swept (suc b) c c' none m old new e w fuel =
      let same : c ≡ c' = omega (arith, w.at_index) in ((none, m), refl, (old, new, rw (← same) w))
  move_buckets-Swept (suc b) c c' (some i) m old new e w fuel =
      let (m', run, (new', w')) = Sweep-slot i c m old new w fuel in
      let (r, rest, t) =
        move_buckets-Swept b i c' (before i) m' (set old i []) new' (omega (arith, w.at_index)) w'
          (omega (arith, total-set old i [] (omega (arith, w.bound, w.at_index)))) in
      (r, bind-ok (at slots i) (move_chain k m) (move_buckets k slots b (before i)) run ∙ rest, t)

-- What a call leaves: one table, or two with at most `c` slots still to be moved.
pub data Rehashed {ℓ} {V : Type ℓ} (f : List ℕ → Option V) (n c : ℕ) (h : Hash V) : Type ℓ where
  finished : (gs : List (Chain V)) → Steady f n h gs → Rehashed f n c h
  unfinished :
      (e : Bucket) (old new : List (Chain V)) → Growing f n h e old new c → Rehashed f n c h

module _ {ℓ} {V : Type ℓ} where
  pub rehash_filling :
      (k nbucket : ℕ) (h : Hash V) (e : Bucket)
      → h.expand_buckets ≡ some e
      → rehash k h nbucket ≡ rehash_into k h e nbucket
  unfolding rehash rehash_into
  rehash_filling k nb h e filling = rw (filling, rehash)

  -- The loops of one call start in this state, and the structure is read off the one they end in.
  Sweep-Growing :
      {f : List ℕ → Option V} {n : ℕ} {h : Hash V} {e : Bucket} {old new : List (Chain V)} {c : ℕ}
      → Growing f n h e old new c
      → AtIndex (start_index h) c
      → c ≤ length old
      → Sweep f n h.buckets.mask h.buckets.buckets c
          (start_index h)
          (record { heap = h.heap; use_ = h.buckets.use_; expand = e })
          old
          new
  Sweep-Growing g at_index bound = record {
    state = record {
      heap = g.heap;
      used = g.table.used;
      amount = g.amount;
      room = g.table.mask;
      linked = g.table.linked;
      placed = g.table.placed;
      fresh = g.fresh;
      heads = g.heads;
      apart = g.apart;
      reads = g.reads;
    };
    width = g.table.width;
    kept = g.kept;
    moved = g.moved;
    at_index = at_index;
    bound = bound;
  }

  Growing-after_moves :
      {f : List ℕ → Option V} {n : ℕ} (h : Hash V) (old₀ : List (Chain V))
      {old new : List (Chain V)} {c : ℕ} (r : Option ℕ × Moving V)
      → h.buckets.size ≡ length old₀
      → suc h.buckets.mask ≡ length old₀
      → Sweep f n h.buckets.mask h.buckets.buckets c r.0 r.1 old new
      → Growing f n (after_moves h r) r.1.expand old new c
  Growing-after_moves h old₀ {old} {c} r size mask w = record {
    amount = w.state.amount;
    filling = refl;
    heap = w.state.heap;
    table = record {
      width = w.width;
      size = omega (arith, size, mask, w.state.room);
      mask = w.state.room;
      used = w.state.used;
      linked = w.state.linked;
      placed = w.state.placed;
    };
    fresh = w.state.fresh;
    heads = w.state.heads;
    apart = w.state.apart;
    kept = w.kept;
    moved = w.moved;
    cursor = Cursor-AtIndex r.0 c (length old) w.at_index w.bound;
    reads = w.state.reads;
  }

module _ {ℓ} {V : Type ℓ} {f : List ℕ → Option V} {n : ℕ} where
  pub Rehashed-Models : {c : ℕ} {h : Hash V} → Rehashed f n c h → Models f n h
  Rehashed-Models (finished gs s) = steady gs s
  Rehashed-Models {c} (unfinished e old new g) = growing e old new c g

  -- The old table has been emptied: it is dropped.
  switch-Steady :
      {h : Hash V} {e : Bucket} {old new : List (Chain V)} {c : ℕ}
      → Growing f n h e old new c
      → total old ≡ 0
      → Steady f n (record h { buckets = e; expand_buckets = none; index = none }) new
  unfolding or_else lookup
  switch-Steady {h} {e} {old} {new} g z = record {
    amount = omega (arith, g.amount);
    alone = refl;
    idle = refl;
    heap = g.heap;
    table = g.fresh;
    heads = g.heads;
    reads = λ q. rw (chain_at-eq-nil old (home h.buckets.mask q) z) at (g.reads q);
  }

  start_at :
      {h : Hash V} {e : Bucket} {old new : List (Chain V)} {c : ℕ}
      → Growing f n h e old new c
      → total old ≢ 0
      → AtIndex (start_index h) c × (c ≤ length old)
  start_at {h} {old} {c} g ne = go h.index refl g.cursor
    where
      empty : c ≡ 0 → total old ≡ 0
      empty z = total-eq-zero old (λ i. (g.moved i (omega arith)).0)

      go :
          (x : Option ℕ)
          → h.index ≡ x
          → Cursor x c (length old)
          → AtIndex (start_index h) c × (c ≤ length old)
      go none e (inl z) = absurd (ne (empty z))
      go none e (inr all) =
          rw e (AtIndex-before h.buckets.size c (all ∙ sym g.table.size), omega arith)
      go (some i) e at_i = rw e at_i

  -- Such a call ends with one table.
  pub rehash_into-Steady :
      (k nbucket : ℕ) {h : Hash V} {e : Bucket} {old new : List (Chain V)} {c : ℕ}
      → Growing f n h e old new c
      → total old ≡ 0
      → Returns (λ h'. (gs : List (Chain V)) × Steady f n h' gs) (rehash_into k h e nbucket)
  unfolding rehash_into
  rehash_into-Steady k nb {h} {e} {new} g z = (
    record h { buckets = e; expand_buckets = none; index = none },
    rw (ap is_zero g.table.used, z),
    (new, switch-Steady g z),
  )

  rehash_into-Rehashed :
      (k nbucket : ℕ) {h : Hash V} {e : Bucket} {old new : List (Chain V)} {c : ℕ}
      → n < k
      → Growing f n h e old new c
      → Returns (Rehashed f n (c - nbucket)) (rehash_into k h e nbucket)
  unfolding rehash_into
  rehash_into-Rehashed k nb {h} {e} {old} {new} {c} fuel g = elim (Bool-cases (total old == 0)) [
    | inl z ↦
        let (h', run, (gs, s)) = rehash_into-Steady k nb g (ground arith) in
        (h', run, finished gs s)
    | inr nz ↦
        let (at_index, bound) = start_at g (ground arith) in
        let (r, run, (old', new', w)) =
          move_buckets-Swept k f n h.buckets.mask h.buckets.buckets nb c (c - nb) (start_index h)
            (record { heap = h.heap; use_ = h.buckets.use_; expand = e }) old new refl
            (Sweep-Growing g at_index bound) (omega (arith, g.amount)) in
        (
          after_moves h r,
          run_of nz r run,
          unfinished r.1.expand old' new' (Growing-after_moves h old r g.table.size g.table.mask w),
        )
  ]
    where
      run_of :
          total old == 0 ≡ false
          → (r : Option ℕ × Moving V)
          → move_buckets k h.buckets.buckets nb
              (start_index h)
              (record { heap = h.heap; use_ = h.buckets.use_; expand = e })
            ≡ ok r
          → rehash_into k h e nb ≡ ok (after_moves h r)
      run_of nz r run = rw (ap is_zero g.table.used ∙ nz, run)

  -- While two tables are in use that stand for the map `f`, with `c` slots left to be moved,
  -- `kvs_hash_rehash` returns without a fault, and what it leaves stands for `f`: one table, or
  -- two with `c - nbucket` slots left, on subtraction that stops at 0. The fuel is to exceed the
  -- number of entries.
  pub rehash-Rehashed :
      (k nbucket : ℕ) {h : Hash V} {e : Bucket} {old new : List (Chain V)} {c : ℕ}
      → n < k
      → Growing f n h e old new c
      → Returns (Rehashed f n (c - nbucket)) (rehash k h nbucket)
  rehash-Rehashed k nb {h} {e} fuel g =
      rw (rehash_filling k nb h e g.filling) (rehash_into-Rehashed k nb fuel g)

  pub rehash-Steady :
      (k nbucket : ℕ) {h : Hash V} {gs : List (Chain V)}
      → Steady f n h gs
      → rehash k h nbucket ≡ ok h
  unfolding rehash
  rehash-Steady k nb s = rw s.alone

  -- `kvs_hash_rehash` does not fault, and keeps the map and the number of entries.
  pub rehash-Models :
      (k nbucket : ℕ) {h : Hash V}
      → n < k
      → Models f n h
      → Returns (Models f n) (rehash k h nbucket)
  rehash-Models k nb {h} fuel (steady gs s) = (h, rehash-Steady k nb s, steady gs s)
  rehash-Models k nb fuel (growing e old new c g) =
      let (h', run, t) = rehash-Rehashed k nb fuel g in (h', run, Rehashed-Models t)
