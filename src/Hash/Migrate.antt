-- ===== src/Hash/Migrate.antt =====
-- The inner loop of `kvs_hash_rehash`: the nodes of one old slot move to the new table.
use mathlib.Core.Option.{or_else}
use mathlib.Core.List.{append-nil}
use ckv.Base.{
  ℕ, zero, suc, ◌+◌, ◌≤◌, ◌<◌, ◌≡◌, ◌≢◌, refl, sym, ap, ◌∙◌, Option, some, List, [], ◌∷◌, arith,
  ◌==◌, bytes_eq, bytes_eq_refl, eq_of_bytes_eq, if◌then◌else◌, length, length-set, set-set,
  set-get_or, get_or-set, get_or-set_self, set,
}
use ckv.Base.Int.{pos, inc, dec, inc-pos, dec-pos}
use ckv.HashFunc.{key_hash}
use ckv.Hash.{Ptr, null, Node, Moving, write, move_chain}
use ckv.Hash.Chain.{
  Cell, Chain, to_nat, first, node_of, Linked, count, lookup, lookup-eq-none, Linked-update,
  load-Linked,
}
use ckv.Hash.Table.{
  Stale-set, home, chain_at, total, total-set, IsPlaced, IsTable, Heads, home_chain, home-lt,
  IsHeap, set-IsPlaced, Linked-set, home-of, count_elsewhere, Stale,
}
use ckv.Run.{at-get_or, Returns}

-- Within the loop: the old chains `old` (under the old mask) and the new table over `new`.
pub record Migrating {ℓ} {V : Type ℓ} (f : List ℕ → Option V) (n mask : ℕ) (m : Moving V)
    (old new : List (Chain V)) : Type ℓ where
  pub heap : IsHeap m.heap
  pub used : m.use_ ≡ pos (total old)
  pub amount : total old + total new ≡ n
  pub room : suc mask ≡ length old
  pub linked : (i : ℕ) → Linked m.heap.cell (chain_at old i)
  pub placed : IsPlaced mask old
  pub fresh : IsTable m.heap.cell m.expand new
  pub heads : Heads m.expand.buckets new
  pub apart :
      (q : List ℕ) → count q (chain_at old (home mask q)) + count q (home_chain m.expand new q) ≤ 1
  pub reads :
      (q : List ℕ)
      → or_else (lookup q (chain_at old (home mask q))) (lookup q (home_chain m.expand new q)) ≡ f q

-- One node moved: the slot that it goes to, and the state behind it.
abbrev pub target {ℓ} : {V : Type ℓ} → Moving V → Cell V → ℕ
target m c = home m.expand.mask c.key

abbrev pub moved_one {ℓ} : {V : Type ℓ} → Moving V → Cell V → List (Chain V) → Moving V
moved_one m c new =
    let s = target m c in
    record m {
      heap = write m.heap c.ptr (some (node_of c (first (chain_at new s))));
      use_ = dec m.use_;
      expand = record (m.expand) {
        buckets = set m.expand.buckets s c.ptr;
        use_ = inc m.expand.use_;
      };
    }

abbrev pub chains_after {ℓ} : {V : Type ℓ} → Moving V → Cell V → List (Chain V) → List (Chain V)
chains_after m c new = let s = target m c in set new s (c ∷ chain_at new s)

module _ {ℓ} {V : Type ℓ} (f : List ℕ → Option V) (n mask : ℕ) (m : Moving V)
    (old new : List (Chain V)) (g : Migrating f n mask m old new) (i : ℕ) (inside : i < length old)
    (c : Cell V) (xs : Chain V) (here : chain_at old i ≡ c ∷ xs) where
  s : ℕ
  s = target m c

  s-lt : s < length new
  unfolding s
  s-lt = home-lt g.fresh c.key

  once : (q : List ℕ) → to_nat (bytes_eq c.key q) + count q xs ≤ 1
  unfolding count
  once q = rw here at (g.placed q i).0

  Linked-here : Linked m.heap.cell (c ∷ xs)
  Linked-here = rw here at (g.linked i)

  home-here : home mask c.key ≡ i
  unfolding count
  home-here = home-of mask old i c.key g.placed (rw here (rw (bytes_eq_refl c.key) (omega arith)))

  absent_new : (j : ℕ) → count c.key (chain_at new j) ≡ 0
  unfolding count
  absent_new j =
      count_elsewhere m.expand.mask new j c.key g.fresh.placed (omega (arith, one, g.apart c.key))
    where
      one : 1 ≤ count c.key (chain_at old (home mask c.key))
      one = rw (home-here, here) (rw (bytes_eq_refl c.key) (omega arith))

  absent_old : (j : ℕ) → i ≢ j → count c.key (chain_at old j) ≡ 0
  absent_old j ne = (g.placed c.key j).1 (rw home-here ne)

  absent_rest : count c.key xs ≡ 0
  absent_rest = omega (arith, once c.key, ap to_nat (bytes_eq_refl c.key))

  cell' : Ptr → Option (Node V)
  cell' = (moved_one m c new).heap.cell

  spared : (ys : Chain V) → count c.key ys ≡ 0 → Linked m.heap.cell ys → Linked cell' ys
  unfolding cell' s
  spared ys h l = Linked-update m.heap.cell c.ptr (node_of c (first xs)) _ ys Linked-here.1 h l

  new_chain : Chain V
  new_chain = c ∷ chain_at new s

  new-IsTable : IsTable cell' (moved_one m c new).expand (set new s new_chain)
  unfolding new_chain cell' s count
  new-IsTable = record {
    width = rw (length-set, length-set) g.fresh.width;
    size = rw length-set g.fresh.size;
    mask = rw length-set g.fresh.mask;
    used = rw g.fresh.used (inc-pos _ _ (omega (arith, total-set new s new_chain s-lt)));
    linked =
        Linked-set new m.expand.mask s s-lt g.fresh.placed new_chain cell'
          (λ j ne. spared (chain_at new j) (absent_new j) (g.fresh.linked j))
          (Linked-here.0, ground arith, spared (chain_at new s) (absent_new s) (g.fresh.linked s));
    placed =
        set-IsPlaced new m.expand.mask s s-lt g.fresh.placed new_chain
          (λ r. ground (arith, eq_of_bytes_eq c.key r, absent_new s, g.fresh.placed r s))
          (λ r ne. ground (arith, eq_of_bytes_eq c.key r, g.fresh.placed r s));
  }

  new-Heads : Heads (moved_one m c new).expand.buckets (set new s new_chain)
  unfolding new_chain s
  new-Heads j =
      rw
        (
          get_or-set new s j new_chain [] s-lt,
          get_or-set m.expand.buckets s j c.ptr null (rw g.fresh.width s-lt),
        )
        (ground (arith, g.heads j))

  new_heap : IsHeap (moved_one m c new).heap
  new_heap = record {
    nonzero = g.heap.nonzero;
    free = λ p le. ground (arith, g.heap.free p le, Linked-here.1);
  }

  -- Chains of the key `q` in the two tables, before and after.
  old_chain :
      (q : List ℕ)
      → chain_at (set old i xs) (home mask q)
        ≡ (if i == home mask q then xs else chain_at old (home mask q))
  old_chain q = get_or-set old i (home mask q) xs [] inside

  target_chain :
      (q : List ℕ)
      → home_chain (moved_one m c new).expand (set new s new_chain) q
        ≡ (if s == home m.expand.mask q then new_chain else home_chain m.expand new q)
  target_chain q = get_or-set new s (home m.expand.mask q) new_chain [] s-lt

  new_apart :
      (q : List ℕ)
      → count q (chain_at (set old i xs) (home mask q))
          + count q (home_chain (moved_one m c new).expand (set new s new_chain) q)
        ≤ 1
  unfolding new_chain s count
  new_apart q =
      rw (old_chain q, target_chain q)
        (ground (
          arith,
          g.apart q,
          once q,
          eq_of_bytes_eq c.key q,
          here,
          home-here,
          absent_rest,
          absent_new (home m.expand.mask c.key),
        ))

  new_reads :
      (q : List ℕ)
      → or_else
          (lookup q (chain_at (set old i xs) (home mask q)))
          (lookup q (home_chain (moved_one m c new).expand (set new s new_chain) q))
        ≡ f q
  unfolding new_chain s lookup or_else
  new_reads q =
      rw (old_chain q, target_chain q)
        (ground (
          arith,
          g.reads q,
          eq_of_bytes_eq c.key q,
          here,
          home-here,
          lookup-eq-none c.key xs absent_rest,
        ))

  few : (r : List ℕ) → count r xs ≤ 1
  few r = omega (arith, once r)

  elsewhere : (r : List ℕ) → home mask r ≢ i → count r xs ≡ 0
  unfolding count
  elsewhere r ne = omega (arith, (rw here at (g.placed r i).1) ne)

  pub moved_one-Migrating :
      Migrating f n mask (moved_one m c new) (set old i xs) (chains_after m c new)
  unfolding new_chain cell' s
  moved_one-Migrating = record {
    heap = new_heap;
    used = rw g.used (dec-pos _ _ (omega (arith, total-set old i xs inside, ap length here)));
    amount = omega (
      arith,
      g.amount,
      total-set old i xs inside,
      ap length here,
      total-set new s new_chain s-lt,
    );
    room = rw length-set g.room;
    linked =
        Linked-set old mask i inside g.placed xs cell'
          (λ j ne. spared (chain_at old j) (absent_old j ne) (g.linked j))
          (spared xs absent_rest Linked-here.2);
    placed = set-IsPlaced old mask i inside g.placed xs few elsewhere;
    fresh = new-IsTable;
    heads = new-Heads;
    apart = new_apart;
    reads = new_reads;
  }

module _ {ℓ} {V : Type ℓ} where
  -- The step of the loop is `moved_one`.
  move_chain_step :
      (k n mask : ℕ) (f : List ℕ → Option V) (m : Moving V) (old new : List (Chain V)) (c : Cell V)
      (xs : Chain V)
      → Migrating f n mask m old new
      → Linked m.heap.cell (c ∷ xs)
      → move_chain (suc k) m c.ptr ≡ move_chain k (moved_one m c new) (first xs)
  unfolding move_chain home key_hash
  move_chain_step k n mask f m old new c xs g l = rw (
    l.0,
    load-Linked m.heap c xs l,
    at-get_or m.expand.buckets (target m c) null (rw g.fresh.width (home-lt g.fresh c.key)),
    g.heads (target m c),
  )

  -- The old slot has been emptied, the old pointer `p` of the slot now leads into a new chain,
  -- and so does every pointer that did before.
  pub record Emptied (f : List ℕ → Option V) (n mask : ℕ) (old new : List (Chain V)) (i : ℕ)
      (p : Ptr) (m : Moving V) : Type ℓ where
    pub chains : List (Chain V)
    pub state : Migrating f n mask m (set old i []) chains
    pub stale : Stale chains p
    pub still : (q : Ptr) → Stale new q → Stale chains q

  pub move_chain-Emptied :
      (k n mask i : ℕ) (f : List ℕ → Option V) (m : Moving V) (old new : List (Chain V))
      (xs : Chain V)
      → Migrating f n mask m old new
      → i < length old
      → chain_at old i ≡ xs
      → length xs < k
      → Returns (Emptied f n mask old new i (first xs)) (move_chain k m (first xs))
  move_chain-Emptied zero n mask i f m old new xs g inside here fuel = absurd (omega arith)
  move_chain-Emptied (suc k) n mask i f m old new [] g inside here fuel = (
    m,
    unfold move_chain in refl,
    record {
      chains = new;
      state = rw (ap (set old i) (sym here) ∙ set-get_or old i []) g;
      stale = (0, chain_at new 0, [], sym (append-nil (chain_at new 0)), refl);
      still = λ q t. t;
    },
  )
  move_chain-Emptied (suc k) n mask i f m old new (c ∷ xs) g inside here fuel =
      let l = rw here at (g.linked i) in
      let lt = home-lt g.fresh c.key in
      let g' = moved_one-Migrating f n mask m old new g i inside c xs here in
      let (r, run, t) =
        move_chain-Emptied k n mask i f (moved_one m c new) (set old i xs) (chains_after m c new) xs
          g' (rw length-set inside) (get_or-set_self old i xs [] inside) (omega arith) in
      (
        r,
        rw (move_chain_step k n mask f m old new c xs g l) run,
        record {
          chains = t.chains;
          state = rw (set-set old i xs []) at t.state;
          stale = t.still c.ptr (
            target m c,
            [],
            c ∷ chain_at new (target m c),
            get_or-set_self new (target m c) _ [] lt,
            refl,
          );
          still = λ q u. t.still q (Stale-set new (target m c) c q lt u);
        },
      )
