-- ===== src/Hash/Insert.antt =====
-- A new node in front of the chain of its slot.
use ckv.Run.{at-get_or}
use ckv.Hash.Assign.{put}
use ckv.Hash.Lookup.{add_new, push}
use ckv.HashFunc.{IsKey}
use ckv.Base.Int.{inc-pos, inc}
use ckv.Hash.Table.{
  Stale-set, Growing, Steady, set-IsPlaced, Linked-set, home-lt, total-set, total, Heads, chain_at,
  home_chain, IsTable, home, IsHeap,
}
use ckv.Hash.Chain.{lookup-eq-none, lookup, first, node_of, count, Linked-fresh, Chain, Cell}
use ckv.Hash.{ok, Hash, null, update, Bucket, Ptr, Heap}
use mathlib.Core.Option.{or_else}
use ckv.Base.{
  refl, ◌^◌, ◌%◌, ap, get_or, Option, eq_of_bytes_eq, [], ◌==◌, get_or-set, length-set, length,
  if◌then◌else◌, ◌<◌, ◌∷◌, some, none, arith, ◌≡◌, set, suc, ℕ, List,
}

module _ {ℓ} {V : Type ℓ} (q : List ℕ) (v : V) where
  -- The new cell, the heap with it, the table with it and its chains.
  abbrev pub cell_new : Heap V → Cell V
  cell_new heap = record { ptr = heap.top; key = q; val = v }

  abbrev pub heap_with : Heap V → Ptr → Heap V
  heap_with heap next = record {
    top = suc heap.top;
    cell = update heap.cell heap.top (some (node_of (cell_new heap) next));
  }

  abbrev pub bucket_with : Heap V → Bucket → Bucket
  bucket_with heap b = record b {
    buckets = set b.buckets (home b.mask q) heap.top;
    use_ = inc b.use_;
  }

  abbrev pub chains_with : Heap V → Bucket → List (Chain V) → List (Chain V)
  chains_with heap b gs = set gs (home b.mask q) (cell_new heap ∷ home_chain b gs q)

  module _ (heap : Heap V) (w : IsHeap heap) (next : Ptr) where
    unused : heap.cell heap.top ≡ none
    unused = w.free heap.top (omega arith)

    IsHeap-insert : IsHeap (heap_with heap next)
    IsHeap-insert = record { nonzero = ground arith; free = λ p le. ground (arith, w.free p) }

    IsTable-other :
        {b : Bucket} {gs : List (Chain V)}
        → IsTable heap.cell b gs
        → IsTable (heap_with heap next).cell b gs
    IsTable-other {gs} t = record {
      width = t.width;
      size = t.size;
      mask = t.mask;
      used = t.used;
      linked = λ j. Linked-fresh heap.cell heap.top _ (chain_at gs j) unused (t.linked j);
      placed = t.placed;
    }

  module _ (heap : Heap V) (w : IsHeap heap) {b : Bucket} {gs : List (Chain V)}
      (t : IsTable heap.cell b gs) (absent : count q (home_chain b gs q) ≡ 0) where
    inside : home b.mask q < length gs
    inside = home-lt t q

    IsTable-insert :
        IsTable
          (heap_with heap (first (home_chain b gs q))).cell
          (bucket_with heap b)
          (chains_with heap b gs)
    unfolding count
    IsTable-insert = record {
      width = rw (length-set, length-set) t.width;
      size = rw length-set t.size;
      mask = rw length-set t.mask;
      used = rw t.used (
          inc-pos _ _ (
            omega
              (arith, total-set gs (home b.mask q) (cell_new heap ∷ home_chain b gs q) inside)));
      linked =
          Linked-set gs b.mask (home b.mask q) inside t.placed (cell_new heap ∷ home_chain b gs q) _
            (λ j ne.
              Linked-fresh heap.cell heap.top _ (chain_at gs j) (unused heap w null) (t.linked j))
            (
              w.nonzero,
              ground arith,
              Linked-fresh heap.cell heap.top _ (home_chain b gs q) (unused heap w null)
                  (t.linked (home b.mask q)),
            );
      placed =
          set-IsPlaced gs b.mask (home b.mask q) inside t.placed (cell_new heap ∷ home_chain b gs q)
            (λ r. ground (arith, absent, eq_of_bytes_eq q r, t.placed r (home b.mask q)))
            (λ r ne. ground (arith, eq_of_bytes_eq q r, t.placed r (home b.mask q)));
    }

    Heads-insert : Heads b.buckets gs → Heads (bucket_with heap b).buckets (chains_with heap b gs)
    Heads-insert hs j =
        rw
          (
            get_or-set gs (home b.mask q) j (cell_new heap ∷ home_chain b gs q) [] inside,
            get_or-set b.buckets (home b.mask q) j heap.top null (rw t.width inside),
          )
          (ground (arith, hs j))

    chain_after :
        (r : List ℕ)
        → home_chain (bucket_with heap b) (chains_with heap b gs) r ≡ (
            if home b.mask q == home b.mask r
            then cell_new heap ∷ home_chain b gs q
            else home_chain b gs r)
    chain_after r =
        get_or-set gs (home b.mask q) (home b.mask r) (cell_new heap ∷ home_chain b gs q) [] inside

    total_after : total (chains_with heap b gs) ≡ suc (total gs)
    total_after =
        omega (arith, total-set gs (home b.mask q) (cell_new heap ∷ home_chain b gs q) inside)

  -- One table: the key is added to the map.
  pub insert-Steady :
      {f : List ℕ → Option V} {n : ℕ} {h : Hash V} {gs : List (Chain V)}
      → Steady f n h gs
      → count q (home_chain h.buckets gs q) ≡ 0
      → Steady
          (put f q (some v))
          (suc n)
          (record h {
            heap = heap_with h.heap (first (home_chain h.buckets gs q));
            buckets = bucket_with h.heap h.buckets;
          })
          (chains_with h.heap h.buckets gs)
  unfolding lookup
  insert-Steady {h} {gs} s absent = record {
    amount = rw (total_after h.heap s.heap s.table absent) (ap suc s.amount);
    alone = s.alone;
    idle = s.idle;
    heap = IsHeap-insert h.heap s.heap (first (home_chain h.buckets gs q));
    table = IsTable-insert h.heap s.heap s.table absent;
    heads = Heads-insert h.heap s.heap s.table absent s.heads;
    reads = λ r.
        rw (chain_after h.heap s.heap s.table absent r)
          (ground (arith, s.reads r, eq_of_bytes_eq q r));
  }

  -- Two tables: the node goes to the one that is being filled.
  pub insert-Growing :
      {f : List ℕ → Option V} {n : ℕ} {h : Hash V} {e : Bucket} {old new : List (Chain V)} {c : ℕ}
      → Growing f n h e old new c
      → count q (home_chain h.buckets old q) ≡ 0
      → count q (home_chain e new q) ≡ 0
      → Growing
          (put f q (some v))
          (suc n)
          (record h {
            heap = heap_with h.heap (first (home_chain e new q));
            expand_buckets = some (bucket_with h.heap e);
          })
          (bucket_with h.heap e)
          old
          (chains_with h.heap e new)
          c
  unfolding lookup count or_else
  insert-Growing {h} {e} {old} {new} g no_old no_new =
      let next = first (home_chain e new q) in
      record {
        amount = rw (total_after h.heap g.heap g.fresh no_new) (omega (arith, g.amount));
        filling = refl;
        heap = IsHeap-insert h.heap g.heap next;
        table = IsTable-other h.heap g.heap next g.table;
        fresh = IsTable-insert h.heap g.heap g.fresh no_new;
        heads = Heads-insert h.heap g.heap g.fresh no_new g.heads;
        apart = λ r.
            rw (chain_after h.heap g.heap g.fresh no_new r)
              (ground (arith, g.apart r, eq_of_bytes_eq q r, no_old, no_new));
        kept = g.kept;
        moved = λ i le. (
          (g.moved i le).0,
          Stale-set new (home e.mask q) (cell_new h.heap) (get_or h.buckets.buckets i null)
              (home-lt g.fresh q) (g.moved i le).1,
        );
        cursor = g.cursor;
        reads = λ r. rw (chain_after h.heap g.heap g.fresh no_new r) (
            ground (
              arith,
              g.reads r,
              eq_of_bytes_eq q r,
              lookup-eq-none q (home_chain h.buckets old q) no_old,
            ));
      }

-- What `push` does, once its slot is known.
module _ {ℓ} {V : Type ℓ} (k : List ℕ) (klen : ℕ) (q : List ℕ) (arg : IsKey k klen q) (v : V) where
  pub push-ok :
      (h : Hash V) (b : Bucket) {gs : List (Chain V)}
      → IsTable h.heap.cell b gs
      → get_or b.buckets (home b.mask q) null ≡ first (home_chain b gs q)
      → push h b (home b.mask q) k klen v
        ≡ ok (heap_with q v h.heap (first (home_chain b gs q)), bucket_with q v h.heap b)
  unfolding push
  push-ok h b t head =
      rw (
        at-get_or b.buckets (home b.mask q) null (rw t.width (home-lt t q)),
        head,
        whole,
        arg.bytes,
      )
    where
      whole : klen % 2 ^ 32 ≡ klen
      whole = omega (arith, arg.short)

  pub add_new-Steady :
      {f : List ℕ → Option V} {n : ℕ} {h : Hash V} {gs : List (Chain V)}
      → Steady f n h gs
      → add_new h (home h.buckets.mask q) k klen v
        ≡ ok (record h {
          heap = heap_with q v h.heap (first (home_chain h.buckets gs q));
          buckets = bucket_with q v h.heap h.buckets;
        })
  unfolding add_new
  add_new-Steady {h} s = rw (s.alone, push-ok h h.buckets s.table (s.heads (home h.buckets.mask q)))

  pub add_new-Growing :
      {f : List ℕ → Option V} {n : ℕ} {h : Hash V} {e : Bucket} {old new : List (Chain V)} {c : ℕ}
      → Growing f n h e old new c
      → add_new h (home e.mask q) k klen v
        ≡ ok (record h {
          heap = heap_with q v h.heap (first (home_chain e new q));
          expand_buckets = some (bucket_with q v h.heap e);
        })
  unfolding add_new
  add_new-Growing {h} {e} g = rw (g.filling, push-ok h e g.fresh (g.heads (home e.mask q)))
