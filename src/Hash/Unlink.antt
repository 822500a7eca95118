-- ===== src/Hash/Unlink.antt =====
-- `*pp = p->next` in `kvs_hash_del`: a node is taken out of its chain.

use ckv.Hash.Edit.{Linked-middle}
use mathlib.Core.List.{append_assoc}
use ckv.Hash.Table.{home-of, IsPlaced, Steady, Heads, chain_at, IsHeap}
use ckv.Hash.Lookup.{store}
use ckv.Hash.{Node, write, null, ok, slot, next_of, Ptr, Heap, Place, Hash}
use ckv.Hash.Chain.{
  count-append, Linked-update, load-Linked, Linked-append, count, node_of, Linked, first, Cell,
  place_after, Chain,
}
use ckv.Base.{
  inr, sym, ap, inl, none, ◌==◌, Bool-cases, bytes_eq_refl, ◌≤◌, arith, get_or-set, ◌∙◌, length-set,
  ◌<◌, Option, some, set, ◌≢◌, length, false, refl, ◌≡◌, ◌++◌, List, ◌∷◌, [], ℕ,
}

-- A chain is empty or has a last cell.
data Ending {ℓ} {V : Type ℓ} : Chain V → Type ℓ where
  nothing : Ending []
  last_cell : (ys : Chain V) (y : Cell V) → Ending (ys ++ y ∷ [])

-- What a node holds, without the link to the next one.
abbrev pub content {ℓ} : {V : Type ℓ} → Option (Node V) → Option (List ℕ × V)
content none = none
content (some n) = some (n.key, n.val)

module _ {ℓ} {V : Type ℓ} where
  ending : (xs : Chain V) → Ending xs
  ending [] = nothing
  ending (c ∷ xs) = go (ending xs)
    where
      go : {ys : Chain V} → Ending ys → Ending (c ∷ ys)
      go nothing = last_cell [] c
      go (last_cell ys y) = last_cell (c ∷ ys) y

  place_after-last :
      (pp : Place) (ys : Chain V) (y : Cell V) → place_after pp (ys ++ y ∷ []) ≡ next_of y.ptr
  unfolding place_after
  place_after-last pp [] y = refl
  place_after-last pp (c ∷ ys) y = place_after-last (next_of c.ptr) ys y

  first-last :
      (ys zs zs' : Chain V) (y : Cell V)
      → first ((ys ++ y ∷ []) ++ zs) ≡ first ((ys ++ y ∷ []) ++ zs')
  first-last [] zs zs' y = refl
  first-last (c ∷ ys) zs zs' y = refl

  -- The store that takes `d` out of the chain of slot `i`: what it leaves.
  pub record Unlinked (h : Hash V) (gs : List (Chain V)) (i : ℕ) (ys : Chain V) (d : Cell V)
      (zs : Chain V) : Type ℓ where
    pub heap : Heap V
    pub slots : List Ptr
    pub run :
        store h (place_after (slot false i) ys) (first zs)
        ≡ ok (record h { heap = heap; buckets = record (h.buckets) { buckets = slots } })
    pub width : length slots ≡ length h.buckets.buckets
    pub is_heap : IsHeap heap
    pub mine : Linked heap.cell (ys ++ zs)
    pub others : (j : ℕ) → i ≢ j → Linked heap.cell (chain_at gs j)
    pub heads : Heads slots (set gs i (ys ++ zs))
    pub held : heap.cell d.ptr ≡ some (node_of d (first zs))
    pub contents : (x : Ptr) → content (heap.cell x) ≡ content (h.heap.cell x)

  present : (ys : Chain V) (y : Cell V) (zs : Chain V) → 0 < count y.key (ys ++ y ∷ zs)
  unfolding count
  present ys y zs = rw (count-append y.key ys (y ∷ zs), bytes_eq_refl y.key) (omega arith)

  alone_in :
      (mask : ℕ) (gs : List (Chain V)) (q : List ℕ) (i j : ℕ)
      → IsPlaced mask gs
      → 0 < count q (chain_at gs i)
      → i ≢ j
      → count q (chain_at gs j) ≡ 0
  alone_in mask gs q i j placed here ne = (placed q j).1 (rw (home-of mask gs i q placed here) ne)

  -- At the head of the chain the slot is written.
  unlink_head :
      {f : List ℕ → Option V} {n : ℕ} {h : Hash V} {gs : List (Chain V)} (i : ℕ) (d : Cell V)
      (zs : Chain V)
      → Steady f n h gs
      → i < length gs
      → chain_at gs i ≡ d ∷ zs
      → Unlinked h gs i [] d zs
  unfolding store place_after
  unlink_head {h} {gs} i d zs s inside split =
      let l : Linked h.heap.cell (d ∷ zs) = rw split at (s.table.linked i) in
      record {
        heap = h.heap;
        slots = set h.buckets.buckets i (first zs);
        run = refl;
        width = length-set h.buckets.buckets i (first zs);
        is_heap = s.heap;
        mine = l.2;
        others = λ j ne. s.table.linked j;
        heads = λ j.
            rw
              (
                get_or-set gs i j zs [] inside,
                get_or-set h.buckets.buckets i j (first zs) null (rw s.table.width inside),
              )
              (ground (arith, s.heads j));
        held = l.1;
        contents = λ x. refl;
      }

  -- Further on the node before it is.
  unlink_inner :
      {f : List ℕ → Option V} {n : ℕ} {h : Hash V} {gs : List (Chain V)} (i : ℕ) (ys : Chain V)
      (y d : Cell V) (zs : Chain V)
      → Steady f n h gs
      → i < length gs
      → chain_at gs i ≡ (ys ++ y ∷ []) ++ d ∷ zs
      → Unlinked h gs i (ys ++ y ∷ []) d zs
  unfolding store count
  unlink_inner {h} {gs} i ys y d zs s inside split =
      let whole : chain_at gs i ≡ ys ++ y ∷ d ∷ zs = split ∙ append_assoc ys (y ∷ []) (d ∷ zs) in
      let l : Linked h.heap.cell (ys ++ y ∷ d ∷ zs) = rw whole at (s.table.linked i) in
      let tail = Linked-append h.heap.cell ys (y ∷ d ∷ zs) l in
      let once : count y.key (ys ++ y ∷ d ∷ zs) ≤ 1 = rw whole at (s.table.placed y.key i).0 in
      let counts : (count y.key ys ≡ 0) × (count y.key (d ∷ zs) ≡ 0) =
        ground (arith, rw (count-append y.key ys (y ∷ d ∷ zs)) at once, bytes_eq_refl y.key) in
      record {
        heap = write h.heap y.ptr (some (node_of y (first zs)));
        slots = h.buckets.buckets;
        run = rw (place_after-last (slot false i) ys y, load-Linked h.heap y (d ∷ zs) tail);
        width = refl;
        is_heap = record {
          nonzero = s.heap.nonzero;
          free = λ x le. ground (arith, s.heap.free x le, tail.1);
        };
        mine = rw (append_assoc ys (y ∷ []) zs) (
            Linked-middle h.heap.cell ys (d ∷ zs) zs y y refl counts.0 (omega (arith, counts.1)) l
              tail.2.2);
        others = λ j ne.
            Linked-update h.heap.cell y.ptr (node_of y d.ptr) _ (chain_at gs j) tail.1
              (alone_in h.buckets.mask gs y.key i j s.table.placed
                (rw whole (present ys y (d ∷ zs))) ne)
              (s.table.linked j);
        heads = λ j.
            rw (get_or-set gs i j ((ys ++ y ∷ []) ++ zs) [] inside)
              (ground (arith, s.heads j, split, first-last ys zs (d ∷ zs) y));
        held =
            (Linked-update h.heap.cell y.ptr (node_of y d.ptr) _ (d ∷ zs) tail.1 counts.1 tail.2).1;
        contents = λ x. elim (Bool-cases (y.ptr == x)) [
          | inl here ↦
              let same : y.ptr ≡ x = ground (arith, here) in
              rw here (ap content (sym tail.1) ∙ ap (λ p. content (h.heap.cell p)) same)
          | inr other ↦ rw other refl
        ];
      }

  pub unlink :
      {f : List ℕ → Option V} {n : ℕ} {h : Hash V} {gs : List (Chain V)} (i : ℕ) (ys : Chain V)
      (d : Cell V) (zs : Chain V)
      → Steady f n h gs
      → i < length gs
      → chain_at gs i ≡ ys ++ d ∷ zs
      → Unlinked h gs i ys d zs
  unlink {h} {gs} i ys d zs s inside = go (ending ys)
    where
      go : {ys : Chain V} → Ending ys → chain_at gs i ≡ ys ++ d ∷ zs → Unlinked h gs i ys d zs
      go nothing split = unlink_head i d zs s inside split
      go (last_cell ys y) split = unlink_inner i ys y d zs s inside split
