-- ===== src/Hash/Table.antt =====
-- One table of buckets over the chains that its slots own, and what the whole structure holds.
use ckv.Base.{
  get_or-set_ne, ap, ◌∙◌, get_or-set_self, ℕ, zero, suc, ◌+◌, ◌≤◌, ◌<◌, ◌≡◌, ◌≢◌, refl, ◌⊎◌, inl,
  inr, false, Option, none, some, List, [], ◌∷◌, ◌++◌, arith, ◌==◌, Bool-cases, length, get_or,
  get_or-set, set, bit_and, replicate, get_or-replicate,
}
use mathlib.Core.Option.{or_else}
use ckv.Base.Bits.{bit_and-le}
use ckv.Base.Int.{pos}
use ckv.HashFunc.{key_hash}
use ckv.Hash.{Ptr, null, Node, Heap, Bucket, Hash}
use ckv.Hash.Chain.{Cell, Chain, first, Linked, count, lookup}

-- The slot of a key under a mask.
unfoldable pub home : ℕ → List ℕ → ℕ
home mask q = bit_and (key_hash q) mask

pub home-le : (mask : ℕ) (q : List ℕ) → home mask q ≤ mask
unfolding home
home-le mask q = bit_and-le (key_hash q) mask

module _ {ℓ} {V : Type ℓ} where
  abbrev pub chain_at : List (Chain V) → ℕ → Chain V
  chain_at gs i = get_or gs i []

  unfoldable pub total : List (Chain V) → ℕ
  total [] = 0
  total (xs ∷ gs) = length xs + total gs

  pub total-set :
      (gs : List (Chain V)) (i : ℕ) (xs : Chain V)
      → i < length gs
      → total (set gs i xs) + length (chain_at gs i) ≡ total gs + length xs
  unfolding total get_or
  total-set [] i xs h = absurd (omega arith)
  total-set (y ∷ gs) zero xs h = omega arith
  total-set (y ∷ gs) (suc i) xs h = omega (arith, total-set gs i xs (omega arith))

  pub length-le-total : (gs : List (Chain V)) (i : ℕ) → length (chain_at gs i) ≤ total gs
  unfolding total get_or
  length-le-total [] i = omega arith
  length-le-total (y ∷ gs) zero = omega arith
  length-le-total (y ∷ gs) (suc i) = omega (arith, length-le-total gs i)

  pub total-eq-zero : (gs : List (Chain V)) → ((i : ℕ) → chain_at gs i ≡ []) → total gs ≡ 0
  unfolding total get_or
  total-eq-zero [] h = refl
  total-eq-zero (xs ∷ gs) h = rw (h 0) (omega (arith, total-eq-zero gs (λ i. h (suc i))))

  pub chain_at-eq-nil : (gs : List (Chain V)) (i : ℕ) → total gs ≡ 0 → chain_at gs i ≡ []
  chain_at-eq-nil gs i h = nil_of_length (chain_at gs i) (omega (arith, length-le-total gs i))
    where
      nil_of_length : (xs : Chain V) → length xs ≡ 0 → xs ≡ []
      nil_of_length [] e = refl
      nil_of_length (c ∷ xs) e = absurd (omega arith)

  pub chain_at-replicate : (n i : ℕ) → chain_at (replicate n []) i ≡ []
  chain_at-replicate n i = get_or-replicate n i []

  -- The cells of each slot hash to it, and no key occurs twice in a chain.
  abbrev pub IsPlaced : ℕ → List (Chain V) → Type 0
  IsPlaced mask gs =
      (q : List ℕ) (i : ℕ)
      → (count q (chain_at gs i) ≤ 1) × (home mask q ≢ i → count q (chain_at gs i) ≡ 0)

  -- A table whose counters are right, over the chains `gs`.
  pub record IsTable (cell : Ptr → Option (Node V)) (b : Bucket) (gs : List (Chain V))
      : Type ℓ where
    pub width : length b.buckets ≡ length gs
    pub size : b.size ≡ length gs
    pub mask : suc b.mask ≡ length gs
    pub used : b.use_ ≡ pos (total gs)
    pub linked : (i : ℕ) → Linked cell (chain_at gs i)
    pub placed : IsPlaced b.mask gs

  -- Every slot points at the first cell of its chain.
  abbrev pub Heads : List Ptr → List (Chain V) → Type 0
  Heads slots gs = (i : ℕ) → get_or slots i null ≡ first (chain_at gs i)

  abbrev pub home_chain : Bucket → List (Chain V) → List ℕ → Chain V
  home_chain b gs q = chain_at gs (home b.mask q)

  pub home-lt :
      {cell : Ptr → Option (Node V)} {b : Bucket} {gs : List (Chain V)}
      → IsTable cell b gs
      → (q : List ℕ) → home b.mask q < length gs
  home-lt {b} t q = omega (arith, home-le b.mask q, t.mask)

  -- The heap's addresses from `top` on are free.
  pub record IsHeap (heap : Heap V) : Type ℓ where
    pub nonzero : (heap.top == null) ≡ false
    pub free : (p : Ptr) → heap.top ≤ p → heap.cell p ≡ none

  -- A replaced chain of the slot of `q`, where only the entry of `q` may differ.
  module _ (gs : List (Chain V)) (mask i : ℕ) (inside : i < length gs) (placed : IsPlaced mask gs)
      (xs : Chain V) where
    pub set-IsPlaced :
        ((r : List ℕ) → count r xs ≤ 1)
        → ((r : List ℕ) → home mask r ≢ i → count r xs ≡ 0)
        → IsPlaced mask (set gs i xs)
    set-IsPlaced once here q j =
        rw (get_or-set gs i j xs [] inside) (ground (arith, placed q j, once q, here q))

    pub Linked-set :
        (cell' : Ptr → Option (Node V))
        → ((j : ℕ) → i ≢ j → Linked cell' (chain_at gs j))
        → Linked cell' xs
        → (j : ℕ) → Linked cell' (chain_at (set gs i xs) j)
    Linked-set cell' others own j =
        rw (get_or-set gs i j xs [] inside) (elim (Bool-cases (i == j)) [
          | inl same ↦ rw same own
          | inr differ ↦ rw differ (others j (ground arith))
        ])

  -- What the cells of slot `i` say of the keys of other slots.
  pub home-of :
      (mask : ℕ) (gs : List (Chain V)) (i : ℕ) (q : List ℕ)
      → IsPlaced mask gs
      → 0 < count q (chain_at gs i)
      → home mask q ≡ i
  home-of mask gs i q placed h = ground (arith, placed q i)

  pub count_elsewhere :
      (mask : ℕ) (gs : List (Chain V)) (j : ℕ) (q : List ℕ)
      → IsPlaced mask gs
      → count q (chain_at gs (home mask q)) ≡ 0
      → count q (chain_at gs j) ≡ 0
  count_elsewhere mask gs j q placed h = elim (Bool-cases (home mask q == j)) [
    | inl same ↦ let e : home mask q ≡ j = ground arith in rw e at h
    | inr differ ↦ (placed q j).1 (ground arith)
  ]

-- From `p` on, a pointer of the old table leads along the rest of a chain of the new one.
abbrev pub Stale {ℓ} : {V : Type ℓ} → List (Chain V) → Ptr → Type ℓ
Stale {V} gs p =
    (s : ℕ) × (pre : Chain V) × (suf : Chain V) × (chain_at gs s ≡ pre ++ suf) × (p ≡ first suf)

-- How far the migration is: the slots from `c` on have been moved, out of `n`.
abbrev pub Cursor : Option ℕ → ℕ → ℕ → Type 0
Cursor none c n = (c ≡ 0) ⊎ (c ≡ n)
Cursor (some i) c n = (c ≡ suc i) × (c ≤ n)

module _ {ℓ} {V : Type ℓ} where
  -- A pointer that leads into a chain still does when a cell is put in front of one.
  pub Stale-set :
      (gs : List (Chain V)) (s : ℕ) (c : Cell V) (p : Ptr)
      → s < length gs
      → Stale gs p
      → Stale (set gs s (c ∷ chain_at gs s)) p
  Stale-set gs s c p lt (j, pre, suf, e, at_p) = elim (Bool-cases (s == j)) [
    | inl same ↦
        let i : s ≡ j = ground arith in
        (
          j,
          c ∷ pre,
          suf,
          rw (← i) (get_or-set_self gs s (c ∷ chain_at gs s) [] lt ∙ ap (◌∷◌ c) (rw i e)),
          at_p,
        )
    | inr differ ↦ (j, pre, suf, get_or-set_ne gs (c ∷ chain_at gs s) [] (ground arith) ∙ e, at_p)
  ]

  -- One table that reads as the map `f`.
  pub record Steady (f : List ℕ → Option V) (n : ℕ) (h : Hash V) (gs : List (Chain V))
      : Type ℓ where
    pub amount : total gs ≡ n
    pub alone : h.expand_buckets ≡ none
    pub idle : h.index ≡ none
    pub heap : IsHeap h.heap
    pub table : IsTable h.heap.cell h.buckets gs
    pub heads : Heads h.buckets.buckets gs
    pub reads : (q : List ℕ) → lookup q (home_chain h.buckets gs q) ≡ f q

  -- Two tables, the second being filled, that together read as `f`.
  pub record Growing (f : List ℕ → Option V) (n : ℕ) (h : Hash V) (e : Bucket)
      (old new : List (Chain V)) (c : ℕ) : Type ℓ where
    pub amount : total old + total new ≡ n
    pub filling : h.expand_buckets ≡ some e
    pub heap : IsHeap h.heap
    pub table : IsTable h.heap.cell h.buckets old
    pub fresh : IsTable h.heap.cell e new
    pub heads : Heads e.buckets new
    pub apart :
        (q : List ℕ) → count q (home_chain h.buckets old q) + count q (home_chain e new q) ≤ 1
    pub kept : (i : ℕ) → i < c → get_or h.buckets.buckets i null ≡ first (chain_at old i)
    pub moved :
        (i : ℕ) → c ≤ i → (chain_at old i ≡ []) × Stale new (get_or h.buckets.buckets i null)
    pub cursor : Cursor h.index c (length old)
    pub reads :
        (q : List ℕ)
        → or_else (lookup q (home_chain h.buckets old q)) (lookup q (home_chain e new q)) ≡ f q

  -- The structure is sound and stands for the map `f`, with `n` entries.
  pub data Models (f : List ℕ → Option V) (n : ℕ) (h : Hash V) : Type ℓ where
    steady : (gs : List (Chain V)) → Steady f n h gs → Models f n h
    growing :
        (e : Bucket) (old new : List (Chain V)) (c : ℕ) → Growing f n h e old new c → Models f n h
