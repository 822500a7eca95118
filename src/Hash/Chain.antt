-- ===== src/Hash/Chain.antt =====
-- One chain of nodes: the list of cells that a pointer leads through, and the walk of
-- `kvs_hash_find_core` along it.
use ckv.HashFunc.{IsKey}
use ckv.Base.{
  ℕ, zero, suc, ◌+◌, ◌<◌, ◌≡◌, refl, ap, inl, inr, Bool, true, false, Option, none, some, List, [],
  ◌∷◌, ◌++◌, arith, ◌==◌, bytes_eq, bytes_eq_refl, eq_of_bytes_eq, Bool-cases, if◌then◌else◌,
  length,
}
use ckv.Hash.{Ptr, null, Node, Heap, Place, next_of, update, load, matches, search_chain}
use ckv.Run.{ok, Returns}

-- A node's address, key and value; its `next` is the address of the cell that follows.
pub record Cell {ℓ} (V : Type ℓ) : Type ℓ where
  pub ptr : Ptr
  pub key : List ℕ
  pub val : V

abbrev pub Chain {ℓ} : Type ℓ → Type ℓ
Chain V = List (Cell V)

abbrev pub to_nat : Bool → ℕ
to_nat true = 1
to_nat false = 0

module _ {ℓ} {V : Type ℓ} where
  abbrev pub first : Chain V → Ptr
  first [] = null
  first (c ∷ xs) = c.ptr

  abbrev pub node_of : Cell V → Ptr → Node V
  node_of c next = record { key = c.key; val = c.val; next = next }

  -- The heap holds the nodes of the chain, each linked to the next.
  abbrev pub Linked : (Ptr → Option (Node V)) → Chain V → Type ℓ
  Linked cell [] = Unit
  Linked cell (c ∷ xs) =
      ((c.ptr == null) ≡ false) × (cell c.ptr ≡ some (node_of c (first xs))) × Linked cell xs

  -- How many cells of the chain hold the key `q`, and the value of the first.
  unfoldable pub count : List ℕ → Chain V → ℕ
  count q [] = 0
  count q (c ∷ xs) = to_nat (bytes_eq c.key q) + count q xs

  unfoldable pub lookup : List ℕ → Chain V → Option V
  lookup q [] = none
  lookup q (c ∷ xs) = if bytes_eq c.key q then some c.val else lookup q xs

  pub lookup-eq-none : (q : List ℕ) (xs : Chain V) → count q xs ≡ 0 → lookup q xs ≡ none
  unfolding count lookup
  lookup-eq-none q [] h = refl
  lookup-eq-none q (c ∷ xs) h = ground (arith, lookup-eq-none q xs)

  pub count-append : (q : List ℕ) (xs ys : Chain V) → count q (xs ++ ys) ≡ count q xs + count q ys
  unfolding count
  count-append q [] ys = omega arith
  count-append q (c ∷ xs) ys = omega (arith, count-append q xs ys)

  pub lookup-append :
      (q : List ℕ) (xs ys : Chain V) → count q xs ≡ 0 → lookup q (xs ++ ys) ≡ lookup q ys
  unfolding count lookup
  lookup-append q [] ys h = refl
  lookup-append q (c ∷ xs) ys h = ground (arith, lookup-append q xs ys)

  -- A write spares a chain that does not hold the key of the node that is written over.
  pub Linked-update :
      (cell : Ptr → Option (Node V)) (p : Ptr) (n : Node V) (n' : Option (Node V)) (xs : Chain V)
      → cell p ≡ some n
      → count n.key xs ≡ 0
      → Linked cell xs
      → Linked (update cell p n') xs
  unfolding count
  Linked-update cell p n n' [] e h l = tt
  Linked-update cell p n n' (c ∷ xs) e h l = (
    l.0,
    ground (arith, bytes_eq_refl n.key, l.1),
    Linked-update cell p n n' xs e (omega arith) l.2,
  )

  pub Linked-fresh :
      (cell : Ptr → Option (Node V)) (p : Ptr) (n' : Option (Node V)) (xs : Chain V)
      → cell p ≡ none
      → Linked cell xs
      → Linked (update cell p n') xs
  Linked-fresh cell p n' [] e l = tt
  Linked-fresh cell p n' (c ∷ xs) e l = (l.0, ground (arith, l.1), Linked-fresh cell p n' xs e l.2)

  pub Linked-append :
      (cell : Ptr → Option (Node V)) (xs ys : Chain V) → Linked cell (xs ++ ys) → Linked cell ys
  Linked-append cell [] ys l = l
  Linked-append cell (c ∷ xs) ys l = Linked-append cell xs ys l.2

  pub load-Linked :
      (heap : Heap V) (c : Cell V) (xs : Chain V)
      → Linked heap.cell (c ∷ xs)
      → load heap c.ptr ≡ ok (node_of c (first xs))
  unfolding load
  load-Linked heap c xs l = rw (l.0, l.1)

  -- The test of the walk compares the node's key with the key that the caller means.
  matches-bytes_eq :
      (n : Node V) (k : List ℕ) (klen : ℕ) (q : List ℕ)
      → IsKey k klen q
      → matches n k klen ≡ bytes_eq n.key q
  unfolding matches
  matches-bytes_eq n k klen q a = rw a.bytes (ground (arith, eq_of_bytes_eq n.key q, a.held))

  -- `pp` after the walk has passed the cells `ys`.
  unfoldable pub place_after : Place → Chain V → Place
  place_after pp [] = pp
  place_after pp (c ∷ ys) = place_after (next_of c.ptr) ys

  -- What a walk along `xs` finds: nothing, or the one place of the first cell with the key.
  pub record Hit (q : List ℕ) (pp : Place) (xs : Chain V) (r : Place × Ptr) : Type ℓ where
    pub passed : Chain V
    pub here : Cell V
    pub rest : Chain V
    pub split : xs ≡ passed ++ here ∷ rest
    pub key : here.key ≡ q
    pub missed : count q passed ≡ 0
    pub place : r ≡ (place_after pp passed, here.ptr)

  abbrev pub Outcome : List ℕ → Place → Chain V → Option (Place × Ptr) → Type ℓ
  Outcome q pp xs none = Unit {ℓ} × (count q xs ≡ 0)
  Outcome q pp xs (some r) = Hit q pp xs r

  Outcome-cons :
      (q : List ℕ) (pp : Place) (c : Cell V) (xs : Chain V) (r : Option (Place × Ptr))
      → bytes_eq c.key q ≡ false
      → Outcome q (next_of c.ptr) xs r
      → Outcome q pp (c ∷ xs) r
  unfolding count place_after
  Outcome-cons q pp c xs none differ (u, zero_) = (u, rw differ (omega (arith, zero_)))
  Outcome-cons q pp c xs (some r) differ hit = record {
    passed = c ∷ hit.passed;
    here = hit.here;
    rest = hit.rest;
    split = ap (◌∷◌ c) hit.split;
    key = hit.key;
    missed = rw differ (omega (arith, hit.missed));
    place = hit.place;
  }

  pub search_chain-Outcome :
      (f : ℕ) (heap : Heap V) (k : List ℕ) (klen : ℕ) (q : List ℕ) (pp : Place) (xs : Chain V)
      → IsKey k klen q
      → Linked heap.cell xs
      → length xs < f
      → Returns (Outcome q pp xs) (search_chain f heap k klen pp (first xs))
  unfolding search_chain count place_after
  search_chain-Outcome zero heap k klen q pp xs e l fuel = absurd (omega arith)
  search_chain-Outcome (suc f) heap k klen q pp [] e l fuel = (none, refl, (tt, refl))
  search_chain-Outcome (suc f) heap k klen q pp (c ∷ xs) e l fuel =
      rw (l.0, load-Linked heap c xs l, matches-bytes_eq (node_of c (first xs)) k klen q e)
        (elim (Bool-cases (bytes_eq c.key q)) [
          | inl same ↦ rw same (
            some (pp, c.ptr),
            refl,
            record {
              passed = [];
              here = c;
              rest = xs;
              split = refl;
              key = eq_of_bytes_eq c.key q same;
              missed = refl;
              place = refl;
            },
          )
          | inr differ ↦ rw differ (
              let (r, run, out) =
                search_chain-Outcome f heap k klen q (next_of c.ptr) xs e l.2 (omega arith) in
              (r, run, Outcome-cons q pp c xs r differ out))
        ])
