-- ===== src/Hash/Owned.antt =====
-- The one cell of a chain that holds a key, and where it stands.
use mathlib.Core.Path.{subst}
use mathlib.Core.List.{append_assoc}
use ckv.Hash.Table.{home-of, IsTable, home, chain_at}
use ckv.Hash.{Node, Place, Bucket, ok, load, Ptr, Heap}
use ckv.Hash.Chain.{
  Hit, to_nat, Linked-append, count-append, load-Linked, first, node_of, lookup-append, Linked,
  Cell, lookup, count, Chain,
}
use ckv.Base.{
  sym, ◌∙◌, Option, ap, ◌∷◌, arith, bytes_eq_refl, true, ◌++◌, some, bytes_eq, ◌≤◌, ◌≡◌, ℕ, List,
}

module _ {ℓ} {V : Type ℓ} where
  -- The node at `p` is that of `q`, and stands in slot `i`.
  pub record Owned (gs : List (Chain V)) (i : ℕ) (q : List ℕ) (p : Ptr) : Type ℓ where
    pub passed : Chain V
    pub here : Cell V
    pub rest : Chain V
    pub split : chain_at gs i ≡ passed ++ here ∷ rest
    pub key : here.key ≡ q
    pub place : p ≡ here.ptr

  pub Owned-count :
      {gs : List (Chain V)} {i : ℕ} {q : List ℕ} {p : Ptr}
      → (o : Owned gs i q p) → count q (chain_at gs i) ≤ 1
      → (count q o.passed ≡ 0) × (count q o.rest ≡ 0)
  unfolding count
  Owned-count {q} o le = ground (arith, rw (o.split, count-append) at le, ap to_nat same)
    where
      same : bytes_eq o.here.key q ≡ true
      same = rw o.key (bytes_eq_refl q)

  pub Owned-present :
      {gs : List (Chain V)} {i : ℕ} {q : List ℕ} {p : Ptr}
      → Owned gs i q p
      → 1 ≤ count q (chain_at gs i)
  unfolding count
  Owned-present {q} o =
      let same : bytes_eq o.here.key q ≡ true = rw o.key (bytes_eq_refl q) in
      rw (o.split, count-append q o.passed (o.here ∷ o.rest), same) (omega arith)

  pub Owned-lookup :
      {gs : List (Chain V)} {i : ℕ} {q : List ℕ} {p : Ptr}
      → (o : Owned gs i q p) → count q (chain_at gs i) ≤ 1
      → lookup q (chain_at gs i) ≡ some o.here.val
  unfolding lookup
  Owned-lookup {q} o le = rw (
    o.split,
    lookup-append q o.passed (o.here ∷ o.rest) (Owned-count o le).0,
    o.key,
    bytes_eq_refl q,
  )

  pub Owned-load :
      (heap : Heap V) {gs : List (Chain V)} {i : ℕ} {q : List ℕ} {p : Ptr}
      → (o : Owned gs i q p) → Linked heap.cell (chain_at gs i)
      → load heap p ≡ ok (node_of o.here (first o.rest))
  Owned-load heap o l = rw o.place (
      load-Linked heap o.here o.rest
        (Linked-append heap.cell o.passed (o.here ∷ o.rest) (rw o.split at l)))

  -- A hit on the way along the end of a chain is the node in the whole chain.
  pub Hit-Owned :
      {q : List ℕ} {pl : Place} {xs : Chain V} {pp : Place × Ptr} {gs : List (Chain V)} {i : ℕ}
      (pre : Chain V)
      → chain_at gs i ≡ pre ++ xs
      → Hit q pl xs pp
      → Owned gs i q pp.1
  Hit-Owned pre e hit = record {
    passed = pre ++ hit.passed;
    here = hit.here;
    rest = hit.rest;
    split = e ∙ ap (◌++◌ pre) hit.split ∙ sym (append_assoc pre hit.passed (hit.here ∷ hit.rest));
    key = hit.key;
    place = ap (λ x. x.1) hit.place;
  }

  pub Owned-home :
      {cell : Ptr → Option (Node V)} {b : Bucket} {gs : List (Chain V)} {q : List ℕ} {p : Ptr}
      (i : ℕ)
      → IsTable cell b gs
      → Owned gs i q p
      → Owned gs (home b.mask q) q p
  unfolding count
  Owned-home {b} {gs} {q} {p} i t o = subst (λ j. Owned gs j q p) (sym at_home) o
    where
      same : bytes_eq o.here.key q ≡ true
      same = rw o.key (bytes_eq_refl q)

      at_home : home b.mask q ≡ i
      at_home =
          home-of b.mask gs i q t.placed
            (rw (o.split, count-append q o.passed (o.here ∷ o.rest), same) (omega arith))
