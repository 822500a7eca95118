-- ===== src/Hash/Edit.antt =====
-- Changes of one chain: a node gets a new value, or a new successor.
use ckv.Base.{
  ℕ, suc, ◌+◌, ◌≡◌, refl, sym, ap, Option, none, some, List, [], ◌∷◌, ◌++◌, arith, bytes_eq,
  bytes_eq_refl, eq_of_bytes_eq, if◌then◌else◌, length,
}
use ckv.Hash.{Ptr, Node, update}
use ckv.Hash.Chain.{
  Cell, Chain, to_nat, first, node_of, Linked, count, lookup, lookup-eq-none, Linked-update,
}

module _ {ℓ} {V : Type ℓ} where
  -- The cells of two lists read alike: same addresses and keys.
  pub first-append :
      (ys zs zs' : Chain V) (d d' : Cell V)
      → d'.ptr ≡ d.ptr
      → first (ys ++ d ∷ zs) ≡ first (ys ++ d' ∷ zs')
  first-append [] zs zs' d d' e = sym e
  first-append (y ∷ ys) zs zs' d d' e = refl

  -- The node of `d` is rewritten: a value and a chain to follow it.
  pub Linked-middle :
      (cell : Ptr → Option (Node V)) (ys zs zs' : Chain V) (d d' : Cell V)
      → d'.ptr ≡ d.ptr
      → count d.key ys ≡ 0
      → count d.key zs' ≡ 0
      → Linked cell (ys ++ d ∷ zs)
      → Linked cell zs'
      → Linked (update cell d.ptr (some (node_of d' (first zs')))) (ys ++ d' ∷ zs')
  unfolding count
  Linked-middle cell [] zs zs' d d' e u v l l' =
      (rw e l.0, ground arith, Linked-update cell d.ptr (node_of d (first zs)) _ zs' l.1 v l')
  Linked-middle cell (y ∷ ys) zs zs' d d' e u v l l' = (
    l.0,
    ground (arith, l.1, at_d, bytes_eq_refl d.key, first-append ys zs zs' d d' e),
    Linked-middle cell ys zs zs' d d' e (omega (arith, u)) v l.2 l',
  )
    where
      tail : (ws : Chain V) → Linked cell (ws ++ d ∷ zs) → cell d.ptr ≡ some (node_of d (first zs))
      tail [] k = k.1
      tail (w ∷ ws) k = tail ws k.2

      at_d : cell d.ptr ≡ some (node_of d (first zs))
      at_d = tail ys l.2

  -- A new value under `q` changes no key.
  pub count-middle :
      (r : List ℕ) (ys zs : Chain V) (d d' : Cell V)
      → d'.key ≡ d.key
      → count r (ys ++ d' ∷ zs) ≡ count r (ys ++ d ∷ zs)
  unfolding count
  count-middle r [] zs d d' e = rw e
  count-middle r (y ∷ ys) zs d d' e = rw (count-middle r ys zs d d' e)

  pub lookup-middle :
      (r : List ℕ) (ys zs : Chain V) (d d' : Cell V)
      → d'.key ≡ d.key
      → count d.key ys ≡ 0
      → lookup r (ys ++ d' ∷ zs)
        ≡ (if bytes_eq d.key r then some d'.val else lookup r (ys ++ d ∷ zs))
  unfolding lookup count
  lookup-middle r [] zs d d' e u = rw e (ground arith)
  lookup-middle r (y ∷ ys) zs d d' e u = ground (
    arith,
    lookup-middle r ys zs d d' e (omega (arith, u)),
    eq_of_bytes_eq y.key r,
    eq_of_bytes_eq d.key r,
    bytes_eq_refl y.key,
  )

  pub length-middle :
      (ys zs : Chain V) (d d' : Cell V) → length (ys ++ d' ∷ zs) ≡ length (ys ++ d ∷ zs)
  length-middle [] zs d d' = refl
  length-middle (y ∷ ys) zs d d' = ap suc (length-middle ys zs d d')

  -- Taking the cell `d` out.
  pub count-remove :
      (r : List ℕ) (ys zs : Chain V) (d : Cell V)
      → count r (ys ++ d ∷ zs) ≡ to_nat (bytes_eq d.key r) + count r (ys ++ zs)
  unfolding count
  count-remove r [] zs d = refl
  count-remove r (y ∷ ys) zs d = omega (arith, count-remove r ys zs d)

  pub lookup-remove :
      (r : List ℕ) (ys zs : Chain V) (d : Cell V)
      → count d.key (ys ++ zs) ≡ 0
      → lookup r (ys ++ zs) ≡ (if bytes_eq d.key r then none else lookup r (ys ++ d ∷ zs))
  unfolding lookup count
  lookup-remove r [] zs d u = ground (arith, lookup-eq-none r zs, eq_of_bytes_eq d.key r)
  lookup-remove r (y ∷ ys) zs d u = ground (
    arith,
    lookup-remove r ys zs d (omega (arith, u)),
    eq_of_bytes_eq y.key r,
    eq_of_bytes_eq d.key r,
    bytes_eq_refl y.key,
  )

  pub length-remove :
      (ys zs : Chain V) (d : Cell V) → length (ys ++ d ∷ zs) ≡ suc (length (ys ++ zs))
  length-remove [] zs d = refl
  length-remove (y ∷ ys) zs d = ap suc (length-remove ys zs d)
