-- ===== src/LinkedList/Ring.antt =====
-- The sequence that a list of src/kvs_list.c stands for: the nodes of a ring, from its head on.
use mathlib.Core.Path.{subst}
use ckv.LinkedList.{NodePtr, Memory}
use ckv.LinkedList.Store.{next_of, prev_of, val_of}
use ckv.Base.{
  ℕ, ◌+◌, ◌≤◌, ◌<◌, ◌≡◌, ◌≢◌, refl, sym, ◌∙◌, List, [], ◌∷◌, ◌++◌, some, ◌==◌, if◌then◌else◌, arith,
}

-- Addresses and values, in order.
abbrev pub Cells : Type 0 → Type 0
Cells V = List (NodePtr × V)

module _ {V : Type 0} where
  -- How often an address occurs in `xs`, and in the ring of `xs` through `a`.
  unfoldable pub count : NodePtr → Cells V → ℕ
  count x [] = 0
  count x (c ∷ xs) = (if c.0 == x then 1 else 0) + count x xs

  abbrev pub tally : NodePtr → NodePtr → Cells V → ℕ
  tally a x xs = (if a == x then 1 else 0) + count x xs

  pub count-append : (x : NodePtr) (xs ys : Cells V) → count x (xs ++ ys) ≡ count x xs + count x ys
  unfolding count
  count-append x [] ys = omega arith
  count-append x (c ∷ xs) ys = omega (arith, count-append x xs ys)

  -- From `a` on the pointers lead through `us` and end at `c`, the last of them.
  abbrev pub Reach : Memory V → NodePtr → Cells V → NodePtr → Type 0
  Reach mem a [] c = a ≡ c
  Reach mem a (b ∷ us) c =
      (next_of mem a ≡ some b.0)
      × (prev_of mem b.0 ≡ some a)
      × (val_of mem b.0 ≡ some b.1)
      × Reach mem b.0 us c

  pub Reach-last :
      (mem : Memory V) (a : NodePtr) (us : Cells V) (c : NodePtr)
      → Reach mem a us c
      → 0 < tally a c us
  unfolding count
  Reach-last mem a [] c e = ground (arith, e)
  Reach-last mem a (b ∷ us) c (n, p, v, r) = omega (arith, Reach-last mem b.0 us c r)

  pub Reach-append :
      (mem : Memory V) (a : NodePtr) (us vs : Cells V) (c d : NodePtr)
      → Reach mem a us c
      → Reach mem c vs d
      → Reach mem a (us ++ vs) d
  Reach-append mem a [] vs c d e s = subst (λ x. Reach mem x vs d) (sym e) s
  Reach-append mem a (b ∷ us) vs c d (n, p, v, r) s = (n, p, v, Reach-append mem b.0 us vs c d r s)

  pub Reach-split :
      (mem : Memory V) (a : NodePtr) (us vs : Cells V) (d : NodePtr)
      → Reach mem a (us ++ vs) d
      → (c : NodePtr) × Reach mem a us c × Reach mem c vs d
  Reach-split mem a [] vs d r = (a, refl, r)
  Reach-split mem a (b ∷ us) vs d (n, p, v, r) =
      let (c, s, t) = Reach-split mem b.0 us vs d r in (c, (n, p, v, s), t)

  -- The end of a longer way is not where it started.
  not_last :
      (mem : Memory V) (a : NodePtr) (b : NodePtr × V) (us : Cells V) (c : NodePtr)
      → Reach mem b.0 us c
      → ((x : NodePtr) → tally a x (b ∷ us) ≤ 1)
      → a ≢ c
  unfolding count
  not_last mem a b us c r once e = ground (arith, e, once a, once c, Reach-last mem b.0 us c r)

  -- A way through distinct nodes survives changes elsewhere, and at the `next` of its end.
  pub Reach-frame :
      (mem mem' : Memory V) (a : NodePtr) (us : Cells V) (c : NodePtr)
      → Reach mem a us c
      → ((x : NodePtr) → tally a x us ≤ 1)
      → ((x : NodePtr)
          → 0 < count x us
          → (prev_of mem' x ≡ prev_of mem x) × (val_of mem' x ≡ val_of mem x))
      → ((x : NodePtr) → 0 < tally a x us → x ≢ c → next_of mem' x ≡ next_of mem x)
      → Reach mem' a us c
  unfolding count
  Reach-frame mem mem' a [] c e once back forth = e
  Reach-frame mem mem' a (b ∷ us) c (n, p, v, r) once back forth =
      let (p', v') = back b.0 (ground arith) in
      (
        forth a (ground arith) (not_last mem a b us c r once) ∙ n,
        p' ∙ p,
        v' ∙ v,
        Reach-frame mem mem' b.0 us c r (λ x. omega (arith, once x))
            (λ x h. back x (omega (arith, h))) (λ x h. forth x (omega (arith, h))),
      )

  -- The ring of `xs` through `head`.
  pub record IsRing (mem : Memory V) (head : NodePtr) (xs : Cells V) : Type 0 where
    pub last : NodePtr
    pub reach : Reach mem head xs last
    pub close_next : next_of mem last ≡ some head
    pub close_prev : prev_of mem head ≡ some last
    pub once : (x : NodePtr) → tally head x xs ≤ 1
    pub below : (x : NodePtr) → 0 < tally head x xs → x < mem.top
