-- ===== src/MinHeap/Least.antt =====
-- The least child that `kvs_minheap_del` of src/kvs_minheap4.c finds.
use mathlib.Core.Path.{subst}
use mathlib.Core.Option.{some-injective}
use ckv.Run.{Returns, ok}
use ckv.Base.Int.{ℤ}
use ckv.MinHeap.{less, lesser, least, get}
use ckv.MinHeap.Written.{IsWritten, get-IsWritten}
use ckv.MinHeap.Order.{IsComparison}
use ckv.MinHeap.Insert.{entries}
use ckv.Base.{
  ℕ, ◌+◌, ◌<◌, ◌≤◌, ◌≡◌, refl, sym, ◌∙◌, List, length, Option, some, Bool, true, false, ltb,
  if◌then◌else◌, Bool-cases, inl, inr, arith,
}

ok_if : {B : Type 0} (b : Bool) (x y : B) → (if b then ok x else ok y) ≡ ok (if b then x else y)
ok_if true x y = refl
ok_if false x y = refl

module _ {A : Type 0} (cmp : A → A → ℤ) where
  lesser-two :
      (t : List (Option A)) (n c : ℕ) (v w : A)
      → get t c ≡ ok v
      → get t (c + 1) ≡ ok w
      → ltb (c + 1) n ≡ true
      → lesser cmp t n c ≡ ok (if less cmp w v then (c + 1, w) else (c, v))
  unfolding lesser
  lesser-two t n c v w at at' more =
      rw (lesser, at, more, at') (ok_if (less cmp w v) (c + 1, w) (c, v))

  lesser-one :
      (t : List (Option A)) (n c : ℕ) (v : A)
      → get t c ≡ ok v
      → ltb (c + 1) n ≡ false
      → lesser cmp t n c ≡ ok (c, v)
  unfolding lesser
  lesser-one t n c v at alone = rw (lesser, at, alone) refl

  least-two :
      (t : List (Option A)) (n c i j : ℕ) (v w : A)
      → lesser cmp t n c ≡ ok (i, v)
      → lesser cmp t n (c + 2) ≡ ok (j, w)
      → ltb (c + 2) n ≡ true
      → least cmp t n c ≡ ok (if less cmp w v then (j, w) else (i, v))
  unfolding least
  least-two t n c i j v w at at' more =
      rw (least, at, more, at') (ok_if (less cmp w v) (j, w) (i, v))

  least-one :
      (t : List (Option A)) (n c i : ℕ) (v : A)
      → lesser cmp t n c ≡ ok (i, v)
      → ltb (c + 2) n ≡ false
      → least cmp t n c ≡ ok (i, v)
  unfolding least
  least-one t n c i v at few = rw (least, at, few) refl

module _ {A : Type 0} (cmp : A → A → ℤ) (k : IsComparison cmp) where
  -- The entry `min` at `c` is one of the `m` entries from `from` on, below `n`, and none of them is
  -- less.
  pub record IsLeast (e : ℕ → Option A) (n from m : ℕ) (r : ℕ × A) : Type 0 where
    pub here : e r.0 ≡ some r.1
    pub low : from ≤ r.0
    pub high : r.0 < from + m
    pub inside : r.0 < n
    pub least :
        (i : ℕ) → from ≤ i → i < from + m → i < n → (x : A) → e i ≡ some x → less cmp x r.1 ≡ false

  pub not_less_self : (x : A) → less cmp x x ≡ false
  not_less_self x = elim (Bool-cases (less cmp x x)) [
    | inl below ↦ k.asym x x below
    | inr above ↦ above
  ]

  -- One entry alone.
  IsLeast-one : (e : ℕ → Option A) (n c : ℕ) (v : A) → e c ≡ some v → c < n → IsLeast e n c 1 (c, v)
  IsLeast-one e n c v at lt = record {
    here = at;
    low = omega arith;
    high = omega arith;
    inside = lt;
    least = λ i lo hi _ x is_x.
        let same : i ≡ c = omega (arith, lo, hi) in
        subst (λ z. less cmp z v ≡ false)
          (some-injective v x (sym at ∙ subst (λ j. e j ≡ some x) same is_x)) (not_less_self v);
  }

  -- Nothing lies behind the end.
  IsLeast-beyond :
      (e : ℕ → Option A) (n from m m' : ℕ) (r : ℕ × A)
      → n ≤ from + m
      → m ≤ m'
      → IsLeast e n from m r
      → IsLeast e n from m' r
  IsLeast-beyond e n from m m' r end wide l = record {
    here = l.here;
    low = l.low;
    high = omega (arith, wide, l.high);
    inside = l.inside;
    least = λ i lo hi lt x is_x. l.least i lo (omega (arith, end, lt)) lt x is_x;
  }

  -- Two ranges of entries, one behind the other.
  IsLeast-join :
      (e : ℕ → Option A) (n from m m' : ℕ) (c d : ℕ) (v w : A)
      → IsLeast e n from m (c, v)
      → IsLeast e n (from + m) m' (d, w)
      → IsLeast e n from (m + m') (if less cmp w v then (d, w) else (c, v))
  IsLeast-join e n from m m' c d v w l l' = elim (Bool-cases (less cmp w v)) [
    | inl below ↦ rw below record {
      here = l'.here;
      low = omega (arith, l'.low);
      high = omega (arith, l'.high);
      inside = l'.inside;
      least = λ i lo hi lt x is_x. elim (Bool-cases (ltb i (from + m))) [
        | inl first ↦
            k.after x v w (l.least i lo (ground (arith, first)) lt x is_x) (k.asym w v below)
        | inr second ↦ l'.least i (ground (arith, second)) (omega (arith, hi)) lt x is_x
      ];
    }
    | inr above ↦ rw above record {
      here = l.here;
      low = l.low;
      high = omega (arith, l.high);
      inside = l.inside;
      least = λ i lo hi lt x is_x. elim (Bool-cases (ltb i (from + m))) [
        | inl first ↦ l.least i lo (ground (arith, first)) lt x is_x
        | inr second ↦
            k.after x w v (l'.least i (ground (arith, second)) (omega (arith, hi)) lt x is_x) above
      ];
    }
  ]

  module _ (t : List (Option A)) (n : ℕ) (fits : n ≤ length t) (w : IsWritten t n) where
    got : (c : ℕ) (lt : c < n) → get t c ≡ ok (w c lt).0
    got c lt = get-IsWritten t c (omega (arith, lt, fits)) (w c lt).1

    lesser-IsLeast : (c : ℕ) → c < n → Returns (IsLeast (entries t) n c 2) (lesser cmp t n c)
    lesser-IsLeast c lt = elim (Bool-cases (ltb (c + 1) n)) [
      | inl more ↦
          let lt' : c + 1 < n = ground (arith, more) in
          let v = w c lt in
          let v' = w (c + 1) lt' in
          (
            (if less cmp v'.0 v.0 then (c + 1, v'.0) else (c, v.0)),
            lesser-two cmp t n c v.0 v'.0 (got c lt) (got (c + 1) lt') more,
            IsLeast-join (entries t) n c 1 1 c (c + 1) v.0 v'.0
                (IsLeast-one (entries t) n c v.0 v.1 lt)
                (IsLeast-one (entries t) n (c + 1) v'.0 v'.1 lt'),
          )
      | inr alone ↦
          let v = w c lt in
          (
            (c, v.0),
            lesser-one cmp t n c v.0 (got c lt) alone,
            IsLeast-beyond (entries t) n c 1 2 (c, v.0) (ground (arith, alone)) (omega arith)
                (IsLeast-one (entries t) n c v.0 v.1 lt),
          )
    ]

    pub least-IsLeast : (c : ℕ) → c < n → Returns (IsLeast (entries t) n c 4) (least cmp t n c)
    least-IsLeast c lt =
        let ((i, v), run, l) = lesser-IsLeast c lt in
        elim (Bool-cases (ltb (c + 2) n)) [
          | inl more ↦
              let lt' : c + 2 < n = ground (arith, more) in
              let ((j, v'), run', l') = lesser-IsLeast (c + 2) lt' in
              (
                (if less cmp v' v then (j, v') else (i, v)),
                least-two cmp t n c i j v v' run run' more,
                IsLeast-join (entries t) n c 2 2 i j v v' l l',
              )
          | inr few ↦ (
            (i, v),
            least-one cmp t n c i v run few,
            IsLeast-beyond (entries t) n c 2 4 (i, v) (ground (arith, few)) (omega arith) l,
          )
        ]
