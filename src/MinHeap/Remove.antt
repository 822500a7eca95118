-- ===== src/MinHeap/Remove.antt =====
-- `kvs_minheap_del` of src/kvs_minheap4.c as the removal of the least entry.
use mathlib.Core.Path.{subst}
use mathlib.Core.Option.{some-injective}
use ckv.Run.{Returns, ok, ok-then}
use ckv.Base.Int.{ℤ}
use ckv.MinHeap.{less, least, sift_down, put_at}
use ckv.MinHeap.Written.{IsWritten, put_at-lem, set-IsWritten}
use ckv.MinHeap.Order.{IsComparison, IsOrdered, InOrder, parent_of}
use ckv.MinHeap.Total.{total, total-exchange, put_in}
use ckv.MinHeap.Insert.{entries}
use ckv.MinHeap.Least.{IsLeast, least-IsLeast}
use ckv.MinHeap.Sink.{SinksFrom, IsOrdered-rest, SinksFrom-exchanged}
use ckv.Base.{
  ap, fun_ext, ℕ, zero, suc, ◌+◌, ◌-◌, ◌*◌, ◌<◌, ◌≤◌, ◌≡◌, refl, sym, ◌∙◌, List, set, get_or-set,
  length, length-set, Option, some, none, true, false, ltb, ◌==◌, if◌then◌else◌, Bool-cases, inl,
  inr, arith,
}

module _ {A : Type 0} (cmp : A → A → ℤ) where
  -- One round of the loop, by its outcome.
  sift_down_ends :
      (f n p : ℕ) (t : List (Option A)) (tmp : A)
      → ltb (4 * p + 1) n ≡ false
      → sift_down cmp (suc f) n p t tmp ≡ ok t
  unfolding sift_down
  sift_down_ends f n p t tmp none_below = rw (sift_down, none_below)

  sift_down_stays :
      (f n p c : ℕ) (t : List (Option A)) (tmp min : A)
      → ltb (4 * p + 1) n ≡ true
      → least cmp t n (4 * p + 1) ≡ ok (c, min)
      → less cmp min tmp ≡ false
      → sift_down cmp (suc f) n p t tmp ≡ ok t
  unfolding sift_down
  sift_down_stays f n p c t tmp min some_below found stays =
      rw (sift_down, some_below)
        (ok-then (least cmp t n (4 * p + 1)) (c, min) _ found ∙ rw stays refl)

  sift_down_sinks :
      (f n p c : ℕ) (t : List (Option A)) (tmp min : A) (t₁ t₂ : List (Option A))
      → ltb (4 * p + 1) n ≡ true
      → least cmp t n (4 * p + 1) ≡ ok (c, min)
      → less cmp min tmp ≡ true
      → put_at t p min ≡ ok t₁
      → put_at t₁ c tmp ≡ ok t₂
      → sift_down cmp (suc f) n p t tmp ≡ sift_down cmp f n c t₂ tmp
  unfolding sift_down
  sift_down_sinks f n p c t tmp min t₁ t₂ some_below found sinks put_p put_c =
      rw (sift_down, some_below)
        (ok-then (least cmp t n (4 * p + 1)) (c, min) _ found ∙ rw (sinks, put_p, put_c) refl)

  -- Before a round at `p`, when `tmp` sinks, the sums are those of `e`, and `tmp` also stands at the
  -- end.
  pub record Sinking (e : ℕ → Option A) (n : ℕ) (tmp : A) (size : ℕ) (p : ℕ) (t : List (Option A))
      : Type 0 where
    pub sinks : SinksFrom cmp (entries t) n p
    pub here : entries t p ≡ some tmp
    pub end_ : entries t (n - 1) ≡ some tmp
    pub sums : (f : A → ℕ) → total f (entries t) n ≡ total f e n
    pub written : IsWritten t n
    pub room : length t ≡ size

  pub record Sunk (e : ℕ → Option A) (n : ℕ) (tmp : A) (size : ℕ) (t : List (Option A))
      : Type 0 where
    pub ordered : IsOrdered cmp (entries t) n
    pub end_ : entries t (n - 1) ≡ some tmp
    pub sums : (f : A → ℕ) → total f (entries t) n ≡ total f e n
    pub written : IsWritten t n
    pub room : length t ≡ size

  stopped :
      (e : ℕ → Option A) (n : ℕ) (tmp : A) (size p : ℕ) (t : List (Option A))
      → Sinking e n tmp size p t
      → ((i : ℕ) → 0 < i → i < n → parent_of i ≡ p → InOrder cmp (entries t) i p)
      → Sunk e n tmp size t
  stopped e n tmp size p t s here = record {
    ordered = IsOrdered-rest cmp (entries t) n p s.sinks here;
    end_ = s.end_;
    sums = s.sums;
    written = s.written;
    room = s.room;
  }

  sunk-Sinking :
      (k : IsComparison cmp) (e : ℕ → Option A) (n : ℕ) (tmp : A) (size p c : ℕ) (min : A)
      (t : List (Option A))
      → n ≤ size
      → Sinking e n tmp size p t
      → IsLeast cmp k (entries t) n (4 * p + 1) 4 (c, min)
      → less cmp min tmp ≡ true
      → Sinking e n tmp size c (set (set t p (some min)) c (some tmp))
  sunk-Sinking k e n tmp size p c min t fits s l sinks =
      let low : p < c = omega (arith, l.low) in
      let lt : c < n = l.inside in
      let in_p : p < length t = omega (arith, low, lt, fits, s.room) in
      let in_c : c < length (set t p (some min)) =
        omega (arith, lt, fits, s.room, length-set t p (some min)) in
      let there : entries (set (set t p (some min)) c (some tmp))
          ≡ put_in (put_in (entries t) p min) c tmp =
        fun_ext (λ j.
          get_or-set (set t p (some min)) c j (some tmp) none in_c
          ∙ ap (λ x. if c == j then some tmp else x) (get_or-set t p j (some min) none in_p)) in
      record {
        sinks =
            subst (λ g. SinksFrom cmp g n c) (sym there)
              (SinksFrom-exchanged cmp k (entries t) n p c tmp min s.sinks s.here l sinks);
        here = ap (λ g. g c) there ∙ ground arith;
        end_ = ap (λ g. g (n - 1)) there ∙ ground (arith, low, lt, s.end_);
        sums = λ f.
            ap (λ g. total f g n) there
            ∙ total-exchange f (entries t) c p min tmp n (omega (arith, low)) lt
                (omega (arith, low, lt)) s.here l.here
            ∙ s.sums f;
        written =
            set-IsWritten (set t p (some min)) n c tmp in_c
              (set-IsWritten t n p min in_p s.written);
        room = length-set (set t p (some min)) c (some tmp) ∙ length-set t p (some min) ∙ s.room;
      }

  pub sift_down-Sunk :
      (k : IsComparison cmp) (e : ℕ → Option A) (tmp : A) (size f n p : ℕ) (t : List (Option A))
      → n ≤ size
      → p < n
      → n ≤ p + f
      → Sinking e n tmp size p t
      → Returns (Sunk e n tmp size) (sift_down cmp f n p t tmp)
  sift_down-Sunk k e tmp size zero n p t fits inside fuel s = absurd (omega (arith, inside, fuel))
  sift_down-Sunk k e tmp size (suc f) n p t fits inside fuel s =
      elim (Bool-cases (ltb (4 * p + 1) n)) [
        | inr childless ↦ (
          t,
          sift_down_ends f n p t tmp childless,
          stopped e n tmp size p t s (λ i lo lt up. absurd (ground (arith, childless, lo, lt, up))),
        )
        | inl parent ↦
            let ((c, min), found, l) =
              least-IsLeast cmp k t n (omega (arith, fits, s.room)) s.written (4 * p + 1)
                (ground (arith, parent)) in
            elim (Bool-cases (less cmp min tmp)) [
              | inr stays ↦ (
                t,
                sift_down_stays f n p c t tmp min parent found stays,
                stopped e n tmp size p t s (λ i lo lt up x y is_x is_y.
                    subst (λ z. less cmp x z ≡ false) (some-injective tmp y (sym s.here ∙ is_y))
                      (k.after x min tmp
                        (l.least i (omega (arith, lo, up)) (omega (arith, lo, up)) lt x is_x)
                        stays)),
              )
              | inl sinks ↦
                  let (t', run, done) =
                    sift_down-Sunk k e tmp size f n c (set (set t p (some min)) c (some tmp)) fits
                      l.inside (omega (arith, fuel, l.low))
                      (sunk-Sinking k e n tmp size p c min t fits s l sinks) in
                  (
                    t',
                    sift_down_sinks f n p c t tmp min _ _ parent found sinks
                          (put_at-lem t p min (omega (arith, inside, fits, s.room)))
                          (put_at-lem (set t p (some min)) c tmp
                            (omega (arith, l.inside, fits, s.room, length-set t p (some min))))
                        ∙ run,
                    done,
                  )
            ]
      ]
