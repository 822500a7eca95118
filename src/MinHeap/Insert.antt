-- ===== src/MinHeap/Insert.antt =====
-- `kvs_minheap_add` of src/kvs_minheap4.c as the insertion into a heap.
use ckv.MinHeap.Bounds.{minheap_add-run, appended-IsWritten}
use mathlib.Core.Path.{subst}
use mathlib.Core.Option.{some-injective}
use ckv.Run.{Returns}
use ckv.Base.Int.{ℤ}
use ckv.MinHeap.{MinHeap, less, minheap_add, sift_up}
use ckv.MinHeap.Written.{IsRoomy, IsWritten}
use ckv.MinHeap.Order.{
  IsComparison, IsOrdered, RisesFrom, IsOrdered-top, IsOrdered-stop, RisesFrom-exchanged, parent_of,
}
use ckv.MinHeap.Total.{total-behind, total, total-exchange, put_in}
use ckv.MinHeap.Rise.{sift_up-Risen}
use ckv.Base.{
  ap, fun_ext, ℕ, suc, ◌+◌, ◌<◌, ◌≤◌, ◌≡◌, ◌≢◌, refl, sym, ◌∙◌, List, set, get_or, get_or-set,
  length, length-set, Option, some, none, Bool, true, false, ◌==◌, if◌then◌else◌, arith,
}

module _ {A : Type 0} where
  -- The entries by their indices.
  abbrev pub entries : List (Option A) → ℕ → Option A
  entries t i = get_or t i none

  -- A heap: its memory is as large as its size says, its entries are written and in order.
  pub record IsHeap (cmp : A → A → ℤ) (h : MinHeap A) : Type 0 where
    pub roomy : IsRoomy h
    pub written : IsWritten h.t h.count
    pub ordered : IsOrdered cmp (entries h.t) h.count

  -- The heap `h'` has the entries of `h` and `v`.
  pub record Inserted (cmp : A → A → ℤ) (h : MinHeap A) (v : A) (r : Bool × MinHeap A)
      : Type 0 where
    pub done : r.0 ≡ true
    pub count : r.1.count ≡ suc h.count
    pub heap : IsHeap cmp r.1
    pub same :
        (f : A → ℕ) → total f (entries r.1.t) (suc h.count) ≡ f v + total f (entries h.t) h.count

  module _ (cmp : A → A → ℤ) (k : IsComparison cmp) where
    -- Before a round at `c`, when the entry that rises is `v` and the sums are those of `e`.
    pub record Rising (e : ℕ → Option A) (n : ℕ) (v : A) (c : ℕ) (t : List (Option A))
        : Type 0 where
      pub rises : RisesFrom cmp (entries t) n c
      pub here : entries t c ≡ some v
      pub sums : (f : A → ℕ) → total f (entries t) n ≡ total f e n

    Settled : (ℕ → Option A) → ℕ → List (Option A) → Type 0
    Settled e n t =
        IsOrdered cmp (entries t) n × ((f : A → ℕ) → total f (entries t) n ≡ total f e n)

    entries-exchanged :
        (t : List (Option A)) (p c : ℕ) (v w : A)
        → p < length t
        → c < length t
        → entries (set (set t c (some w)) p (some v)) ≡ put_in (put_in (entries t) c w) p v
    entries-exchanged t p c v w in_p in_c = fun_ext (λ j.
        get_or-set (set t c (some w)) p j (some v) none
          (omega (arith, in_p, length-set t c (some w)))
        ∙ ap (λ x. if p == j then some v else x) (get_or-set t c j (some w) none in_c))

    Rising-round :
        (e : ℕ → Option A) (n : ℕ) (v : A) (c : ℕ) (t : List (Option A)) (child parent : A)
        → 0 < c
        → c < n
        → n ≤ length t
        → entries t c ≡ some child
        → entries t (parent_of c) ≡ some parent
        → less cmp child parent ≡ true
        → Rising e n v c t
        → Rising e n v (parent_of c) (set (set t c (some parent)) (parent_of c) (some v))
    Rising-round e n v c t child parent lo lt le at_c at_p up r =
        let low : parent_of c < c = omega (arith, lo) in
        let same = some-injective child v (sym at_c ∙ r.here) in
        let up' = subst (λ x. less cmp x parent ≡ true) same up in
        let there =
          entries-exchanged t (parent_of c) c v parent (omega (arith, low, lt, le))
            (omega (arith, lt, le)) in
        record {
          rises =
              subst (λ g. RisesFrom cmp g n (parent_of c)) (sym there)
                (RisesFrom-exchanged cmp k (entries t) n c v parent r.rises lo lt r.here at_p up');
          here = ap (λ g. g (parent_of c)) there ∙ ground arith;
          sums = λ f.
              ap (λ g. total f g n) there
              ∙ total-exchange f (entries t) (parent_of c) c parent v n (omega (arith, low))
                  (omega (arith, low, lt)) lt r.here at_p
              ∙ r.sums f;
        }

    sift_up-Settled :
        (f : ℕ) (n : ℕ) (v : A) (t : List (Option A))
        → n ≤ f
        → suc n ≤ length t
        → IsWritten t (suc n)
        → RisesFrom cmp (entries t) (suc n) n
        → entries t n ≡ some v
        → Returns
            (λ t'. (length t' ≡ length t) × IsWritten t' (suc n) × Settled (entries t) (suc n) t')
            (sift_up cmp f n t v)
    unfolding Settled
    sift_up-Settled f n v t fuel le w rises here =
        sift_up-Risen cmp (suc n) v (Rising (entries t) (suc n) v) (Settled (entries t) (suc n))
          (λ t' q. (IsOrdered-top cmp (entries t') (suc n) q.rises, q.sums))
          (λ c t' child parent lo lt at_c at_p stays q. (
            IsOrdered-stop cmp (entries t') (suc n) c q.rises (λ x y is_x is_y.
                subst (λ z. less cmp z y ≡ false) (some-injective child x (sym at_c ∙ is_x))
                  (subst (λ z. less cmp child z ≡ false) (some-injective parent y (sym at_p ∙ is_y))
                    stays)),
            q.sums,
          ))
          (Rising-round (entries t) (suc n) v) f n t fuel (omega arith) le w
          record { rises = rises; here = here; sums = λ f. refl }

    RisesFrom-put_in :
        (e : ℕ → Option A) (n : ℕ) (v : A)
        → IsOrdered cmp e n
        → RisesFrom cmp (put_in e n v) (suc n) n
    RisesFrom-put_in e n v o = record {
      others = λ i lo lt other x y is_x is_y.
          o i lo (omega (arith, lt, other)) x y (sym (elsewhere i other) ∙ is_x)
            (sym (elsewhere (parent_of i) (λ z. absurd (omega (arith, z, lo, lt)))) ∙ is_y);
      over = λ i lo lt child _. absurd (omega (arith, lo, lt, child));
    }
      where
        elsewhere : (j : ℕ) → j ≢ n → put_in e n v j ≡ e j
        elsewhere j other = ground (arith, other)

    -- On a heap with room for one entry more `kvs_minheap_add` returns true and leaves a heap, in
    -- which no entry is less than the one above it, with the entries of the old heap and the new
    -- one: under any weight of entries they add up to as much. The function of the user is taken
    -- to compare like a total preorder.
    pub minheap_add-Inserted :
        (memory : Bool) (h : MinHeap A) (v : A)
        → IsHeap cmp h
        → h.count < h.nalloc
        → Returns (Inserted cmp h v) (minheap_add cmp memory h v)
    unfolding Settled
    minheap_add-Inserted memory h v heap more =
        let r = heap.roomy in
        let inside : h.count < length h.t = omega (arith, r.room, more) in
        let size = length-set h.t h.count (some v) in
        let there : entries (set h.t h.count (some v)) ≡ put_in (entries h.t) h.count v =
          fun_ext (λ j. get_or-set h.t h.count j (some v) none inside) in
        let (t', run, (e, w', (o, sums))) =
          sift_up-Settled h.count h.count v (set h.t h.count (some v)) (omega arith)
            (omega (arith, size, inside)) (appended-IsWritten cmp h.t h.count v inside heap.written)
            (subst (λ g. RisesFrom cmp g (suc h.count) h.count) (sym there)
              (RisesFrom-put_in (entries h.t) h.count v heap.ordered))
            (ap (λ g. g h.count) there ∙ ground arith) in
        (
          (true, record h { t = t'; count = suc h.count }),
          minheap_add-run cmp memory h v t' r more run,
          record {
            done = refl;
            count = refl;
            heap = record {
              roomy = record {
                room = e ∙ size ∙ r.room;
                fits = omega (arith, more);
                some_room = r.some_room;
              };
              written = w';
              ordered = o;
            };
            same = λ f.
                sums f
                ∙ ap (λ g. total f g (suc h.count)) there
                ∙ total-behind f (entries h.t) h.count v;
          },
        )
