-- ===== src/MinHeap/Take.antt =====
-- `kvs_minheap_del` of src/kvs_minheap4.c on a heap that keeps its memory.
use mathlib.Core.Path.{subst}
use ckv.Run.{Returns, ok, ok-then}
use ckv.Base.Int.{ℤ}
use ckv.MinHeap.{MinHeap, less, minheap_del, sift_down, shrink, settle, put_at, get}
use ckv.MinHeap.Written.{IsWritten, put_at-lem, get-IsWritten, set-IsWritten}
use ckv.MinHeap.Order.{IsComparison, IsOrdered, parent_of}
use ckv.MinHeap.Total.{total, total-put_in, total-last, put_in, weight}
use ckv.MinHeap.Insert.{IsHeap, entries}
use ckv.MinHeap.Sink.{SinksFrom, IsOrdered-least}
use ckv.MinHeap.Remove.{Sinking, Sunk, sift_down-Sunk}
use ckv.Base.{
  ◌-◌, ◌-◌, ◌-◌, ◌-◌, ◌-◌, ◌-◌, ◌-◌, ◌-◌, ◌-◌, ◌-◌, ◌-◌, ◌-◌, ◌-◌, ◌-◌, ◌-◌, ◌-◌, ◌-◌, ap, ◌-◌, ◌-◌,
  fun_ext, ◌-◌, ℕ, ◌+◌, ◌-◌, ◌/◌, ◌<◌, ◌≤◌, ◌≡◌, ◌≢◌, refl, sym, ◌∙◌, List, set, get_or-set, length,
  length-set, Option, some, none, Bool, true, false, leb, ◌==◌, arith,
}

module _ {A : Type 0} (cmp : A → A → ℤ) where
  -- The heap hands out an entry that no other is less than, and keeps the rest.
  pub record Removed (h : MinHeap A) (r : Option A × Bool × MinHeap A) : Type 0 where
    pub first : A
    pub handed : r.0 ≡ some first
    pub done : r.1 ≡ true
    pub least : (i : ℕ) → i < h.count → (x : A) → entries h.t i ≡ some x → less cmp x first ≡ false
    pub count : r.2.count ≡ h.count - 1
    pub heap : IsHeap cmp r.2
    pub same :
        (f : A → ℕ)
        → f first + total f (entries r.2.t) (h.count - 1) ≡ total f (entries h.t) h.count

  settle-run :
      (h : MinHeap A) (last : A) (t' : List (Option A))
      → get h.t 0 ≡ ok last
      → sift_down cmp h.count h.count 0 h.t last ≡ ok t'
      → settle cmp (true, h) ≡ ok (true, record h { t = t'; count = h.count - 1 })
  unfolding settle
  settle-run h last t' at_top run =
      ok-then (get h.t 0) last _ at_top
      ∙ ok-then (sift_down cmp h.count h.count 0 h.t last) t' _ run

  minheap_del-run :
      (memory : Bool) (h : MinHeap A) (first last : A) (t₁ t' : List (Option A))
      → 0 < h.count
      → h.nalloc / 2 < h.count - 1
      → get h.t 0 ≡ ok first
      → get h.t (h.count - 1) ≡ ok last
      → put_at h.t 0 last ≡ ok t₁
      → get t₁ 0 ≡ ok last
      → sift_down cmp h.count h.count 0 t₁ last ≡ ok t'
      → minheap_del cmp memory h ≡ ok (some first, true, record h { t = t'; count = h.count - 1 })
  unfolding minheap_del shrink
  minheap_del-run memory h first last t₁ t' some_entry wide at_first at_last put_last at_top run =
      let used : (h.count == 0) ≡ false = ground (arith, some_entry) in
      let kept : leb (h.count - 1) (h.nalloc / 2) ≡ false = ground (arith, wide) in
      rw (minheap_del, used)
        (ok-then (get h.t 0) first _ at_first
          ∙ ok-then (get h.t (h.count - 1)) last _ at_last
          ∙ ok-then (put_at h.t 0 last) t₁ _ put_last
          ∙ rw kept (
              ok-then (settle cmp (true, record h { t = t₁ }))
                (true, record h { t = t'; count = h.count - 1 }) _
                (settle-run (record h { t = t₁ }) last t' at_top run)))

  Sinking-start :
      (t : List (Option A)) (n : ℕ) (last : A)
      → 0 < n
      → n ≤ length t
      → IsWritten t n
      → IsOrdered cmp (entries t) n
      → entries t (n - 1) ≡ some last
      → Sinking cmp (put_in (entries t) 0 last) n last (length t) 0 (set t 0 (some last))
  Sinking-start t n last lo fits w o at_last =
      let there : entries (set t 0 (some last)) ≡ put_in (entries t) 0 last =
        fun_ext (λ j. get_or-set t 0 j (some last) none (omega (arith, lo, fits))) in
      record {
        sinks =
            subst (λ g. SinksFrom cmp g n 0) (sym there)
              record {
                others = λ i lo' lt up x y is_x is_y.
                    o i lo' lt x y (sym (elsewhere i (omega (arith, lo'))) ∙ is_x)
                      (sym (elsewhere (parent_of i) up) ∙ is_y);
                under = λ i _ _ _ z. absurd (omega (arith, z));
              };
        here = ap (λ g. g 0) there;
        end_ = ap (λ g. g (n - 1)) there ∙ ground (arith, at_last);
        sums = λ f. ap (λ g. total f g n) there;
        written = set-IsWritten t n 0 last (omega (arith, lo, fits)) w;
        room = length-set t 0 (some last);
      }
    where
      elsewhere : (j : ℕ) → j ≢ 0 → put_in (entries t) 0 last j ≡ entries t j
      elsewhere j other = ground (arith, other)

  Removed-Sunk :
      (k : IsComparison cmp) (h : MinHeap A) (first last : A) (t' : List (Option A))
      → 0 < h.count
      → IsHeap cmp h
      → entries h.t 0 ≡ some first
      → Sunk cmp (put_in (entries h.t) 0 last) h.count last (length h.t) t'
      → Removed h (some first, true, record h { t = t'; count = h.count - 1 })
  Removed-Sunk k h first last t' lo heap at_first s = record {
    first = first;
    handed = refl;
    done = refl;
    least = λ i lt.
        IsOrdered-least cmp k (entries h.t) h.count first heap.written heap.ordered at_first i i
          (omega arith) lt;
    count = refl;
    heap = record {
      roomy = record {
        room = s.room ∙ heap.roomy.room;
        fits = omega (arith, heap.roomy.fits);
        some_room = heap.roomy.some_room;
      };
      written = λ i lt. s.written i (omega (arith, lt));
      ordered = λ i lo' lt. s.ordered i lo' (omega (arith, lt));
    };
    same = λ f. omega (
      arith,
      s.sums f,
      total-put_in f (entries h.t) 0 last h.count lo,
      total-last f (entries t') h.count lo,
      ap (weight f) s.end_,
      ap (weight f) at_first,
    );
  }

  -- From a heap that keeps its memory, since more than half of it is in use afterwards,
  -- `kvs_minheap_del` hands out an entry that none of the others is less than, and leaves a heap
  -- with the rest: under any weight of entries the two add up to what the old heap did. The function
  -- of the user is taken to compare like a total preorder.
  pub minheap_del-Removed :
      (k : IsComparison cmp) (memory : Bool) (h : MinHeap A)
      → IsHeap cmp h
      → h.nalloc / 2 < h.count - 1
      → Returns (Removed h) (minheap_del cmp memory h)
  minheap_del-Removed k memory h heap wide =
      let lo : 0 < h.count = omega (arith, wide) in
      let fits : h.count ≤ length h.t = omega (arith, heap.roomy.fits, heap.roomy.room) in
      let (first, at_first) = heap.written 0 lo in
      let (last, at_last) = heap.written (h.count - 1) (omega (arith, lo)) in
      let s = Sinking-start h.t h.count last lo fits heap.written heap.ordered at_last in
      let (t', run, sunk) =
        sift_down-Sunk cmp k (put_in (entries h.t) 0 last) last (length h.t) h.count h.count 0
          (set h.t 0 (some last)) fits lo (omega arith) s in
      (
        (some first, true, record h { t = t'; count = h.count - 1 }),
        minheap_del-run memory h first last (set h.t 0 (some last)) t' lo wide
            (get-IsWritten h.t 0 (omega (arith, lo, fits)) at_first)
            (get-IsWritten h.t (h.count - 1) (omega (arith, lo, fits)) at_last)
            (put_at-lem h.t 0 last (omega (arith, lo, fits)))
            (get-IsWritten (set h.t 0 (some last)) 0
              (omega (arith, lo, fits, length-set h.t 0 (some last))) s.here)
            run,
        Removed-Sunk k h first last t' lo heap at_first sunk,
      )
