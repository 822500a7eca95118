-- ===== src/MinHeap/Shrink.antt =====
-- The memory that `kvs_minheap_del` of src/kvs_minheap4.c asks for.
use ckv.MinHeap.Written.{put_at-lem, get-IsWritten, IsWritten, IsRoomy}
use ckv.Run.{at, fault}
use ckv.Base.Int.{ℤ}
use ckv.MinHeap.{settle, minheap_del, shrink, ok, get, MinHeap, put_at, realloc}
use ckv.Base.{
  ◌==◌, set, get_or, ℕ, ◌-◌, ◌/◌, ◌<◌, ◌≤◌, ◌≡◌, List, [], ◌++◌, length, take, replicate, Option,
  some, none, true, false, leb, ap, arith,
}

module _ {A : Type 0} where
  module _ (cmp : A → A → ℤ) where
    -- The memory is less than one entry.
    no_cells :
        (n : ℕ) (t : List (Option A))
        → n / 8 ≡ 0
        → take (n / 8) t ++ replicate (n / 8 - length t) none ≡ []
    unfolding replicate
    no_cells n t e = let z : 0 - length t ≡ 0 = omega arith in rw (e, z)

    shrink-nil :
        (h : MinHeap A)
        → h.count - 1 ≤ h.nalloc / 2
        → h.nalloc < 16
        → shrink cmp true h ≡ (true, record h { t = []; nalloc = h.nalloc / 2 })
    unfolding shrink realloc
    shrink-nil h half small = rw is_half (
        ap (λ t. (true, record h { t = t; nalloc = h.nalloc / 2 }))
          (no_cells (h.nalloc / 2) h.t no_entry))
      where
        is_half : leb (h.count - 1) (h.nalloc / 2) ≡ true
        is_half = ground (arith, half)

        no_entry : h.nalloc / 2 / 8 ≡ 0
        no_entry = omega (arith, small)

    settle-shrink :
        (h : MinHeap A)
        → h.count - 1 ≤ h.nalloc / 2
        → h.nalloc < 16
        → settle cmp (shrink cmp true h) ≡ fault
    unfolding settle get at
    settle-shrink h half small = ap (settle cmp) (shrink-nil h half small)

    -- A heap that is not empty, of which at most half and one are in use, with a size below 16, as
    -- it is at first, with memory of that size and all its entries written: if `kvs_minheap_del`
    -- gets the smaller memory it asks for, it reads outside of it.
    pub minheap_del_small :
        {h : MinHeap A}
        → IsRoomy h
        → IsWritten h.t h.count
        → 0 < h.count
        → h.count - 1 ≤ h.nalloc / 2
        → h.nalloc < 16
        → minheap_del cmp true h ≡ fault
    unfolding minheap_del
    minheap_del_small {h} r w some_ half small =
        rw (minheap_del, not_empty, at_first, at_last, put_first, shrunk)
      where
        first : (v : A) × (get_or h.t 0 none ≡ some v)
        first = w 0 some_

        last : (v : A) × (get_or h.t (h.count - 1) none ≡ some v)
        last = w (h.count - 1) (omega (arith, some_))

        not_empty : h.count == 0 ≡ false
        not_empty = ground (arith, some_)

        at_first : get h.t 0 ≡ ok first.0
        at_first = get-IsWritten h.t 0 (omega (arith, r.room, r.some_room)) first.1

        at_last : get h.t (h.count - 1) ≡ ok last.0
        at_last = get-IsWritten h.t (h.count - 1) (omega (arith, r.room, r.fits, some_)) last.1

        put_first : put_at h.t 0 last.0 ≡ ok (set h.t 0 (some last.0))
        put_first = put_at-lem h.t 0 last.0 (omega (arith, r.room, r.some_room))

        shrunk : settle cmp (shrink cmp true (record h { t = set h.t 0 (some last.0) })) ≡ fault
        shrunk = settle-shrink (record h { t = set h.t 0 (some last.0) }) half small
