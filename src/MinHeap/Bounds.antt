-- ===== src/MinHeap/Bounds.antt =====
-- Where src/kvs_minheap4.c leaves its memory.
use ckv.MinHeap.Rise.{sift_up-Risen}
use ckv.MinHeap.Written.{put_at-lem, IsWritten, IsRoomy}
use ckv.Run.{Returns, fault}
use ckv.Base.Int.{ℤ}
use ckv.MinHeap.{sift_up, ok, MinHeap, grow, insert, put_at, realloc, minheap_add}
use ckv.Base.{
  length-set, inr, get_or-set, suc, inl, ◌==◌, Bool-cases, set, ℕ, ◌-◌, ◌*◌, ◌/◌, ◌<◌, ◌≤◌, ◌≡◌,
  List, ◌++◌, length, length-append, length-take, length-replicate, take, replicate, Option, some,
  none, Bool, true, false, ltb, leb, refl, ◌∙◌, arith,
}

module _ {A : Type 0} (cmp : A → A → ℤ) where
  -- A full heap, whose memory is as large as its size says: the next call of `kvs_minheap_add`
  -- writes outside the memory if it gets new memory, whatever is added.
  pub minheap_add_full :
      {h : MinHeap A} (v : A) → IsRoomy h → h.count ≡ h.nalloc → minheap_add cmp true h v ≡ fault
  unfolding minheap_add grow insert put_at realloc
  minheap_add_full {h} v r full = rw (is_full, outside)
    where
      is_full : leb h.nalloc h.count ≡ true
      is_full = ground (arith, full)

      outside :
          ltb h.count
            (length (take (h.nalloc * 2 / 8) h.t ++ replicate (h.nalloc * 2 / 8 - length h.t) none))
          ≡ false
      outside = ground (
        arith,
        full,
        r.room,
        r.some_room,
        length-append (take (h.nalloc * 2 / 8) h.t)
            (replicate (h.nalloc * 2 / 8 - length h.t) none),
        length-take (h.nalloc * 2 / 8) h.t,
        length-replicate {A = Option A} (h.nalloc * 2 / 8 - length h.t) none,
      )

module _ {A : Type 0} where
  module _ (cmp : A → A → ℤ) where
    Sifted : List (Option A) → ℕ → List (Option A) → Type 0
    Sifted t n t' = (length t' ≡ length t) × IsWritten t' n

    sift_up-Sifted :
        (f c n : ℕ) (t : List (Option A)) (tmp : A)
        → c ≤ f
        → c < n
        → n ≤ length t
        → IsWritten t n
        → Returns (Sifted t n) (sift_up cmp f c t tmp)
    unfolding Sifted
    sift_up-Sifted f c n t tmp fuel lt le w =
        let (t', run, (size, w', _)) =
          sift_up-Risen cmp n tmp (λ c t. Unit) (λ t. Unit) (λ t q. tt)
            (λ c t child parent _ _ _ _ _ q. tt) (λ c t child parent _ _ _ _ _ _ q. tt) f c t fuel
            lt le w tt in
        (t', run, (size, w'))

    -- The new entry is written behind the others.
    pub appended-IsWritten :
        (t : List (Option A)) (n : ℕ) (v : A)
        → n < length t
        → IsWritten t n
        → IsWritten (set t n (some v)) (suc n)
    appended-IsWritten t n v room w j lt = elim (Bool-cases (n == j)) [
      | inl same ↦ (v, get_or-set t n j (some v) none room ∙ rw same)
      | inr differ ↦
          let before = w j (ground (arith, lt, differ)) in
          (before.0, get_or-set t n j (some v) none room ∙ rw differ before.1)
    ]

    -- With room, `kvs_minheap_add` is the loop on the entries with the new one behind them.
    pub minheap_add-run :
        (memory : Bool) (h : MinHeap A) (v : A) (t' : List (Option A))
        → IsRoomy h
        → h.count < h.nalloc
        → sift_up cmp h.count h.count (set h.t h.count (some v)) v ≡ ok t'
        → minheap_add cmp memory h v ≡ ok (true, record h { t = t'; count = suc h.count })
    unfolding minheap_add insert grow
    minheap_add-run memory h v t' r more run =
        let not_full : leb h.nalloc h.count ≡ false = ground (arith, more) in
        rw (
          minheap_add,
          grow,
          not_full,
          insert,
          put_at-lem h.t h.count v (omega (arith, r.room, more)),
          run,
        )

    -- A heap whose memory is as large as its size says, with room for one entry more, and whose
    -- entries are all written: `kvs_minheap_add` returns true without a fault, whatever `cmp`
    -- answers, and leaves such a heap, full or not, with one entry more.
    minheap_add-IsRoomy :
        (memory : Bool) {h : MinHeap A} (v : A)
        → IsRoomy h
        → IsWritten h.t h.count
        → h.count < h.nalloc
        → Returns
            (λ (done, h').
              (done ≡ true) × (h'.count ≡ suc h.count) × IsRoomy h' × IsWritten h'.t h'.count)
            (minheap_add cmp memory h v)
    unfolding Sifted
    minheap_add-IsRoomy memory {h} v r w more =
        let inside : h.count < length h.t = omega (arith, r.room, more) in
        let size = length-set h.t h.count (some v) in
        let (t', run, (e, w')) =
          sift_up-Sifted h.count h.count (suc h.count) (set h.t h.count (some v)) v (omega arith)
            (omega arith) (omega (arith, size, inside))
            (appended-IsWritten h.t h.count v inside w) in
        (
          (true, record h { t = t'; count = suc h.count }),
          minheap_add-run memory h v t' r more run,
          (
            refl,
            refl,
            record {
              room = e ∙ size ∙ r.room;
              fits = omega (arith, more);
              some_room = r.some_room;
            },
            w',
          ),
        )
