-- ===== src/MinHeap.antt =====
-- src/kvs_minheap4.c and src/kvs_minheap4.h: a heap in which every entry has four children.
--
-- An entry is `none` while nothing has been written to it; a read of such an entry, or an access
-- outside the memory, is a fault. A pointer has 8 bytes. Whether an allocation succeeds is an
-- argument, and `cmp` is the function that the user sets.
pub mod Written
pub mod Rise
pub mod Bounds
pub mod Shrink
pub mod Order
pub mod Total
pub mod Insert
pub mod Least
pub mod Sink
pub mod Remove
pub mod Take
pub mod Tests
use ckv.Run.{Run, ok, fault, out_of_fuel, at, ◌>>=◌}
use ckv.Base.Int.{ℤ, pos, ltb_ℤ}
use ckv.Base.{
  ℕ, zero, suc, ◌+◌, ◌-◌, ◌*◌, ◌/◌, List, [], ◌∷◌, ◌++◌, length, take, replicate, set, Option, some,
  none, Bool, true, false, not, ◌&&◌, ltb, leb, ◌==◌, if◌then◌else◌,
}

-- `kvs_minheap_t`
pub record MinHeap (A : Type 0) : Type 0 where
  pub t : List (Option A)
  pub count : ℕ
  pub nalloc : ℕ
  pub flag : Bool

module _ {A : Type 0} where
  -- `kvs_minheap_init`; `none` is the result -1.
  unfoldable pub init : Bool → Option (MinHeap A)
  init false = none
  init true = some (record { t = replicate 8 none; count = 0; nalloc = 8; flag = false })

  -- `kvs_minheap_new`; a failure of `kvs_minheap_init` is not tested for, and leaves a null pointer
  -- in memory that is not written otherwise (`junk`).
  unfoldable pub minheap_new : (structure table : Bool) → MinHeap A → Option (MinHeap A)
  unfolding init
  minheap_new false table junk = none
  minheap_new true table junk = elim (init table) [
    | none ↦ some (record junk { t = []; flag = true })
    | some h ↦ some (record h { flag = true })
  ]

  -- `t[i]` as a value and as a place
  unfoldable pub loaded : Option A → Run A
  loaded none = fault
  loaded (some v) = ok v

  unfoldable pub get : List (Option A) → ℕ → Run A
  unfolding loaded
  get t i = at t i >>= loaded

  unfoldable pub put_at : List (Option A) → ℕ → A → Run (List (Option A))
  put_at t i v = if ltb i (length t) then ok (set t i (some v)) else fault

  -- `realloc(t, n)`, a size in bytes
  unfoldable pub realloc : Bool → ℕ → List (Option A) → Option (List (Option A))
  realloc false n t = none
  realloc true n t = some (take (n / 8) t ++ replicate (n / 8 - length t) none)

  module _ (cmp : A → A → ℤ) where
    -- `cmp(v, w) < 0`
    unfoldable pub less : A → A → Bool
    less v w = ltb_ℤ (cmp v w) (pos 0)

    -- The comparison and the exchange in it, with the next round as an argument.
    unfoldable pub sift_round :
        (List (Option A) → Run (List (Option A)))
        → ℕ
        → ℕ
        → List (Option A)
        → A
        → A
        → A
        → Run (List (Option A))
    unfolding put_at less
    sift_round next c p t tmp child parent = elim (less child parent) [
      | false ↦ ok t
      | true ↦ put_at t c parent >>= λ t. put_at t p tmp >>= λ t. next t
    ]

    -- The loop of `kvs_minheap_add` from `c` up.
    unfoldable pub sift_up : ℕ → ℕ → List (Option A) → A → Run (List (Option A))
    unfolding get sift_round
    sift_up zero c t tmp = if c == 0 then ok t else out_of_fuel
    sift_up (suc f) c t tmp = elim (c == 0) [
      | true ↦ ok t
      | false ↦
          let p = (c - 1) / 4 in
          get t c >>= λ child.
          get t p >>= λ parent. sift_round (λ t. sift_up f p t tmp) c p t tmp child parent
    ]

    -- The first block of `kvs_minheap_add`.
    unfoldable pub grow : Bool → MinHeap A → Bool × MinHeap A
    unfolding realloc
    grow memory h =
        if leb h.nalloc h.count
        then elim (realloc memory (h.nalloc * 2) h.t) [
          | none ↦ (false, record h { nalloc = h.nalloc * 2 })
          | some t ↦ (true, record h { t = t; nalloc = h.nalloc * 2 })
        ]
        else (true, h)

    -- The rest of it.
    unfoldable pub insert : Bool × MinHeap A → A → Run (Bool × MinHeap A)
    unfolding put_at sift_up
    insert (false, h) v = ok (false, h)
    insert (true, h) v = put_at h.t h.count v >>= λ t.
        sift_up h.count h.count t v >>= λ t. ok (true, record h { t = t; count = suc h.count })

    -- `kvs_minheap_add`; `false` is the result -1.
    unfoldable pub minheap_add : Bool → MinHeap A → A → Run (Bool × MinHeap A)
    unfolding grow insert
    minheap_add memory h v = insert (grow memory h) v

    -- The lesser of the entries at `c` and `c + 1`, where there is a second one.
    unfoldable pub lesser : List (Option A) → ℕ → ℕ → Run (ℕ × A)
    unfolding get less
    lesser t n c = get t c >>= λ min.
        if ltb (c + 1) n
        then (get t (c + 1) >>= λ other. if less other min then ok (c + 1, other) else ok (c, min))
        else ok (c, min)

    -- The least child, from the first child `c` on.
    unfoldable pub least : List (Option A) → ℕ → ℕ → Run (ℕ × A)
    unfolding lesser
    least t n c = lesser t n c >>= λ (i, min).
        if ltb (c + 2) n
        then (lesser t n (c + 2) >>= λ (j, min3).
            if less min3 min then ok (j, min3) else ok (i, min))
        else ok (i, min)

    -- The loop of `kvs_minheap_del` from `p` down.
    unfoldable pub sift_down : ℕ → ℕ → ℕ → List (Option A) → A → Run (List (Option A))
    unfolding least put_at
    sift_down zero n p t tmp = out_of_fuel
    sift_down (suc f) n p t tmp = elim (ltb (4 * p + 1) n) [
      | false ↦ ok t
      | true ↦ least t n (4 * p + 1) >>= λ (c, min). elim (less min tmp) [
        | false ↦ ok t
        | true ↦ put_at t p min >>= λ t. put_at t c tmp >>= λ t. sift_down f n c t tmp
      ]
    ]

    -- The second block of `kvs_minheap_del`.
    unfoldable pub shrink : Bool → MinHeap A → Bool × MinHeap A
    unfolding realloc
    shrink memory h =
        if leb (h.count - 1) (h.nalloc / 2)
        then elim (realloc memory (h.nalloc / 2) h.t) [
          | none ↦ (false, record h { nalloc = h.nalloc / 2 })
          | some t ↦ (true, record h { t = t; nalloc = h.nalloc / 2 })
        ]
        else (true, h)

    -- The rest of it.
    unfoldable pub settle : Bool × MinHeap A → Run (Bool × MinHeap A)
    unfolding get sift_down
    settle (false, h) = ok (false, h)
    settle (true, h) = get h.t 0 >>= λ tmp. sift_down h.count h.count 0 h.t tmp >>= λ t.
        ok (true, record h { t = t; count = h.count - 1 })

    -- `kvs_minheap_del`, with the entry that is handed out, if any.
    unfoldable pub minheap_del : Bool → MinHeap A → Run (Option A × Bool × MinHeap A)
    unfolding get put_at shrink settle
    minheap_del memory h =
        if h.count == 0
        then ok (none, false, h)
        else (get h.t 0 >>= λ first. get h.t (h.count - 1) >>= λ last. put_at h.t 0 last >>= λ t.
            settle (shrink memory (record h { t = t })) >>= λ (done, h'). ok (some first, done, h'))

  -- `kvs_minheap_free`: the entries that `myfree` is called on.
  unfoldable pub minheap_free : (myfree : Bool) → MinHeap A → ℕ → Run (List A)
  unfolding get
  minheap_free false h n = ok []
  minheap_free true h zero = ok []
  minheap_free true h (suc n) =
      get h.t (h.count - suc n) >>= λ v. minheap_free true h n >>= λ vs. ok (v ∷ vs)
