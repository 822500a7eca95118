-- ===== src/Ev/Watch.antt =====
-- What the loop watches: with `select`, the sets that the system call is asked about are those of
-- the registrations.
use ckv.Base.Int.{ℤ, pos, ltb_ℤ}
use ckv.Run.{at, Returns}
use ckv.Ev.Select.{select_put, fd_setsize, Select, put_mask, select}
use ckv.Ev.{ev_del, without, registered, ev_add, ok, is_unused, ev_unused, Mask, Cache, Ev, join}
use ckv.Base.{
  ◌∙◌, length-set, inr, inl, leb, Bool-cases, sym, refl, zero, true, false, [], ltb, suc, ◌&&◌,
  some, ◌==◌, arith, if◌then◌else◌, ◌∷◌, Bool, ◌≡◌, set, ◌≤◌, ◌<◌, length, List, ℕ,
}

empty_join : (m mask : Mask) → is_unused mask ≡ true → join m mask ≡ m
empty_join m mask e = ground arith

pub empty_without : (m mask : Mask) → is_unused mask ≡ true → without m mask ≡ m
empty_without m mask e = ground arith

without_used : (a mask b : Mask) → a ≡ b → is_unused (without a mask) ≡ false → is_unused b ≡ false
without_used a mask b same used = rw (← same) (ground (arith, used))

-- The sets after FD_SET or FD_CLR.
abbrev pub sets_after : Select → ℕ → Mask → Bool → Select
sets_after s fd mask x = record {
  r = λ i. if mask.read && (fd == i) then x else s.r i;
  w = λ i. if mask.write && (fd == i) then x else s.w i;
}

pub put_mask-lem :
    (s : Select) (fd : ℕ) (mask : Mask) (x : Bool)
    → ltb fd fd_setsize ≡ true
    → put_mask s fd mask x ≡ ok (sets_after s fd mask x)
unfolding put_mask
put_mask-lem s fd mask x fits = go mask.read mask.write refl refl
  where
    go :
        (r w : Bool)
        → mask.read ≡ r
        → mask.write ≡ w
        → put_mask s fd mask x ≡ ok (sets_after s fd mask x)
    go true true er ew = rw (er, ew, fits)
    go true false er ew = rw (er, ew, fits)
    go false true er ew = rw (er, ew, fits)
    go false false er ew = rw (er, ew)

-- The mask of a descriptor's registration.
abbrev pub mask_at : {P U : Type 0} → List (Cache P U) → ℕ → Mask
mask_at [] fd = ev_unused
mask_at (c ∷ cs) zero = c.mask
mask_at (c ∷ cs) (suc fd) = mask_at cs fd

module _ {P U : Type 0} where
  mask_at-beyond : (cs : List (Cache P U)) (fd : ℕ) → length cs ≤ fd → mask_at cs fd ≡ ev_unused
  mask_at-beyond [] fd h = refl
  mask_at-beyond (c ∷ cs) zero h = absurd (omega arith)
  mask_at-beyond (c ∷ cs) (suc fd) h = mask_at-beyond cs fd (omega arith)

  pub mask_at-set :
      (cs : List (Cache P U)) (i fd : ℕ) (c : Cache P U)
      → i < length cs
      → mask_at (set cs i c) fd ≡ (if i == fd then c.mask else mask_at cs fd)
  mask_at-set [] i fd c h = absurd (omega arith)
  mask_at-set (d ∷ cs) zero zero c h = refl
  mask_at-set (d ∷ cs) zero (suc fd) c h = ground arith
  mask_at-set (d ∷ cs) (suc i) zero c h = ground arith
  mask_at-set (d ∷ cs) (suc i) (suc fd) c h = ground (arith, mask_at-set cs i fd c)

  -- Reading an entry of the cache.
  pub at-mask_at :
      (cs : List (Cache P U)) (fd : ℕ)
      → fd < length cs
      → Returns (λ c. c.mask ≡ mask_at cs fd) (at cs fd)
  unfolding at
  at-mask_at [] fd h = absurd (omega arith)
  at-mask_at (c ∷ cs) zero h = (c, refl, refl)
  at-mask_at (c ∷ cs) (suc fd) h = at-mask_at cs fd (omega arith)

  -- The tables have the announced size, every registration is below it and at most at `maxfd`, and
  -- the sets for `select` hold what is registered.
  pub record IsWatching (e : Ev Select P U) : Type 0 where
    pub width : length e.cache ≡ e.size
    pub places : length e.active ≡ e.size
    pub fits : e.size ≤ fd_setsize
    pub sets : Select
    pub here : e.ev ≡ some sets
    pub reads : (fd : ℕ) → sets.r fd ≡ (mask_at e.cache fd).read
    pub writes : (fd : ℕ) → sets.w fd ≡ (mask_at e.cache fd).write
    pub bound : (fd : ℕ) → is_unused (mask_at e.cache fd) ≡ false → ltb_ℤ e.maxfd (pos fd) ≡ false
    pub inside : ltb_ℤ e.maxfd (pos e.size) ≡ true

  -- A registration or its removal in the cache, with the sets that go with it.
  module _ {e : Ev Select P U} (w : IsWatching e) (fd : ℕ) (lt : fd < e.size) (mask : Mask) where
    entry : Returns (λ c. c.mask ≡ mask_at e.cache fd) (at e.cache fd)
    entry = at-mask_at e.cache fd (omega (arith, w.width, lt))

    small : ltb fd fd_setsize ≡ true
    small = ground (arith, lt, w.fits)

    pub select_put-IsWatching :
        (x : Bool) → select_put x e fd mask ≡ ok (some (some (sets_after w.sets fd mask x)))
    unfolding select_put
    select_put-IsWatching x = rw (w.here, put_mask-lem w.sets fd mask x small)

  -- What a registration does to the masks.
  abbrev pub masks_after : Ev Select P U → (Mask → Mask) → ℕ → ℕ → Mask
  masks_after e f fd i =
      if ltb fd e.size && (fd == i) then f (mask_at e.cache i) else mask_at e.cache i

  -- The call succeeds where the descriptor is below the size, and changes the mask of that
  -- descriptor only.
  pub record Changed (e : Ev Select P U) (f : Mask → Mask) (fd : ℕ) (r : Bool × Ev Select P U)
      : Type 0 where
    pub sound : IsWatching r.1
    pub same_size : r.1.size ≡ e.size
    pub done : r.0 ≡ ltb fd e.size
    pub masks : (i : ℕ) → mask_at r.1.cache i ≡ masks_after e f fd i

  unchanged :
      {e : Ev Select P U} (w : IsWatching e) (f : Mask → Mask) (fd : ℕ)
      → ltb fd e.size ≡ false
      → Changed e f fd (false, e)
  unchanged w f fd out = record { sound = w; same_size = refl; done = sym out; masks = λ i. rw out }

  -- A change of one entry of the cache with the sets that go with it.
  changed :
      {e : Ev Select P U} (w : IsWatching e) (f : Mask → Mask) (fd : ℕ) (lt : fd < e.size)
      (mask : Mask) (x : Bool) (c : Cache P U) (maxfd : ℤ)
      → c.mask ≡ f (mask_at e.cache fd)
      → c.mask.read ≡ (if mask.read then x else (mask_at e.cache fd).read)
      → c.mask.write ≡ (if mask.write then x else (mask_at e.cache fd).write)
      → (is_unused c.mask ≡ false → ltb_ℤ maxfd (pos fd) ≡ false)
      → ((i : ℕ) → ltb_ℤ e.maxfd (pos i) ≡ false → ltb_ℤ maxfd (pos i) ≡ false)
      → ltb_ℤ maxfd (pos e.size) ≡ true
      → Changed e f fd (
        true,
        record e {
          ev = some (sets_after w.sets fd mask x);
          cache = set e.cache fd c;
          maxfd = maxfd;
        },
      )
  changed {e} w f fd lt mask x c maxfd same r_bit w_bit top mono inside = record {
    sound = record {
      width = length-set e.cache fd c ∙ w.width;
      places = w.places;
      fits = w.fits;
      sets = sets_after w.sets fd mask x;
      here = refl;
      reads = λ i. rw (at_i i) (ground (arith, w.reads i, r_bit));
      writes = λ i. rw (at_i i) (ground (arith, w.writes i, w_bit));
      bound = λ i used. bound_at i (rw (at_i i) at used);
      inside = inside;
    };
    same_size = refl;
    done = ground (arith, lt);
    masks = λ i. rw (at_i i, same) (ground (arith, lt));
  }
    where
      at_i :
          (i : ℕ) → mask_at (set e.cache fd c) i ≡ (if fd == i then c.mask else mask_at e.cache i)
      at_i i = mask_at-set e.cache fd i c (omega (arith, w.width, lt))

      bound_at :
          (i : ℕ)
          → is_unused (if fd == i then c.mask else mask_at e.cache i) ≡ false
          → ltb_ℤ maxfd (pos i) ≡ false
      bound_at i used = elim (Bool-cases (fd == i)) [
        | inl here_ ↦ let eq : fd ≡ i = ground arith in rw (← eq) (top (rw here_ at used))
        | inr else_ ↦ mono i (w.bound i (rw else_ at used))
      ]

  -- Neither call changes anything for an empty mask.
  idle :
      {e : Ev Select P U} (w : IsWatching e) (f : Mask → Mask) (fd : ℕ)
      → ltb fd e.size ≡ true
      → ((m : Mask) → f m ≡ m)
      → Changed e f fd (true, e)
  idle {e} w f fd lt same = record {
    sound = w;
    same_size = refl;
    done = sym lt;
    masks = λ i. rw (lt, same) (ground arith);
  }

  module _ (memory : Bool) (fd : ℕ) (mask : Mask) (proc : P) (data_ : U) {e : Ev Select P U}
      (w : IsWatching e) where
    -- What `kvs_ev_add` does to the masks and the sets.
    pub ev_add-Changed :
        Returns (Changed e (λ m. join m mask) fd) (ev_add (select memory) e fd mask proc data_)
    unfolding ev_add
    ev_add-Changed = elim (Bool-cases (leb e.size fd)) [
      | inl out ↦ ((false, e), rw out, unchanged w (λ m. join m mask) fd (ground arith))
      | inr in_ ↦ rw in_ (elim (Bool-cases (is_unused mask)) [
        | inl nothing ↦ (
          (true, e),
          rw nothing,
          idle w (λ m. join m mask) fd (ground arith) (λ m. empty_join m mask nothing),
        )
        | inr used ↦
            let lt : fd < e.size = ground arith in
            let (c, run, at_c) = entry w fd lt mask in
            (
              (
                true,
                record e {
                  ev = some (sets_after w.sets fd mask true);
                  cache = set e.cache fd (registered (select memory) c mask proc data_);
                  maxfd = if ltb_ℤ e.maxfd (pos fd) then pos fd else e.maxfd;
                },
              ),
              rw (used, select_put-IsWatching w fd lt mask true, run),
              changed w (λ m. join m mask) fd lt mask true
                  (registered (select memory) c mask proc data_)
                  (if ltb_ℤ e.maxfd (pos fd) then pos fd else e.maxfd) (rw at_c refl)
                  (rw at_c (ground arith)) (rw at_c (ground arith)) (λ u. ground arith)
                  (λ i le. ground (arith, le)) (ground (arith, w.inside)),
            )
      ])
    ]

  module _ (memory : Bool) (fd : ℕ) (mask : Mask) {e : Ev Select P U} (w : IsWatching e) where
    -- What `kvs_ev_del` does to the masks and the sets.
    pub ev_del-Changed :
        Returns (Changed e (λ m. without m mask) fd) (ev_del (select memory) e fd mask)
    unfolding ev_del
    ev_del-Changed = elim (Bool-cases (leb e.size fd)) [
      | inl out ↦ ((false, e), rw out, unchanged w (λ m. without m mask) fd (ground arith))
      | inr in_ ↦ rw in_ (elim (Bool-cases (is_unused mask)) [
        | inl nothing ↦ (
          (true, e),
          rw nothing,
          idle w (λ m. without m mask) fd (ground arith) (λ m. empty_without m mask nothing),
        )
        | inr used ↦
            let lt : fd < e.size = ground arith in
            let (c, run, at_c) = entry w fd lt mask in
            (
              (
                true,
                record e {
                  ev = some (sets_after w.sets fd mask false);
                  cache = set e.cache fd (record c { mask = without c.mask mask });
                },
              ),
              rw (used, select_put-IsWatching w fd lt mask false, run, below lt),
              changed w (λ m. without m mask) fd lt mask false
                  (record c { mask = without c.mask mask }) e.maxfd (rw at_c refl)
                  (rw at_c (ground arith)) (rw at_c (ground arith))
                  (λ u. w.bound fd (without_used c.mask mask (mask_at e.cache fd) at_c u))
                  (λ i le. le) w.inside,
            )
      ])
    ]
      where
        below : fd < e.size → e.size == fd ≡ false
        below lt = ground arith
