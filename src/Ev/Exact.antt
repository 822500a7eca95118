-- ===== src/Ev/Exact.antt =====
-- What a registration with `select`, or its removal, leaves of every field of the loop.
use ckv.Base.Int.{ℤ, pos, ltb_ℤ}
use ckv.Run.{Returns-both, Returns, ok, at, at-get_or}
use ckv.Ev.Select.{Select, select}
use ckv.Ev.Watch.{
  empty_without, select_put-IsWatching, IsWatching, Changed, ev_add-Changed, ev_del-Changed,
  at-mask_at, sets_after,
}
use ckv.Ev.{Ev, Cache, Mask, ev_add, ev_del, join, without, is_unused, registered}
use ckv.Base.{
  ℕ, ◌<◌, ◌≡◌, refl, ap, ◌∙◌, Bool, true, false, ltb, leb, ◌==◌, ◌&&◌, not, get_or, get_or-set, set,
  some, if◌then◌else◌, Bool-cases, inl, inr, arith,
}

-- The highest descriptor after a registration.
abbrev pub greater_fd : Mask → ℕ → ℤ → ℤ
greater_fd mask fd maxfd = if not (is_unused mask) && ltb_ℤ maxfd (pos fd) then pos fd else maxfd

module _ {P U : Type 0} where
  -- Only the registration of `fd` is different, by `g`, and `maxfd`; an error leaves the loop as it
  -- was.
  pub record OnlyAt (e : Ev Select P U) (fd : ℕ) (g : Cache P U → Cache P U) (top : ℤ)
      (r : Bool × Ev Select P U) : Type 0 where
    pub refused : ltb fd e.size ≡ false → r.1 ≡ e
    pub active : r.1.active ≡ e.active
    pub stop : r.1.stop ≡ e.stop
    pub maxfd : r.1.maxfd ≡ (if ltb fd e.size then top else e.maxfd)
    pub caches :
        (i : ℕ) (d : Cache P U)
        → get_or r.1.cache i d
          ≡ (if ltb fd e.size && (fd == i) then g (get_or e.cache i d) else get_or e.cache i d)

  -- A registration, by the bits of its mask.
  abbrev pub add_to : Mask → P → U → Cache P U → Cache P U
  add_to mask proc user_data c = if is_unused mask then c else record {
    mask = join c.mask mask;
    read_proc = if mask.read then proc else c.read_proc;
    write_proc = if mask.write then proc else c.write_proc;
    user_data = user_data;
  }

  abbrev pub take_from : Mask → Cache P U → Cache P U
  take_from mask c = record c { mask = without c.mask mask }

  OnlyAt-refused :
      (e : Ev Select P U) (fd : ℕ) (g : Cache P U → Cache P U) (top : ℤ)
      → ltb fd e.size ≡ false
      → OnlyAt e fd g top (false, e)
  OnlyAt-refused e fd g top out = record {
    refused = λ _. refl;
    active = refl;
    stop = refl;
    maxfd = rw out refl;
    caches = λ i d. rw out refl;
  }

  OnlyAt-idle :
      (e : Ev Select P U) (fd : ℕ) (g : Cache P U → Cache P U)
      → ((c : Cache P U) → g c ≡ c)
      → OnlyAt e fd g e.maxfd (true, e)
  OnlyAt-idle e fd g same = record {
    refused = λ _. refl;
    active = refl;
    stop = refl;
    maxfd = ground arith;
    caches = λ i d. rw (same (get_or e.cache i d)) (ground arith);
  }

  -- The entry of the descriptor is replaced.
  OnlyAt-set :
      (e : Ev Select P U) (fd : ℕ) (g : Cache P U → Cache P U) (top : ℤ) (s : Select)
      (c new : Cache P U)
      → IsWatching e
      → fd < e.size
      → at e.cache fd ≡ ok c
      → new ≡ g c
      → OnlyAt e fd g top (true, record e { ev = some s; cache = set e.cache fd new; maxfd = top })
  OnlyAt-set e fd g top s c new w lt run made =
      let inside : ltb fd e.size ≡ true = ground (arith, lt) in
      record {
        refused = λ out. absurd (ground (arith, lt, out));
        active = refl;
        stop = refl;
        maxfd = rw inside refl;
        caches = λ i d.
            get_or-set e.cache fd i new d (omega (arith, w.width, lt))
            ∙ (rw inside (elim (Bool-cases (fd == i)) [
              | inl here ↦
                  let same : fd ≡ i = ground (arith, here) in
                  let found : at e.cache fd ≡ ok (get_or e.cache fd d) =
                    at-get_or e.cache fd d (omega (arith, w.width, lt)) in
                  let held : c ≡ get_or e.cache fd d = cc in
                  rw here (made ∙ ap g (held ∙ ap (λ k. get_or e.cache k d) same))
              | inr other ↦ rw other refl
            ]));
      }

  module _ (memory : Bool) (fd : ℕ) (mask : Mask) (proc : P) (data_ : U) {e : Ev Select P U}
      (w : IsWatching e) where
    add_used :
        is_unused mask ≡ false
        → fd < e.size
        → Returns
            (OnlyAt e fd (add_to mask proc data_) (greater_fd mask fd e.maxfd))
            (ev_add (select memory) e fd mask proc data_)
    unfolding ev_add
    add_used used lt =
        let (c, run, at_c) = at-mask_at e.cache fd (omega (arith, w.width, lt)) in
        let out : leb e.size fd ≡ false = ground (arith, lt) in
        (
          (
            true,
            record e {
              ev = some (sets_after w.sets fd mask true);
              cache = set e.cache fd (registered (select memory) c mask proc data_);
              maxfd = greater_fd mask fd e.maxfd;
            },
          ),
          rw (out, used, select_put-IsWatching w fd lt mask true, run),
          OnlyAt-set e fd (add_to mask proc data_) (greater_fd mask fd e.maxfd)
              (sets_after w.sets fd mask true) c (registered (select memory) c mask proc data_) w lt
              run (rw used refl),
        )

    ev_add-OnlyAt :
        Returns
          (OnlyAt e fd (add_to mask proc data_) (greater_fd mask fd e.maxfd))
          (ev_add (select memory) e fd mask proc data_)
    unfolding ev_add
    ev_add-OnlyAt = elim (Bool-cases (leb e.size fd)) [
      | inl out ↦ (
        (false, e),
        rw out,
        OnlyAt-refused e fd (add_to mask proc data_) (greater_fd mask fd e.maxfd)
            (ground (arith, out)),
      )
      | inr in_ ↦ elim (Bool-cases (is_unused mask)) [
        | inl nothing ↦ (
          (true, e),
          rw (in_, nothing),
          rw nothing (OnlyAt-idle e fd (add_to mask proc data_) (λ c. rw nothing refl)),
        )
        | inr used ↦ add_used used (ground (arith, in_))
      ]
    ]

    -- While `select` watches what is registered, `kvs_ev_add` returns without a fault: with an
    -- error and the loop as it was for a descriptor that is not below the size. Otherwise it
    -- returns 0, `select` watches just what is registered, and only the registration of the
    -- descriptor is different, where the mask is not empty: the mask is added to what it is
    -- registered for, the handler is set for each of the two bits that the mask has, the data is
    -- set, and `maxfd` is at least the descriptor.
    pub ev_add-Registered :
        Returns
          (λ r.
            Changed e (λ m. join m mask) fd r
            × OnlyAt e fd (add_to mask proc data_) (greater_fd mask fd e.maxfd) r)
          (ev_add (select memory) e fd mask proc data_)
    ev_add-Registered =
        Returns-both (ev_add (select memory) e fd mask proc data_)
          (ev_add-Changed memory fd mask proc data_ w) ev_add-OnlyAt

  module _ (memory : Bool) (fd : ℕ) (mask : Mask) {e : Ev Select P U} (w : IsWatching e) where
    del_used :
        is_unused mask ≡ false
        → fd < e.size
        → Returns (OnlyAt e fd (take_from mask) e.maxfd) (ev_del (select memory) e fd mask)
    unfolding ev_del
    del_used used lt =
        let (c, run, at_c) = at-mask_at e.cache fd (omega (arith, w.width, lt)) in
        let out : leb e.size fd ≡ false = ground (arith, lt) in
        let below : e.size == fd ≡ false = ground (arith, lt) in
        (
          (
            true,
            record e {
              ev = some (sets_after w.sets fd mask false);
              cache = set e.cache fd (take_from mask c);
            },
          ),
          rw (out, used, select_put-IsWatching w fd lt mask false, run, below),
          OnlyAt-set e fd (take_from mask) e.maxfd (sets_after w.sets fd mask false) c
              (take_from mask c) w lt run refl,
        )

    ev_del-OnlyAt :
        Returns (OnlyAt e fd (take_from mask) e.maxfd) (ev_del (select memory) e fd mask)
    unfolding ev_del
    ev_del-OnlyAt = elim (Bool-cases (leb e.size fd)) [
      | inl out ↦
          ((false, e), rw out, OnlyAt-refused e fd (take_from mask) e.maxfd (ground (arith, out)))
      | inr in_ ↦ elim (Bool-cases (is_unused mask)) [
        | inl nothing ↦ (
          (true, e),
          rw (in_, nothing),
          OnlyAt-idle e fd (take_from mask)
              (λ c. ap (λ m. record c { mask = m }) (empty_without c.mask mask nothing)),
        )
        | inr used ↦ del_used used (ground (arith, in_))
      ]
    ]

    -- While `select` watches what is registered, `kvs_ev_del` returns without a fault: with an
    -- error and the loop as it was for a descriptor that is not below the size. Otherwise it
    -- returns 0, `select` watches just what is registered, and only the mask of the descriptor is
    -- different, by the bits taken away: handlers, data and `maxfd` stay.
    pub ev_del-Unregistered :
        Returns
          (λ r. Changed e (λ m. without m mask) fd r × OnlyAt e fd (take_from mask) e.maxfd r)
          (ev_del (select memory) e fd mask)
    ev_del-Unregistered =
        Returns-both (ev_del (select memory) e fd mask) (ev_del-Changed memory fd mask w)
          ev_del-OnlyAt
