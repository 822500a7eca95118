-- ===== src/Ev/Interest.antt =====
-- With `epoll`, the system watches what is registered.
use ckv.Base.Int.{pos, ltb_ℤ, ℤ}
use ckv.Ev.Watch.{at-mask_at, mask_at-set, mask_at}
use ckv.Ev.Epoll.{epoll, epoll_call, epoll_add, EpollMalloc, ctl_mod, ctl_add, CtlOp}
use ckv.Run.{◌>>=◌, at, Run, Returns}
use ckv.Ev.{ok, registered, is_unused, ev_add, Cache, Ev, Mask, join}
use ckv.Base.{
  inr, inl, leb, Bool-cases, refl, ◌∙◌, length-set, arith, set, true, ◌<◌, false, length, ◌==◌, ◌≡◌,
  if◌then◌else◌, Bool, Option, ℕ, none, some,
}

-- What the system watches of a descriptor, and what `epoll_ctl` does to it when it succeeds.
module _ {K P U : Type 0} (epoll_create : ℕ → Option K)
    (epoll_ctl : CtlOp → ℕ → Mask → K → Option K) (interest : K → ℕ → Mask)
    (registers : (fresh : Bool) (fd : ℕ) (mask : Mask) (k k' : K)
      → epoll_ctl (if fresh then ctl_add else ctl_mod) fd mask k ≡ some k'
      → (i : ℕ) → interest k' i ≡ (if fd == i then mask else interest k i)) where
  -- The system watches what is registered.
  pub record IsInterested (e : Ev K P U) : Type 0 where
    pub width : length e.cache ≡ e.size
    pub kernel : K
    pub here : e.ev ≡ some kernel
    pub watched : (fd : ℕ) → interest kernel fd ≡ mask_at e.cache fd

  -- A registration that succeeds, or an error that changes nothing.
  abbrev pub InterestEffect : Ev K P U → ℕ → Mask → Bool × Ev K P U → Type 0
  InterestEffect e fd mask (false, e') = e' ≡ e
  InterestEffect e fd mask (true, e') =
      IsInterested e'
      × ((i : ℕ)
          → mask_at e'.cache i
            ≡ (if fd == i then join (mask_at e.cache i) mask else mask_at e.cache i))

  module _ (memory : EpollMalloc) (again : Bool) (fd : ℕ) (mask : Mask) (proc : P) (data_ : U)
      {e : Ev K P U} (w : IsInterested e) where
    add_new :
        (c : Cache P U) (k : K) (maxfd : ℤ)
        → fd < e.size
        → c.mask ≡ mask_at e.cache fd
        → epoll_ctl (if is_unused c.mask then ctl_add else ctl_mod) fd (join mask c.mask) w.kernel
          ≡ some k
        → InterestEffect e fd mask (
          true,
          record e {
            ev = some k;
            cache =
                set e.cache fd
                  (registered (epoll epoll_create epoll_ctl memory again) c mask proc data_);
            maxfd = maxfd;
          },
        )
    add_new c k maxfd lt at_c run = (
      record {
        width = length-set e.cache fd _ ∙ w.width;
        kernel = k;
        here = refl;
        watched = λ i.
            rw (at_i i, registers (is_unused c.mask) fd (join mask c.mask) w.kernel k run i)
              (ground (arith, w.watched i));
      },
      λ i. rw (at_i i, at_c) (ground arith),
    )
      where
        at_i :
            (i : ℕ)
            → mask_at
                (set e.cache fd
                  (registered (epoll epoll_create epoll_ctl memory again) c mask proc data_))
                i
              ≡ (if fd == i then join c.mask mask else mask_at e.cache i)
        at_i i = mask_at-set e.cache fd i _ (omega (arith, w.width, lt))

    -- While the system watches what is registered, `kvs_ev_add` by `epoll` returns without a
    -- fault: with 0, the mask added to what the descriptor is registered for, and the system
    -- watching just what is registered then; or with an error, and nothing changed.
    pub ev_add-InterestEffect :
        Returns
          (InterestEffect e fd mask)
          (ev_add (epoll epoll_create epoll_ctl memory again) e fd mask proc data_)
    unfolding ev_add epoll_add epoll_call
    ev_add-InterestEffect = elim (Bool-cases (leb e.size fd)) [
      | inl out ↦ ((false, e), rw out, refl)
      | inr in_ ↦ rw in_ (elim (Bool-cases (is_unused mask)) [
        | inl nothing ↦ ((true, e), rw nothing, (w, λ i. ground (arith, nothing)))
        | inr used ↦ rw used (call (ground arith) (at-mask_at e.cache fd (ground (arith, w.width))))
      ])
    ]
      where
        rest : Option (Option K) → Run (Bool × Ev K P U)
        rest added = elim added [
          | none ↦ ok (false, e)
          | some b ↦ at e.cache fd >>= λ c. ok (
            true,
            record e {
              ev = b;
              cache =
                  set e.cache fd
                    (registered (epoll epoll_create epoll_ctl memory again) c mask proc data_);
              maxfd = if ltb_ℤ e.maxfd (pos fd) then pos fd else e.maxfd;
            },
          )
        ]

        call :
            fd < e.size
            → Returns (λ c. c.mask ≡ mask_at e.cache fd) (at e.cache fd)
            → Returns
                (InterestEffect e fd mask)
                (epoll_add epoll_create epoll_ctl e fd mask >>= rest)
        call lt (c, run, at_c) =
            go
              (epoll_ctl (if is_unused c.mask then ctl_add else ctl_mod) fd (join mask c.mask)
                w.kernel)
              refl
          where
            go :
                (o : Option K)
                → epoll_ctl
                    (if is_unused c.mask then ctl_add else ctl_mod)
                    fd
                    (join mask c.mask)
                    w.kernel
                  ≡ o
                → Returns
                    (InterestEffect e fd mask)
                    (epoll_add epoll_create epoll_ctl e fd mask >>= rest)
            go none e' = ((false, e), rw (run, w.here, epoll_call, e'), refl)
            go (some k) e' = (
              (
                true,
                record e {
                  ev = some k;
                  cache =
                      set e.cache fd
                        (registered (epoll epoll_create epoll_ctl memory again) c mask proc data_);
                  maxfd = if ltb_ℤ e.maxfd (pos fd) then pos fd else e.maxfd;
                },
              ),
              rw (run, w.here, epoll_call, e', run),
              add_new c k (if ltb_ℤ e.maxfd (pos fd) then pos fd else e.maxfd) lt at_c e',
            )
