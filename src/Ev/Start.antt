-- ===== src/Ev/Start.antt =====
-- `kvs_ev_api_new` with `select`, and the first registration.
use ckv.Base.Int.{pos, ltb_ℤ}
use ckv.Run.{Returns, ok, at, at-get_or}
use ckv.Ev.Watch.{at-mask_at, put_mask-lem}
use ckv.Ev.Exact.{add_to}
use ckv.Ev.Select.{select, select_new, select_put, fd_setsize, Select}
use ckv.Ev.{unmarked, Active, Cache, Ev, api_new, ev_add, ev_read}
use ckv.Base.{
  if◌then◌else◌, ℕ, suc, ◌<◌, ◌≤◌, ◌≡◌, refl, ap, ◌∙◌, List, [], ◌∷◌, length, length-set, map, set,
  get_or, get_or-set, get_or-set_self, some, false, true, ltb, leb, ◌==◌, arith,
}

length-unmarked : (xs : List Active) → length (map unmarked xs) ≡ length xs
length-unmarked [] = refl
length-unmarked (a ∷ xs) = ap suc (length-unmarked xs)

module _ {P U : Type 0} where
  -- A new loop of `size` descriptors, in which the system is asked about reading from `fd` only:
  -- the registration of `fd` has the handler and the data, and those of the others are what the
  -- memory held.
  pub record Listens (junk : Ev Select P U) (size fd : ℕ) (proc : P) (data_ : U) (e : Ev Select P U)
      : Type 0 where
    pub announced : e.size ≡ size
    pub width : length e.cache ≡ size
    pub places : length e.active ≡ size
    pub sets : Select
    pub here : e.ev ≡ some sets
    pub reads : (i : ℕ) → sets.r i ≡ (fd == i)
    pub writes : (i : ℕ) → sets.w i ≡ false
    pub entry :
        Returns
          (λ c. (c.mask.read ≡ true) × (c.read_proc ≡ proc) × (c.user_data ≡ data_))
          (at e.cache fd)
    pub others :
        (i : ℕ) (d : Cache P U) → fd == i ≡ false → get_or e.cache i d ≡ get_or junk.cache i d
    pub reached : ltb_ℤ e.maxfd (pos fd) ≡ false

  -- If there is memory, `kvs_ev_api_new` followed by a registration for reading.
  pub api_new-Listens :
      (junk : Ev Select P U) (size fd : ℕ) (proc : P) (data_ : U)
      → size ≤ fd_setsize
      → length junk.cache ≡ size
      → length junk.active ≡ size
      → fd < size
      → (e : Ev Select P U) × (api_new
            (select true)
            (record { structure = true; tables = true })
            junk
            size
          ≡ some e)
        × Returns
            (λ r. Listens junk size fd proc data_ r.1)
            (ev_add (select true) e fd ev_read proc data_)
  unfolding api_new select_new ev_add select_put
  api_new-Listens junk size fd proc data_ fits width places inside =
      let (c, run, at_c) = at-mask_at junk.cache fd (omega (arith, width, inside)) in
      let room : leb size fd ≡ false = ground (arith, inside) in
      let low : ltb fd fd_setsize ≡ true = ground (arith, inside, fits) in
      let new = add_to ev_read proc data_ c in
      let lt : fd < length junk.cache = omega (arith, width, inside) in
      (
        record junk {
          ev = some (record { r = λ i. false; w = λ i. false });
          size = size;
          active = map unmarked junk.active;
        },
        refl,
        (
          (
            true,
            record junk {
              ev = some (record { r = λ i. if fd == i then true else false; w = λ i. false });
              size = size;
              maxfd = if ltb_ℤ junk.maxfd (pos fd) then pos fd else junk.maxfd;
              cache = set junk.cache fd new;
              active = map unmarked junk.active;
            },
          ),
          rw (
            room,
            put_mask-lem (record { r = λ i. false; w = λ i. false }) fd ev_read true low,
            run,
          ),
          record {
            announced = refl;
            width = length-set junk.cache fd new ∙ width;
            places = length-unmarked junk.active ∙ places;
            sets = record { r = λ i. if fd == i then true else false; w = λ i. false };
            here = refl;
            reads = λ i. ground arith;
            writes = λ i. refl;
            entry = (
              new,
              at-get_or (set junk.cache fd new) fd new (rw (length-set junk.cache fd new) lt)
                  ∙ ap ok (get_or-set_self junk.cache fd new new lt),
              (ground arith, refl, refl),
            );
            others = λ i d other. get_or-set junk.cache fd i new d lt ∙ rw other refl;
            reached = ground arith;
          },
        ),
      )
