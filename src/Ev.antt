-- ===== src/Ev.antt =====
-- src/kvs_ev.c and src/kvs_ev.h: the event loop over one of several system interfaces.
--
-- A mask is an `int` of which only the bits KVS_EV_READ and KVS_EV_WRITE are used. Descriptors are
-- not negative. Memory that `malloc` and `realloc` do not write is an argument (`junk`). The state
-- of the system interface has the type `B`, handlers have the type `P` and their data `U`.
pub mod Select
pub mod Epoll
pub mod Kqueue
pub mod Watch
pub mod Exact
pub mod Reach
pub mod Scan
pub mod Start
pub mod Round
pub mod Handlers
pub mod Interest
pub mod Tests
use ckv.Base.{bytes_eq, length, replicate, [], ◌-◌, ◌++◌, ◌∷◌, ◌==◌, take, set, map, none, some}
use ckv.Run.{◌>>=◌, ok, fault, at, Run}
use ckv.Base.Int.{pos_part, ℤ, pos, negsuc, ltb_ℤ}
use ckv.Base.{zero, suc, leb, not, if◌then◌else◌, Option, List, ◌&&◌, ◌||◌, false, true, Bool, ℕ}

pub record Mask : Type 0 where
  pub read : Bool
  pub write : Bool

-- `KVS_EV_READ`, `KVS_EV_WRITE` and `KVS_EV_UNUSED`
abbrev pub ev_read : Mask
ev_read = record { read = true; write = false }

abbrev pub ev_write : Mask
ev_write = record { read = false; write = true }

abbrev pub ev_unused : Mask
ev_unused = record { read = false; write = false }

-- `a | b`, `a & b`, `a & (~b)` and `a == KVS_EV_UNUSED`
abbrev pub join : Mask → Mask → Mask
join a b = record { read = a.read || b.read; write = a.write || b.write }

abbrev pub meet : Mask → Mask → Mask
meet a b = record { read = a.read && b.read; write = a.write && b.write }

abbrev pub without : Mask → Mask → Mask
without a b = record { read = a.read && not b.read; write = a.write && not b.write }

abbrev pub is_unused : Mask → Bool
is_unused a = not a.read && not a.write

-- `kvs_ev_cache_t`
pub record Cache (P U : Type 0) : Type 0 where
  pub mask : Mask
  pub read_proc : P
  pub write_proc : P
  pub user_data : U

-- `kvs_ev_active_t`
pub record Active : Type 0 where
  pub fd : ℕ
  pub mask : Mask

-- `kvs_ev_t`; `ev` is `none` for a null pointer.
pub record Ev (B P U : Type 0) : Type 0 where
  pub ev : Option B
  pub size : ℕ
  pub maxfd : ℤ
  pub cache : List (Cache P U)
  pub active : List Active
  pub stop : Bool

-- `kvs_ev_vtable_t`: `none` is the result -1. What the system answers to a wait is of type `W`.
pub record Vtable (B W P U : Type 0) : Type 0 where
  pub ev_new : ℕ → Option B
  pub ev_add : Ev B P U → ℕ → Mask → Run (Option (Option B))
  pub ev_del : Ev B P U → ℕ → Mask → Run (Option (Option B))
  pub ev_resize : Ev B P U → ℕ → Run (Option (Option B))
  pub ev_cycle : Ev B P U → W → Run (ℤ × Ev B P U)

-- The allocations of `kvs_ev_api_new`: the structure, and the two tables.
pub record EvMalloc : Type 0 where
  pub structure : Bool
  pub tables : Bool

-- The interfaces that `kvs_ev_api_select` knows.
pub data Api : Type 0 where
  epoll_api select_api kqueue_api : Api

-- "epoll", "select" and "kqueue"
abbrev pub epoll_name : List ℕ
epoll_name = 101 ∷ 112 ∷ 111 ∷ 108 ∷ 108 ∷ []

abbrev pub select_name : List ℕ
select_name = 115 ∷ 101 ∷ 108 ∷ 101 ∷ 99 ∷ 116 ∷ []

abbrev pub kqueue_name : List ℕ
kqueue_name = 107 ∷ 113 ∷ 117 ∷ 101 ∷ 117 ∷ 101 ∷ []

-- The interface that `kvs_ev_api_select` takes for a name, on a system that has `epoll` and
-- `kqueue` or not.
unfoldable pub api_select : (has_epoll has_kqueue : Bool) → List ℕ → Option Api
api_select has_epoll has_kqueue api_name =
    if bytes_eq api_name epoll_name
    then (if has_epoll then some epoll_api else none)
    else if bytes_eq api_name select_name
    then some select_api
    else if bytes_eq api_name kqueue_name
    then (if has_kqueue then some kqueue_api else none)
    else none

-- `ev->active[i].mask = KVS_EV_UNUSED`
abbrev pub unmarked : Active → Active
unmarked a = record a { mask = ev_unused }

module _ {B W P U : Type 0} (vt : Vtable B W P U) where
  -- `kvs_ev_api_new` once the interface has been chosen. What `ev_new` returns is not tested. The
  -- structure's other fields, the cache and the descriptors of `active` hold what was there.
  pub api_new : EvMalloc → Ev B P U → ℕ → Option (Ev B P U)
  api_new memory junk size =
      if memory.structure && memory.tables
      then some
          (record junk { ev = vt.ev_new size; size = size; active = map unmarked junk.active })
      else none

  -- `e->cache[fd]` after a registration
  abbrev pub registered : Cache P U → Mask → P → U → Cache P U
  registered c mask proc user_data = record {
    mask = join c.mask mask;
    read_proc = if mask.read then proc else c.read_proc;
    write_proc = if mask.write then proc else c.write_proc;
    user_data = user_data;
  }

  -- `kvs_ev_add`; `false` is KVS_EV_ERR.
  unfoldable pub ev_add : Ev B P U → ℕ → Mask → P → U → Run (Bool × Ev B P U)
  ev_add e fd mask proc user_data =
      if leb e.size fd
      then ok (false, e)
      else if is_unused mask
      then ok (true, e)
      else (vt.ev_add e fd mask >>= λ added. elim added [
        | none ↦ ok (false, e)
        | some b ↦ at e.cache fd >>= λ c. ok (
          true,
          record e {
            ev = b;
            cache = set e.cache fd (registered c mask proc user_data);
            maxfd = if ltb_ℤ e.maxfd (pos fd) then pos fd else e.maxfd;
          },
        )
      ])

  -- The loop of `kvs_ev_del` that looks for the last descriptor in use, from `i` down.
  pub last_used : List (Cache P U) → ℕ → Run ℕ
  last_used cache zero = ok 0
  last_used cache (suc i) =
      let rest = last_used cache i in
      (at cache (suc i) >>= λ c. if is_unused c.mask then rest else ok (suc i))

  -- `kvs_ev_del`
  pub ev_del : Ev B P U → ℕ → Mask → Run (Bool × Ev B P U)
  unfolding last_used
  ev_del e fd mask =
      if leb e.size fd
      then ok (false, e)
      else if is_unused mask
      then ok (true, e)
      else (vt.ev_del e fd mask >>= λ removed. elim removed [
        | none ↦ ok (false, e)
        | some b ↦ at e.cache fd >>= λ c.
            (let cache = set e.cache fd (record c { mask = without c.mask mask }) in
              if e.size == fd
              then (last_used cache e.size >>= λ i.
                  ok (true, record e { ev = b; cache = cache; maxfd = pos i }))
              else ok (true, record e { ev = b; cache = cache }))
      ])

  -- The loop that marks the new entries of the cache, `n` of them from `i` on.
  pub mark_unused : ℕ → ℕ → List (Cache P U) → Run (List (Cache P U))
  mark_unused zero i cache = ok cache
  mark_unused (suc n) i cache =
      at cache i >>= λ c. mark_unused n (suc i) (set cache i (record c { mask = ev_unused }))

  -- `realloc` of a table to `n` entries
  abbrev pub fit {ℓ} : {A : Type ℓ} → ℕ → A → List A → List A
  fit n junk xs = take n xs ++ replicate (n - length xs) junk

  -- `kvs_ev_resize`: a failure of one of the two calls of `realloc` leaves what has been done.
  pub ev_resize : (first second : Bool) → Cache P U → Active → Ev B P U → ℕ → Run (Bool × Ev B P U)
  unfolding mark_unused
  ev_resize first second junk junk' e new_size =
      if e.size == new_size
      then ok (true, e)
      else if not (ltb_ℤ e.maxfd (pos new_size))
      then ok (false, e)
      else (vt.ev_resize e new_size >>= λ resized. elim resized [
        | none ↦ ok (false, e)
        | some b ↦
            if not first
            then ok (false, record e { ev = b })
            else (let cache = fit new_size junk e.cache in
                if not second
                then ok (false, record e { ev = b; cache = cache })
                else (mark_unused (new_size - e.size) e.size cache >>= λ cache. ok (
                  true,
                  record e {
                    ev = b;
                    size = new_size;
                    cache = cache;
                    active = fit new_size junk' e.active;
                  },
                )))
      ])

  -- A handler is called with the loop, the descriptor, the mask and its data, and may change the
  -- loop. `call` says what handlers do.
  module _ (call : P → Ev B P U → ℕ → Mask → U → Run (Ev B P U)) where
    -- One active entry. After the first handler its place in the cache is read again, by the
    -- pointer taken before: that of a table that is not there any more, if the handler has resized
    -- the loop.
    pub dispatch : Ev B P U → Active → Run (Ev B P U)
    dispatch e a = at e.cache a.fd >>= λ c.
        (if (meet c.mask a.mask).read then call c.read_proc e a.fd a.mask c.user_data else ok e)
        >>= λ e'. (if e'.size == e.size then at e'.cache a.fd else fault) >>= λ c.
            if (meet c.mask a.mask).write
            then call c.write_proc e' a.fd a.mask c.user_data
            else ok e'

    -- `for (i = 0; i < n; i++)`, with `n` rounds left
    pub dispatch_all : ℕ → ℕ → Ev B P U → Run (Ev B P U)
    unfolding dispatch
    dispatch_all zero i e = ok e
    dispatch_all (suc n) i e = at e.active i >>= λ a. dispatch e a >>= λ e. dispatch_all n (suc i) e

    -- One round of the endless loop of `kvs_ev_cycle`.
    pub cycle_once : Ev B P U → W → Run (Ev B P U)
    unfolding dispatch_all
    cycle_once e w = vt.ev_cycle e w >>= λ (n, e). dispatch_all (pos_part n) 0 e

    -- Its first rounds; `stop` is not looked at.
    pub cycle : List W → Ev B P U → Run (Ev B P U)
    unfolding cycle_once
    cycle [] e = ok e
    cycle (w ∷ ws) e = cycle_once e w >>= λ e. cycle ws e

  -- `kvs_ev_stop`
  pub ev_stop : Ev B P U → Ev B P U
  ev_stop e = record e { stop = true }
