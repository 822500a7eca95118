-- ===== src/Server/Accept.antt =====
-- What `accept_fd` of src/kvs_server.c leaves, with `select`.
use mathlib.Core.Path.{subst}
use mathlib.Core.List.{append_assoc, append-nil}
use ckv.Ev.{Ev, Cache, Mask, ev_read, join}
use ckv.Ev.Exact.{OnlyAt, add_to, greater_fd}
use ckv.Ev.Select.{Select}
use ckv.Ev.Watch.{IsWatching, Changed, mask_at}
use ckv.Server.Answers.{
  connections, passes, all_pass, Stopped, among, new_client, made, address, flags_after,
  entry_after, top_after,
}
use ckv.Server.{Accepting, Arrival, Accepted, arrived, failed, Errno}
use ckv.Base.{
  drop, get_or, ℕ, suc, ◌<◌, ◌≡◌, refl, sym, ap, ◌∙◌, List, [], ◌∷◌, ◌++◌, take, Bool, true, false,
  ltb, ◌==◌, ◌&&◌, ◌||◌, bit_or, if◌then◌else◌, Bool-cases, inl, inr, arith,
}

join_either :
    (m m' : Mask) (b here same : Bool)
    → m' ≡ (if b && here then join m ev_read else m)
    → (if b && same then join m' ev_read else m')
      ≡ (if b && (here || same) then join m ev_read else m)
join_either m m' false here same e = e
join_either m m' true false same e = ground (arith, e)
join_either m m' true true true e = ground (arith, e)
join_either m m' true true false e = ground (arith, e)

join_twice :
    (m m' : Mask) (size fd i : ℕ) (same here : Bool)
    → (here ≡ true → fd ≡ i)
    → m' ≡ (if ltb fd size && here then join m ev_read else m)
    → (if ltb i size && same then join m' ev_read else m')
      ≡ (if ltb i size && (here || same) then join m ev_read else m)
join_twice m m' size fd i same true at e =
    join_either m m' (ltb i size) true same
      (subst (λ x. m' ≡ (if ltb x size && true then join m ev_read else m)) (at refl) e)
join_twice m m' size fd i same false at e =
    join_either m m' (ltb i size) false same (ground (arith, e))

flag_at :
    (flags : ℕ → ℕ) (fd i o : ℕ)
    → (if fd == i then bit_or (flags fd) o else flags i)
      ≡ (if fd == i then bit_or (flags i) o else flags i)
flag_at flags fd i o = elim (Bool-cases (fd == i)) [
  | inl here ↦
      let same : fd ≡ i = ground (arith, here) in rw here (ap (λ j. bit_or (flags j) o) same)
  | inr other ↦ rw other refl
]

module _ {P U : Type 0} (proc : P) (null : U) where
  -- Clients for the connections that came first, each registered for reading where the loop has room
  -- for its descriptor, and not blocking, with everything else as it was.
  pub record AcceptEffect (o_nonblock : ℕ) (errno_of : Errno) (ntry : ℕ)
      (answers : List (Accepted U)) (s : Accepting (Ev Select P U) U)
      (r : Bool × Accepting (Ev Select P U) U) : Type 0 where
    pub sound : IsWatching r.1.ev
    pub same_size : r.1.ev.size ≡ s.ev.size
    pub same_active : r.1.ev.active ≡ s.ev.active
    pub same_stop : r.1.ev.stop ≡ s.ev.stop
    pub seen : ℕ
    pub passed : all_pass errno_of (take seen answers) ≡ true
    pub all_seen : r.0 ≡ true → (seen ≡ ntry) × (r.1.closed ≡ s.closed)
    pub cut_off :
        r.0 ≡ false → (seen < ntry) × Stopped errno_of (drop seen answers) r.1.closed s.closed
    pub clients : r.1.clients ≡ s.clients ++ made (take seen answers)
    pub masks :
        (i : ℕ)
        → mask_at r.1.ev.cache i ≡ (
            if ltb i s.ev.size && among i (connections (take seen answers))
            then join (mask_at s.ev.cache i) ev_read
            else mask_at s.ev.cache i)
    pub caches :
        (i : ℕ) (d : Cache P U)
        → get_or r.1.ev.cache i d
          ≡ entry_after proc null s.ev.size (take seen answers) i (get_or s.ev.cache i d)
    pub top : r.1.ev.maxfd ≡ top_after proc null s.ev.size (take seen answers) s.ev.maxfd
    pub flags : (i : ℕ) → r.1.flags i ≡ flags_after o_nonblock (take seen answers) i (s.flags i)
    pub nonblocking :
        (i : ℕ)
        → among i (connections (take seen answers)) ≡ true
        → (x : ℕ) × (r.1.flags i ≡ bit_or x o_nonblock)
    pub others :
        (i : ℕ) → among i (connections (take seen answers)) ≡ false → r.1.flags i ≡ s.flags i

  -- No connection is taken.
  pub none_accepted :
      (o : ℕ) (errno_of : Errno) (n : ℕ) (answers : List (Accepted U))
      (s : Accepting (Ev Select P U) U) (done : Bool) (closed : List ℕ)
      → IsWatching s.ev
      → (done ≡ true → (0 ≡ n) × (closed ≡ s.closed))
      → (done ≡ false → (0 < n) × Stopped errno_of answers closed s.closed)
      → AcceptEffect o errno_of n answers s (done, record s { closed = closed })
  unfolding among connections all_pass made entry_after top_after flags_after
  none_accepted o errno_of n answers s done closed w all cut = record {
    sound = w;
    same_size = refl;
    same_active = refl;
    same_stop = refl;
    seen = 0;
    passed = refl;
    all_seen = all;
    cut_off = cut;
    clients = sym (append-nil s.clients);
    masks = λ i. ground arith;
    caches = λ i d. refl;
    top = refl;
    flags = λ i. refl;
    nonblocking = λ i h. absurd (ground (arith, h));
    others = λ i h. refl;
  }

  -- The state after one connection.
  abbrev pub joined :
      ℕ → Arrival U → Accepting (Ev Select P U) U → Ev Select P U → Accepting (Ev Select P U) U
  joined o a s e = record s {
    ev = e;
    flags = λ fd. if a.connfd == fd then bit_or (s.flags a.connfd) o else s.flags fd;
    clients = s.clients ++ (if a.memory then (a.user, a.connfd, new_client) ∷ [] else []);
  }

  pub then_accepted :
      (o : ℕ) (errno_of : Errno) (n : ℕ) (answers : List (Accepted U)) (a : Arrival U)
      (s : Accepting (Ev Select P U) U) (added : Bool) (e : Ev Select P U)
      (r : Bool × Accepting (Ev Select P U) U)
      → passes errno_of (arrived a) ≡ true
      → Changed s.ev (λ m. join m ev_read) a.connfd (added, e)
      → OnlyAt s.ev a.connfd
          (add_to ev_read proc (address null a))
          (greater_fd ev_read a.connfd s.ev.maxfd)
          (added, e)
      → AcceptEffect o errno_of n answers (joined o a s e) r
      → AcceptEffect o errno_of (suc n) (arrived a ∷ answers) s r
  unfolding among connections all_pass made entry_after top_after flags_after
  then_accepted o errno_of n answers a s added e r pass c only f =
      let later : List (Accepted U) = take f.seen answers in
      record {
        sound = f.sound;
        same_size = f.same_size ∙ c.same_size;
        same_active = f.same_active ∙ only.active;
        same_stop = f.same_stop ∙ only.stop;
        seen = suc f.seen;
        all_seen = λ d. (ap suc (f.all_seen d).0, (f.all_seen d).1);
        cut_off = λ d. (omega (arith, (f.cut_off d).0), (f.cut_off d).1);
        passed = rw pass f.passed;
        clients =
            f.clients
            ∙ append_assoc s.clients (if a.memory then (a.user, a.connfd, new_client) ∷ [] else [])
                (made later);
        masks = λ i.
            subst
              (λ n. mask_at r.1.ev.cache i ≡ (
                if ltb i n && among i (connections later)
                then join (mask_at e.cache i) ev_read
                else mask_at e.cache i))
              c.same_size (f.masks i)
            ∙ join_twice (mask_at s.ev.cache i) (mask_at e.cache i) s.ev.size a.connfd i
                (among i (connections later)) (a.connfd == i) (λ h. ground (arith, h)) (c.masks i);
        caches = λ i d.
            subst
              (λ n. get_or r.1.ev.cache i d ≡ entry_after proc null n later i (get_or e.cache i d))
              c.same_size (f.caches i d)
            ∙ ap (entry_after proc null s.ev.size later i) (only.caches i d);
        top =
            subst (λ n. r.1.ev.maxfd ≡ top_after proc null n later e.maxfd) c.same_size f.top
            ∙ ap (top_after proc null s.ev.size later) only.maxfd;
        flags = λ i. f.flags i ∙ ap (flags_after o later i) (flag_at s.flags a.connfd i o);
        nonblocking = λ i h. elim (Bool-cases (among i (connections later))) [
          | inl again ↦ f.nonblocking i again
          | inr now ↦ (s.flags a.connfd, f.others i now ∙ ground (arith, h, now))
        ];
        others = λ i h. f.others i (ground (arith, h)) ∙ ground (arith, h);
      }

  -- An error after which `accept` is called again.
  pub then_failed :
      (o : ℕ) (errno_of : Errno) (n : ℕ) (answers : List (Accepted U)) (errno : ℕ)
      (s : Accepting (Ev Select P U) U) (r : Bool × Accepting (Ev Select P U) U)
      → passes {U = U} errno_of (failed errno) ≡ true
      → AcceptEffect o errno_of n answers s r
      → AcceptEffect o errno_of (suc n) (failed errno ∷ answers) s r
  unfolding connections all_pass made entry_after top_after flags_after
  then_failed o errno_of n answers errno s r pass f = record {
    sound = f.sound;
    same_size = f.same_size;
    same_active = f.same_active;
    same_stop = f.same_stop;
    seen = suc f.seen;
    all_seen = λ d. (ap suc (f.all_seen d).0, (f.all_seen d).1);
    cut_off = λ d. (omega (arith, (f.cut_off d).0), (f.cut_off d).1);
    passed = rw pass f.passed;
    clients = f.clients;
    masks = f.masks;
    caches = f.caches;
    top = f.top;
    flags = f.flags;
    nonblocking = f.nonblocking;
    others = f.others;
  }
