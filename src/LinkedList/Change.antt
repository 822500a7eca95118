-- ===== src/LinkedList/Change.antt =====
-- Rings of src/kvs_list.c whose links change at one place: between two of their nodes.
use mathlib.Core.Path.{subst}
use ckv.LinkedList.{NodePtr, Memory}
use ckv.LinkedList.Store.{next_of, prev_of, val_of}
use ckv.LinkedList.Ring.{
  IsRing, Cells, Reach, count, tally, count-append, Reach-last, Reach-split, Reach-append,
  Reach-frame,
}
use ckv.Base.{◌≤◌, ◌<◌, ◌≡◌, ◌≢◌, refl, sym, ap, ◌∙◌, [], ◌∷◌, ◌++◌, some, arith}

module _ {V : Type 0} where
  -- The first address on the way from a node through `vs` back to the head.
  abbrev pub first : NodePtr → Cells V → NodePtr
  first head [] = head
  first head (d ∷ vs) = d.0

  -- From `c` the pointers lead through `vs` and back to the head.
  pub record Closes (mem : Memory V) (head c : NodePtr) (vs : Cells V) : Type 0 where
    pub last : NodePtr
    pub reach : Reach mem c vs last
    pub close_next : next_of mem last ≡ some head
    pub close_prev : prev_of mem head ≡ some last

  -- Only the node `n`, the `next` of `c` and the `prev` of `q` are different.
  pub record Elsewhere (mem mem' : Memory V) (n c q : NodePtr) : Type 0 where
    pub nexts : (x : NodePtr) → x ≢ n → x ≢ c → next_of mem' x ≡ next_of mem x
    pub prevs : (x : NodePtr) → x ≢ n → x ≢ q → prev_of mem' x ≡ prev_of mem x
    pub vals : (x : NodePtr) → x ≢ n → val_of mem' x ≡ val_of mem x

  -- The two parts of a ring.
  pub Closes-of-IsRing :
      (mem : Memory V) (head : NodePtr) (us vs : Cells V)
      → IsRing mem head (us ++ vs)
      → (c : NodePtr) × Reach mem head us c × Closes mem head c vs
  Closes-of-IsRing mem head us vs r =
      let (c, s, t) = Reach-split mem head us vs r.last r.reach in
      (
        c,
        s,
        record { last = r.last; reach = t; close_next = r.close_next; close_prev = r.close_prev },
      )

  pub Closes-next :
      (mem : Memory V) (head c : NodePtr) (vs : Cells V)
      → Closes mem head c vs
      → (next_of mem c ≡ some (first head vs)) × (prev_of mem (first head vs) ≡ some c)
  Closes-next mem head c [] r =
      (ap (next_of mem) r.reach ∙ r.close_next, r.close_prev ∙ ap some (sym r.reach))
  Closes-next mem head c (d ∷ vs) r = (r.reach.0, r.reach.1)

  pub not_here :
      (x y : NodePtr) (xs : Cells V) (a : NodePtr) → tally a y xs ≡ 0 → 0 < tally a x xs → x ≢ y
  not_here x y xs a e h same = ground (arith, e, subst (λ z. 0 < tally a z xs) same h)

  pub first-tally : (head : NodePtr) (vs : Cells V) → 0 < tally head (first head vs) vs
  unfolding count
  first-tally head [] = ground arith
  first-tally head (d ∷ vs) = ground arith

  -- The part before the change.
  pub Reach-change :
      (mem mem' : Memory V) (n c head : NodePtr) (us vs : Cells V)
      → Elsewhere mem mem' n c (first head vs)
      → ((x : NodePtr) → tally head x (us ++ vs) ≤ 1)
      → tally head n (us ++ vs) ≡ 0
      → Reach mem head us c
      → Reach mem' head us c
  Reach-change mem mem' n c head us vs same once out r =
      Reach-frame mem mem' head us c r (λ x. omega (arith, once x, count-append x us vs))
        (λ x h. (
          same.prevs x (off x (omega (arith, h))) (off_first x h),
          same.vals x (off x (omega (arith, h))),
        ))
        (λ x h e. same.nexts x (off x h) e)
    where
      off : (x : NodePtr) → 0 < tally head x us → x ≢ n
      off x h = not_here x n us head (omega (arith, out, count-append n us vs)) h

      off_first : (x : NodePtr) → 0 < count x us → x ≢ first head vs
      off_first x h e = absurd (
          omega (
            arith,
            subst (λ z. 0 < count z us) e h,
            once (first head vs),
            count-append (first head vs) us vs,
            first-tally head vs,
          ))

  -- The part behind the change, with another node before it.
  pub Closes-change :
      (mem mem' : Memory V) (n c head : NodePtr) (us vs : Cells V) (e d : NodePtr)
      → Elsewhere mem mem' n c (first head vs)
      → ((x : NodePtr) → tally head x (us ++ vs) ≤ 1)
      → tally head n (us ++ vs) ≡ 0
      → 0 < tally head c us
      → next_of mem' d ≡ some (first head vs)
      → prev_of mem' (first head vs) ≡ some d
      → Closes mem head e vs
      → Closes mem' head d vs
  unfolding count
  Closes-change mem mem' n c head us [] e d same once out before to back r = record {
    last = d;
    reach = refl;
    close_next = to;
    close_prev = back;
  }
  Closes-change mem mem' n c head us (v ∷ vs) e d same once out before to back r = record {
    last = r.last;
    reach = (
      to,
      back,
      same.vals v.0 (off v.0 (ground arith)) ∙ r.reach.2,
      Reach-frame mem mem' v.0 vs r.last r.reach.3
          (λ x. omega (arith, once x, count-append x us (v ∷ vs)))
          (λ x h. (
            same.prevs x (off x (omega (arith, h)))
                (λ e. absurd (ground (arith, e, h, once x, count-append x us (v ∷ vs)))),
            same.vals x (off x (omega (arith, h))),
          ))
          (λ x h _. same.nexts x (off x (omega (arith, h))) (not_c x h)),
    );
    close_next =
        same.nexts r.last (off r.last (omega (arith, Reach-last mem v.0 vs r.last r.reach.3)))
          (not_c r.last (Reach-last mem v.0 vs r.last r.reach.3))
        ∙ r.close_next;
    close_prev = same.prevs head (off head (ground arith)) not_first ∙ r.close_prev;
  }
    where
      off : (x : NodePtr) → 0 < tally head x (v ∷ vs) → x ≢ n
      off x h = not_here x n (v ∷ vs) head (omega (arith, out, count-append n us (v ∷ vs))) h

      not_c : (x : NodePtr) → 0 < tally v.0 x vs → x ≢ c
      not_c x h e = absurd (
          omega (
            arith,
            subst (λ z. 0 < tally v.0 z vs) e h,
            before,
            once c,
            count-append c us (v ∷ vs),
          ))

      not_first : head ≢ v.0
      not_first e = absurd (ground (arith, e, once head, count-append head us (v ∷ vs)))

  -- The two parts make a ring.
  pub IsRing-of-Closes :
      (mem : Memory V) (head : NodePtr) (us vs : Cells V) (c : NodePtr)
      → Reach mem head us c
      → Closes mem head c vs
      → ((x : NodePtr) → tally head x (us ++ vs) ≤ 1)
      → ((x : NodePtr) → 0 < tally head x (us ++ vs) → x < mem.top)
      → IsRing mem head (us ++ vs)
  IsRing-of-Closes mem head us vs c r s once below = record {
    last = s.last;
    reach = Reach-append mem head us vs c s.last r s.reach;
    close_next = s.close_next;
    close_prev = s.close_prev;
    once = once;
    below = below;
  }
