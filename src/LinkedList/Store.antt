-- ===== src/LinkedList/Store.antt =====
-- What the writes of src/kvs_list.c do to the links and values of all nodes.
use ckv.Run.{Run, ◌>>=◌, Returns}
use ckv.LinkedList.{
  cell_set, NodePtr, ListNode, Memory, load_node, set_next, set_prev, add_core, del_core,
}
use ckv.Base.{◌∙◌, Bool-cases, inl, inr, ◌≡◌, Option, some, none, ◌==◌, if◌then◌else◌, refl, arith}

abbrev pub linked_to : (NodePtr → Option NodePtr) → NodePtr → NodePtr → NodePtr → Option NodePtr
linked_to f p q x = if p == x then some q else f x

module _ {V : Type 0} where
  abbrev pub next_in : Option (ListNode V) → Option NodePtr
  next_in none = none
  next_in (some n) = some n.next

  abbrev pub prev_in : Option (ListNode V) → Option NodePtr
  prev_in none = none
  prev_in (some n) = some n.prev

  abbrev pub val_in : Option (ListNode V) → Option V
  val_in none = none
  val_in (some n) = n.val

  abbrev pub next_of : Memory V → NodePtr → Option NodePtr
  next_of mem p = next_in (mem.cell p)

  abbrev pub prev_of : Memory V → NodePtr → Option NodePtr
  prev_of mem p = prev_in (mem.cell p)

  abbrev pub val_of : Memory V → NodePtr → Option V
  val_of mem p = val_in (mem.cell p)

  abbrev pub IsLive : Memory V → NodePtr → Type 0
  IsLive mem p = (n : ListNode V) × (mem.cell p ≡ some n)

  -- The links of `mem'`, by those of `mem`; the values are the same.
  pub record Relinked (mem : Memory V) (next prev : NodePtr → Option NodePtr) (mem' : Memory V)
      : Type 0 where
    pub nexts : (x : NodePtr) → next_of mem' x ≡ next x
    pub prevs : (x : NodePtr) → prev_of mem' x ≡ prev x
    pub vals : (x : NodePtr) → val_of mem' x ≡ val_of mem x
    pub live : (x : NodePtr) → IsLive mem x → IsLive mem' x
    pub top : mem'.top ≡ mem.top

  IsLive-update :
      (mem : Memory V) (p x : NodePtr) (n : ListNode V)
      → IsLive mem x
      → IsLive (record mem { cell = cell_set mem.cell p n }) x
  IsLive-update mem p x n (m, e) = elim (Bool-cases (p == x)) [
    | inl same ↦ (n, rw same)
    | inr differ ↦ (m, rw differ e)
  ]

  set_next-Relinked :
      (mem : Memory V) (p q : NodePtr)
      → IsLive mem p
      → Returns (Relinked mem (linked_to (next_of mem) p q) (prev_of mem)) (set_next mem p q)
  unfolding set_next
  set_next-Relinked mem p q (n, e) = (
    record mem { cell = cell_set mem.cell p (record n { next = q }) },
    rw (load_node, e),
    record {
      nexts = λ x. ground arith;
      prevs = λ x. ground (arith, e);
      vals = λ x. ground (arith, e);
      live = λ x l. IsLive-update mem p x (record n { next = q }) l;
      top = refl;
    },
  )

  set_prev-Relinked :
      (mem : Memory V) (p q : NodePtr)
      → IsLive mem p
      → Returns (Relinked mem (next_of mem) (linked_to (prev_of mem) p q)) (set_prev mem p q)
  unfolding set_prev
  set_prev-Relinked mem p q (n, e) = (
    record mem { cell = cell_set mem.cell p (record n { prev = q }) },
    rw (load_node, e),
    record {
      nexts = λ x. ground (arith, e);
      prevs = λ x. ground arith;
      vals = λ x. ground (arith, e);
      live = λ x l. IsLive-update mem p x (record n { prev = q }) l;
      top = refl;
    },
  )

  -- One more write.
  Relinks :
      Memory V → (NodePtr → Option NodePtr) → (NodePtr → Option NodePtr) → Run (Memory V) → Type 0
  Relinks mem next prev r = Returns (Relinked mem next prev) r

  then_next :
      {mem : Memory V} {f g : NodePtr → Option NodePtr} (p q : NodePtr) {mem' : Memory V}
      → IsLive mem p
      → Relinked mem f g mem'
      → Relinks mem (linked_to f p q) g (set_next mem' p q)
  unfolding Relinks
  then_next p q {mem'} l r =
      let (mem'', run, s) = set_next-Relinked mem' p q (r.live p l) in
      (
        mem'',
        run,
        record {
          nexts = λ x. s.nexts x ∙ ground (arith, r.nexts x);
          prevs = λ x. s.prevs x ∙ r.prevs x;
          vals = λ x. s.vals x ∙ r.vals x;
          live = λ x i. s.live x (r.live x i);
          top = s.top ∙ r.top;
        },
      )

  then_prev :
      {mem : Memory V} {f g : NodePtr → Option NodePtr} (p q : NodePtr) {mem' : Memory V}
      → IsLive mem p
      → Relinked mem f g mem'
      → Relinks mem f (linked_to g p q) (set_prev mem' p q)
  unfolding Relinks
  then_prev p q {mem'} l r =
      let (mem'', run, s) = set_prev-Relinked mem' p q (r.live p l) in
      (
        mem'',
        run,
        record {
          nexts = λ x. s.nexts x ∙ r.nexts x;
          prevs = λ x. s.prevs x ∙ ground (arith, r.prevs x);
          vals = λ x. s.vals x ∙ r.vals x;
          live = λ x i. s.live x (r.live x i);
          top = s.top ∙ r.top;
        },
      )

  Relinks-bind :
      {mem : Memory V} {f g : NodePtr → Option NodePtr} (f' g' : NodePtr → Option NodePtr)
      (r : Run (Memory V)) (k : Memory V → Run (Memory V))
      → Relinks mem f g r
      → ((mem' : Memory V) → Relinked mem f g mem' → Relinks mem f' g' (k mem'))
      → Relinks mem f' g' (r >>= k)
  unfolding Relinks
  Relinks-bind f' g' r k (mem', run, s) rest =
      let (mem'', run', s') = rest mem' s in (mem'', rw run run', s')

  pub add_core-Relinked :
      (mem : Memory V) (prev next newp : NodePtr)
      → IsLive mem prev
      → IsLive mem next
      → IsLive mem newp
      → Returns
          (Relinked mem
            (linked_to (linked_to (next_of mem) prev newp) newp next)
            (linked_to (linked_to (prev_of mem) newp prev) next newp))
          (add_core mem prev next newp)
  unfolding add_core Relinks
  add_core-Relinked mem prev next newp at_prev at_next at_new =
      Relinks-bind _ _ (set_next mem prev newp) _ (set_next-Relinked mem prev newp at_prev)
        (λ m₁ r₁.
          Relinks-bind _ _ (set_prev m₁ newp prev) _ (then_prev newp prev at_new r₁) (λ m₂ r₂.
            Relinks-bind _ _ (set_next m₂ newp next) _ (then_next newp next at_new r₂)
              (λ m₃ r₃. then_prev next newp at_next r₃)))

  pub del_core-Relinked :
      (mem : Memory V) (prev next : NodePtr)
      → IsLive mem prev
      → IsLive mem next
      → Returns
          (Relinked mem (linked_to (next_of mem) prev next) (linked_to (prev_of mem) next prev))
          (del_core mem prev next)
  unfolding del_core Relinks
  del_core-Relinked mem prev next at_prev at_next =
      Relinks-bind _ _ (set_next mem prev next) _ (set_next-Relinked mem prev next at_prev)
        (λ m₁ r₁. then_prev next prev at_next r₁)

  pub head_init-Relinked :
      (mem : Memory V) (head : NodePtr)
      → IsLive mem head
      → Returns
          (Relinked mem (linked_to (next_of mem) head head) (linked_to (prev_of mem) head head))
          (set_prev mem head head >>= λ mem'. set_next mem' head head)
  unfolding Relinks
  head_init-Relinked mem head at_head =
      Relinks-bind (linked_to (next_of mem) head head) (linked_to (prev_of mem) head head)
        (set_prev mem head head) (λ mem'. set_next mem' head head)
        (set_prev-Relinked mem head head at_head) (λ m₁ r₁. then_next head head at_head r₁)
