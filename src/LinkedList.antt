-- ===== src/LinkedList.antt =====
-- src/kvs_list.c and src/kvs_list.h: doubly linked lists that run in a ring through their head.
--
-- Nodes stand in a memory in which an address is never given out twice; an access through any other
-- pointer is a fault. Whether an allocation succeeds, and what its memory holds before it is
-- written, are arguments.
pub mod Store
pub mod Ring
pub mod Change
pub mod Relink
pub mod Steps
pub mod Visit
pub mod Tests
use ckv.Run.{Run, ok, fault, out_of_fuel, ◌>>=◌}
use ckv.Base.{
  ℕ, zero, suc, List, [], ◌∷◌, Option, some, none, Bool, true, false, ◌==◌, if◌then◌else◌,
}

abbrev pub NodePtr : Type 0
NodePtr = ℕ

-- `kvs_list_node_t`; the node in the head of a list has no value.
pub record ListNode (V : Type 0) : Type 0 where
  pub prev : NodePtr
  pub next : NodePtr
  pub val : Option V

pub record Memory (V : Type 0) : Type 0 where
  pub top : NodePtr
  pub cell : NodePtr → Option (ListNode V)

-- `kvs_list_t`; `head` is the address of its node.
pub record KvsList : Type 0 where
  pub head : NodePtr
  pub len : ℕ

module _ {V : Type 0} where
  abbrev pub cell_set :
      (NodePtr → Option (ListNode V)) → NodePtr → ListNode V → NodePtr → Option (ListNode V)
  cell_set cell p n q = if p == q then some n else cell q

  abbrev pub node_or_fault : Option (ListNode V) → Run (ListNode V)
  node_or_fault none = fault
  node_or_fault (some n) = ok n

  -- `*p`
  unfoldable pub load_node : Memory V → NodePtr → Run (ListNode V)
  load_node mem p = node_or_fault (mem.cell p)

  -- `p->next = q`
  unfoldable pub set_next : Memory V → NodePtr → NodePtr → Run (Memory V)
  unfolding load_node
  set_next mem p q = load_node mem p >>= λ n.
      ok (record mem { cell = cell_set mem.cell p (record n { next = q }) })

  -- `p->prev = q`
  unfoldable pub set_prev : Memory V → NodePtr → NodePtr → Run (Memory V)
  unfolding load_node
  set_prev mem p q = load_node mem p >>= λ n.
      ok (record mem { cell = cell_set mem.cell p (record n { prev = q }) })

  -- `kvs_list_head_init` and `kvs_list_init`
  unfoldable pub list_init : Memory V → NodePtr → Run (KvsList × Memory V)
  unfolding set_next set_prev
  list_init mem head = set_prev mem head head >>= λ mem.
      set_next mem head head >>= λ mem. ok (record { head = head; len = 0 }, mem)

  -- `kvs_list_new`: the result is a null pointer in any case.
  unfoldable pub list_new : Bool → ListNode V → Memory V → Run (NodePtr × Memory V)
  unfolding list_init
  list_new false junk mem = ok (0, mem)
  list_new true junk mem =
      list_init (record { top = suc mem.top; cell = cell_set mem.cell mem.top junk }) mem.top
      >>= λ (l, mem'). ok (0, mem')

  -- `kvs_list_add_core`
  unfoldable pub add_core : Memory V → (prev next newp : NodePtr) → Run (Memory V)
  unfolding set_next set_prev
  add_core mem prev next newp = set_next mem prev newp >>= λ mem.
      set_prev mem newp prev >>= λ mem. set_next mem newp next >>= λ mem. set_prev mem next newp

  -- `kvs_list_del_core`
  unfoldable pub del_core : Memory V → (prev next : NodePtr) → Run (Memory V)
  unfolding set_next set_prev
  del_core mem prev next = set_next mem prev next >>= λ mem. set_prev mem next prev

  -- `kvs_list_node_new`
  unfoldable pub node_new : Bool → ListNode V → V → Memory V → Option (NodePtr × Memory V)
  node_new false junk val mem = none
  node_new true junk val mem = some (
    mem.top,
    record { top = suc mem.top; cell = cell_set mem.cell mem.top (record junk { val = some val }) },
  )

  -- `kvs_list_add`; `false` is the result -1. The field `len` is not written.
  unfoldable pub list_add : Bool → ListNode V → Memory V → KvsList → V → Run (Bool × Memory V)
  unfolding node_new load_node add_core
  list_add memory junk mem l val = elim (node_new memory junk val mem) [
    | none ↦ ok (false, mem)
    | some x ↦ load_node x.1 l.head >>= λ head.
        add_core x.1 l.head head.next x.0 >>= λ mem'. ok (true, mem')
  ]

  -- `kvs_list_add_tail`
  unfoldable pub list_add_tail : Bool → ListNode V → Memory V → KvsList → V → Run (Bool × Memory V)
  unfolding node_new load_node add_core
  list_add_tail memory junk mem l val = elim (node_new memory junk val mem) [
    | none ↦ ok (false, mem)
    | some x ↦ load_node x.1 l.head >>= λ head.
        add_core x.1 head.prev l.head x.0 >>= λ mem'. ok (true, mem')
  ]

  -- `kvs_list_del`; the node is not freed.
  unfoldable pub list_del : Memory V → KvsList → NodePtr → Run (Memory V)
  unfolding load_node del_core
  list_del mem l n = load_node mem n >>= λ node. del_core mem node.prev node.next

  -- `kvs_list_free`
  abbrev pub list_free : Memory V → KvsList → Memory V
  list_free mem l = mem

  -- The loop of `kvs_list_for_each` from `node` on: the values of the nodes it visits.
  unfoldable pub for_each_from : ℕ → Memory V → NodePtr → NodePtr → Run (List (Option V))
  unfolding load_node
  for_each_from zero mem head node = out_of_fuel
  for_each_from (suc f) mem head node = elim (node == head) [
    | true ↦ ok []
    | false ↦
        load_node mem node >>= λ n. for_each_from f mem head n.next >>= λ vals. ok (n.val ∷ vals)
  ]

  -- `kvs_list_for_each`
  unfoldable pub for_each : ℕ → Memory V → KvsList → Run (List (Option V))
  unfolding load_node for_each_from
  for_each f mem l = load_node mem l.head >>= λ head. for_each_from f mem l.head head.next
