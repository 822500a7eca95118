-- ===== src/LinkedList/Tests.antt =====
-- Runs of src/kvs_list.c, and the theorems on a list of two values.
use ckv.Run.{ok, fault, ◌>>=◌, Returns}
use ckv.LinkedList.{
  Memory, ListNode, KvsList, list_add, list_add_tail, list_del, list_init, list_new, for_each,
}
use ckv.LinkedList.Ring.{IsRing, count}
use ckv.LinkedList.Steps.{list_add-IsRing, list_add_tail-IsRing, list_del-IsRing}
use ckv.LinkedList.Visit.{for_each-IsRing}
use ckv.Base.{ℕ, [], ◌∷◌, some, none, true, ◌==◌, if◌then◌else◌, ◌≡◌, refl, arith}

-- The head of a list at 0, whose nodes with 7 and 8 are at 1 and 2.
abbrev two : Memory ℕ
two = record {
  top = 3;
  cell = λ p.
      if p == 0
      then some (record { prev = 2; next = 1; val = none })
      else if p == 1
      then some (record { prev = 0; next = 2; val = some 7 })
      else if p == 2
      then some (record { prev = 1; next = 0; val = some 8 })
      else none;
}

abbrev junk : ListNode ℕ
junk = record { prev = 9; next = 9; val = some 9 }

abbrev l : KvsList
l = record { head = 0; len = 0 }

two-IsRing : IsRing two 0 ((1, 7) ∷ (2, 8) ∷ [])
unfolding count
two-IsRing = record {
  last = 2;
  reach = (refl, refl, refl, (refl, refl, refl, refl));
  close_next = refl;
  close_prev = refl;
  once = λ x. ground arith;
  below = λ x h. ground (arith, h);
}

-- Two additions, a deletion and the loop over what is left.
run_of_two :
    (list_add true junk two l 5 >>= λ (_, mem).
    list_add_tail true junk mem l 6 >>= λ (_, mem). list_del mem l 1 >>= λ mem. for_each 9 mem l)
    ≡ ok (some 5 ∷ some 8 ∷ some 6 ∷ [])
unfolding list_add list_add_tail list_del for_each
run_of_two = refl

-- A head at an address without a node.
init_fault : list_init two 3 ≡ fault
unfolding list_init
init_fault = refl

-- `kvs_list_new` hands out no list.
new_null : (list_new true junk two >>= λ (p, _). ok p) ≡ ok 0
unfolding list_new
new_null = refl

list_add-IsRing_example :
    Returns
      (λ (done, mem). (done ≡ true) × IsRing mem 0 ((3, 5) ∷ (1, 7) ∷ (2, 8) ∷ []))
      (list_add true junk two l 5)
list_add-IsRing_example = list_add-IsRing true junk two l 5 ((1, 7) ∷ (2, 8) ∷ []) two-IsRing

list_add_tail-IsRing_example :
    Returns
      (λ (done, mem). (done ≡ true) × IsRing mem 0 ((1, 7) ∷ (2, 8) ∷ (3, 5) ∷ []))
      (list_add_tail true junk two l 5)
list_add_tail-IsRing_example =
    list_add_tail-IsRing true junk two l 5 ((1, 7) ∷ (2, 8) ∷ []) two-IsRing

list_del-IsRing_example : Returns (λ mem. IsRing mem 0 ((1, 7) ∷ [])) (list_del two l 2)
list_del-IsRing_example = list_del-IsRing two l ((1, 7) ∷ []) [] 2 8 two-IsRing

for_each-IsRing_example : for_each 3 two l ≡ ok (some 7 ∷ some 8 ∷ [])
for_each-IsRing_example = for_each-IsRing 3 two l ((1, 7) ∷ (2, 8) ∷ []) two-IsRing (omega arith)
