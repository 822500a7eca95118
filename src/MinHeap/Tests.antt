-- ===== src/MinHeap/Tests.antt =====
-- Runs of src/kvs_minheap4.c on numbers, and the theorems on a small heap.
use mathlib.Core.Option.{some-injective}
use mathlib.Core.Path.{subst}
use ckv.Run.{fault, Returns}
use ckv.Base.Int.{ℤ, pos, ◌-ℤ◌}
use ckv.MinHeap.{less, MinHeap, minheap_add, minheap_del}
use ckv.MinHeap.Written.{IsRoomy, IsWritten}
use ckv.MinHeap.Bounds.{minheap_add_full}
use ckv.MinHeap.Order.{IsComparison, IsOrdered}
use ckv.MinHeap.Insert.{IsHeap, Inserted, entries, minheap_add-Inserted}
use ckv.MinHeap.Take.{Removed, minheap_del-Removed}
use ckv.Base.{
  sym, ◌∙◌, ltb, get_or, ℕ, zero, suc, [], ◌∷◌, ◌≡◌, some, none, true, false, refl, arith,
}

abbrev cmp : ℕ → ℕ → ℤ
cmp a b = pos a -ℤ pos b

-- Two numbers, and room for six more.
abbrev two_of_eight : MinHeap ℕ
two_of_eight = record {
  t = some 3 ∷ some 5 ∷ none ∷ none ∷ none ∷ none ∷ none ∷ none ∷ [];
  count = 2;
  nalloc = 8;
  flag = false;
}

two_of_eight-IsRoomy : IsRoomy two_of_eight
two_of_eight-IsRoomy = record { room = refl; fits = omega arith; some_room = omega arith }

two_of_eight-IsWritten : IsWritten two_of_eight.t 2
unfolding get_or
two_of_eight-IsWritten zero lt = (3, refl)
two_of_eight-IsWritten (suc zero) lt = (5, refl)
two_of_eight-IsWritten (suc (suc i)) lt = absurd (omega arith)

abbrev full : MinHeap ℕ
full = record {
  t = some 1 ∷ some 2 ∷ some 3 ∷ some 4 ∷ some 5 ∷ some 6 ∷ some 7 ∷ some 8 ∷ [];
  count = 8;
  nalloc = 8;
  flag = false;
}

full-IsRoomy : IsRoomy full
full-IsRoomy = record { room = refl; fits = omega arith; some_room = omega arith }

minheap_add_full_example : minheap_add cmp true full 9 ≡ fault
minheap_add_full_example = minheap_add_full cmp 9 full-IsRoomy refl

cmp-less : (x y : ℕ) → less cmp x y ≡ ltb x y
unfolding less ◌-ℤ◌
cmp-less x y = ground arith

cmp-IsComparison : IsComparison cmp
cmp-IsComparison = record {
  asym = λ x y e. cmp-less y x ∙ ground (arith, sym (cmp-less x y) ∙ e);
  after =
      λ x y z e e'. cmp-less x z ∙ ground (arith, sym (cmp-less x y) ∙ e, sym (cmp-less y z) ∙ e');
}

in_order :
    (a b : ℕ) {x y : ℕ}
    → less cmp a b ≡ false
    → some a ≡ some x
    → some b ≡ some y
    → less cmp x y ≡ false
in_order a b {x} {y} e is_x is_y =
    subst (λ z. less cmp z y ≡ false) (some-injective a x is_x)
      (subst (λ z. less cmp a z ≡ false) (some-injective b y is_y) e)

two_of_eight-IsOrdered : IsOrdered cmp (entries two_of_eight.t) 2
unfolding less get_or ◌-ℤ◌
two_of_eight-IsOrdered zero lo lt x y is_x is_y = absurd (omega arith)
two_of_eight-IsOrdered (suc zero) lo lt x y is_x is_y = in_order 5 3 refl is_x is_y
two_of_eight-IsOrdered (suc (suc i)) lo lt x y is_x is_y = absurd (omega arith)

two_of_eight-IsHeap : IsHeap cmp two_of_eight
two_of_eight-IsHeap = record {
  roomy = two_of_eight-IsRoomy;
  written = two_of_eight-IsWritten;
  ordered = two_of_eight-IsOrdered;
}

minheap_add-Inserted_example :
    Returns (Inserted cmp two_of_eight 1) (minheap_add cmp true two_of_eight 1)
minheap_add-Inserted_example =
    minheap_add-Inserted cmp cmp-IsComparison true two_of_eight 1 two_of_eight-IsHeap (omega arith)

-- Four numbers, in memory for four.
abbrev four_of_four : MinHeap ℕ
four_of_four = record {
  t = some 1 ∷ some 4 ∷ some 2 ∷ some 3 ∷ [];
  count = 4;
  nalloc = 4;
  flag = false;
}

four_of_four-IsWritten : IsWritten four_of_four.t 4
unfolding get_or
four_of_four-IsWritten zero lt = (1, refl)
four_of_four-IsWritten (suc zero) lt = (4, refl)
four_of_four-IsWritten (suc (suc zero)) lt = (2, refl)
four_of_four-IsWritten (suc (suc (suc zero))) lt = (3, refl)
four_of_four-IsWritten (suc (suc (suc (suc i)))) lt = absurd (omega arith)

four_of_four-IsOrdered : IsOrdered cmp (entries four_of_four.t) 4
unfolding less get_or ◌-ℤ◌
four_of_four-IsOrdered zero lo lt x y is_x is_y = absurd (omega arith)
four_of_four-IsOrdered (suc zero) lo lt x y is_x is_y = in_order 4 1 refl is_x is_y
four_of_four-IsOrdered (suc (suc zero)) lo lt x y is_x is_y = in_order 2 1 refl is_x is_y
four_of_four-IsOrdered (suc (suc (suc zero))) lo lt x y is_x is_y = in_order 3 1 refl is_x is_y
four_of_four-IsOrdered (suc (suc (suc (suc i)))) lo lt x y is_x is_y = absurd (omega arith)

four_of_four-IsHeap : IsHeap cmp four_of_four
four_of_four-IsHeap = record {
  roomy = record { room = refl; fits = omega arith; some_room = omega arith };
  written = four_of_four-IsWritten;
  ordered = four_of_four-IsOrdered;
}

minheap_del-Removed_example : Returns (Removed cmp four_of_four) (minheap_del cmp true four_of_four)
minheap_del-Removed_example =
    minheap_del-Removed cmp cmp-IsComparison true four_of_four four_of_four-IsHeap (omega arith)
