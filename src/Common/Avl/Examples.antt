-- ===== src/Common/Avl/Examples.antt =====
-- A small AVL tree with numbers as keys, that the theorems about the tree apply to.
use Prim.Native.Nat.{compare, Ordering}
use olsrd.Base.{
  ℕ, ◌≡◌, refl, ◌^◌, ◌<◌, ◌≤◌, pos, true, false, not, ◌||◌, if◌then◌else◌, none, some, is_some,
  List, [], ◌∷◌, length, All, arith,
}
use olsrd.Common.Avl.{AvlNode, Tree, leaf, node, post_insert, rotate_left}
use olsrd.Common.Avl.Balance.{even, right_high, IsBalanced}
use olsrd.Common.Avl.Inorder.{inorder}
use olsrd.Common.Avl.Sorted.{IsOrder, IsSorted, lookup, over, insort}
use olsrd.Common.Avl.Refine.{avl_insert-insort, avl_find-avl_insert}
use olsrd.Common.Avl.Height.{avl_find_comparisons}
use olsrd.Common.Avl.Distinct.{IsAbsent, IsDistinct}
use olsrd.Common.Avl.Leaders.{members, leaders}
use olsrd.Common.Avl.Forget.{heir, succeed, avl_remove-succeed}
use olsrd.Common.Avl.Without.{unless, avl_find-avl_remove}
use olsrd.Common.Avl.Sound.{IsSound, avl_insert-IsSound, avl_remove-IsSound}
use olsrd.Common.Avl.Nearest.{
  IsOrdered, find_spot, go_left, go_right, floor, avl_find_lessequal, avl_find_lessequal-floor,
}
use olsrd.Common.Avl.Ceiling.{
  run_left, run_right, ceiling, avl_find_greaterequal, avl_find_greaterequal-ceiling,
}
use olsrd.Common.Avl.Ops.{
  AvlTree, find_rec, avl_find, avl_insert, avl_remove, is_follower, insert_below, next_element,
}

compare-IsOrder : IsOrder compare
compare-IsOrder = ground arith

abbrev two : AvlNode ℕ
two = record { name = 102; key = 2 }

abbrev five : AvlNode ℕ
five = record { name = 105; key = 5 }

abbrev five_again : AvlNode ℕ
five_again = record { name = 155; key = 5 }

abbrev seven : AvlNode ℕ
seven = record { name = 107; key = 7 }

abbrev nine : AvlNode ℕ
nine = record { name = 109; key = 9 }

abbrev eleven : AvlNode ℕ
eleven = record { name = 111; key = 11 }

abbrev grown : Tree ℕ
grown =
    node (node leaf two (pos 0) leaf) five (pos 1)
      (node leaf seven (pos 1) (node leaf nine (pos 0) leaf))

abbrev forest : AvlTree ℕ
forest = record {
  list_head =
      (two, false) ∷ (five, false) ∷ (five_again, true) ∷ (seven, false) ∷ (nine, false) ∷ [];
  root = grown;
  count = 5;
  allow_dups = true;
}

grown-IsBalanced : IsBalanced grown
grown-IsBalanced = (
  3,
  (
    1,
    2,
    (0, 0, refl, refl, even refl refl refl),
    (0, 1, refl, (0, 0, refl, refl, even refl refl refl), right_high refl refl refl),
    right_high refl refl refl,
  ),
)

grown-IsSorted : IsSorted compare (inorder grown)
unfolding inorder
grown-IsSorted = ground arith

grown-IsDistinct : IsDistinct (inorder grown)
unfolding inorder
grown-IsDistinct = ground arith

forest-IsSound : IsSound forest
unfolding inorder members leaders
forest-IsSound = record {
  balanced = grown-IsBalanced;
  linked = record { in_order = refl; different = ground arith };
}

eleven-IsAbsent : IsAbsent eleven.name (members forest.list_head)
unfolding members
eleven-IsAbsent = ground arith

-- The new element makes a rotation necessary.
insert_rotates :
    (avl_insert compare eleven forest).0.root
    ≡ node
        (node leaf two (pos 0) leaf)
        five
        (pos 1)
        (node (node leaf seven (pos 0) leaf) nine (pos 0) (node leaf eleven (pos 0) leaf))
unfolding avl_insert find_rec insert_below post_insert rotate_left
insert_rotates = refl

avl_insert-IsSound_example : IsSound (avl_insert compare eleven forest).0
avl_insert-IsSound_example = avl_insert-IsSound compare eleven forest forest-IsSound eleven-IsAbsent

avl_remove-IsSound_example : IsSound (avl_remove 105 forest)
avl_remove-IsSound_example = avl_remove-IsSound 105 forest forest-IsSound

avl_insert-insort_example :
    let present = is_some (lookup compare eleven.key (inorder forest.root)) in
    (inorder (avl_insert compare eleven forest).0.root
      ≡ (if present then inorder forest.root else insort compare eleven (inorder forest.root)))
    × ((avl_insert compare eleven forest).1 ≡ (not present || forest.allow_dups))
avl_insert-insort_example =
    avl_insert-insort compare compare-IsOrder eleven forest grown-IsBalanced grown-IsSorted

avl_find-avl_insert_example :
    IsSorted compare (inorder (avl_insert compare eleven forest).0.root)
    × (avl_find compare 7 (avl_insert compare eleven forest).0 ≡ (
        if is_some (avl_find compare 11 forest)
        then avl_find compare 7 forest
        else over (compare 7 11) eleven (avl_find compare 7 forest)))
avl_find-avl_insert_example =
    avl_find-avl_insert compare compare-IsOrder 7 eleven forest grown-IsBalanced grown-IsSorted

avl_remove-succeed_example : inorder (avl_remove 105 forest).root ≡ (
    if is_follower 105 forest.list_head
    then inorder forest.root
    else succeed 105 (heir 105 forest) (inorder forest.root))
avl_remove-succeed_example = avl_remove-succeed 105 forest grown-IsDistinct

leading : is_follower 107 forest.list_head ≡ false
unfolding is_follower
leading = refl

alone : heir 107 forest ≡ none
unfolding heir next_element
alone = refl

avl_find-avl_remove_example :
    IsSorted compare (inorder (avl_remove 107 forest).root)
    × (avl_find compare 7 (avl_remove 107 forest) ≡ unless 107 (avl_find compare 7 forest))
avl_find-avl_remove_example =
    avl_find-avl_remove compare compare-IsOrder 7 107 forest grown-IsSorted grown-IsDistinct leading
      alone

few : length (inorder grown) < 2 ^ 32
unfolding inorder
few = omega arith

avl_find_comparisons_example :
    (compared : List (AvlNode ℕ)) × (length compared ≤ 45)
    × ((other : ℕ → ℕ → Ordering)
        → All (λ (n : AvlNode ℕ). other 9 n.key ≡ compare 9 n.key) compared
        → avl_find other 9 forest ≡ lookup compare 9 (inorder grown))
avl_find_comparisons_example =
    avl_find_comparisons compare compare-IsOrder 9 forest grown-IsBalanced grown-IsSorted few

forest-IsOrdered : IsOrdered compare (members forest.list_head)
unfolding members
forest-IsOrdered = ground arith

-- The last of two elements with the key 5.
six_finds_five : avl_find_lessequal compare 6 forest ≡ some five_again
unfolding avl_find_lessequal find_rec find_spot go_left go_right members
six_finds_five = refl

avl_find_lessequal-floor_example :
    avl_find_lessequal compare 6 forest ≡ floor compare 6 (members forest.list_head)
avl_find_lessequal-floor_example =
    avl_find_lessequal-floor compare compare-IsOrder 6 forest forest-IsSound.linked forest-IsOrdered
      (λ empty. absurd (ground (arith, empty)))

-- The first of two elements with the key 5.
three_finds_five : avl_find_greaterequal compare 3 forest ≡ some five
unfolding avl_find_greaterequal find_rec find_spot run_left run_right members
three_finds_five = refl

avl_find_greaterequal-ceiling_example :
    avl_find_greaterequal compare 3 forest ≡ ceiling compare 3 (members forest.list_head)
avl_find_greaterequal-ceiling_example =
    avl_find_greaterequal-ceiling compare compare-IsOrder 3 forest forest-IsSound.linked
      forest-IsOrdered (λ empty. absurd (ground (arith, empty)))
