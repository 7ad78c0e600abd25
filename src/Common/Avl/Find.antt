-- ===== src/Common/Avl/Find.antt =====
-- `avl_find` answers by the sorted list that the tree stands for.
use Prim.Native.Nat.{Ordering}
use Prim.Native.Nat.Ordering.{lt, eq, gt}
use olsrd.Base.{◌≡◌, refl, Option, none, some, List, [], ◌∷◌, arith}
use olsrd.Common.Avl.{AvlNode, Tree, leaf, node, Step, left_of, right_of}
use olsrd.Common.Avl.Inorder.{inorder}
use olsrd.Common.Avl.Sorted.{
  IsOrder, IsSorted, lookup, split, lookup_left, lookup_right, lookup_here,
}
use olsrd.Common.Avl.Ops.{AvlTree, Found, find_rec, avl_find}

module _ {ℓ} {K : Type ℓ} (comp : K → K → Ordering) where
  -- The node of a lookup, if its last comparison answered 0.
  answer : Option (Found K) → Option (AvlNode K)
  answer none = none
  answer (some found) = elim found.diff [ eq ↦ some found.here | lt ↦ none | gt ↦ none ]

  answer-find_rec :
      (order : IsOrder comp) (key : K) (t : Tree K) (path : List (Step K))
      → IsSorted comp (inorder t)
      → answer (find_rec comp key t path) ≡ lookup comp key (inorder t)
  unfolding find_rec answer inorder lookup
  answer-find_rec order key leaf path sorted = refl
  answer-find_rec order key (node l n b r) path sorted =
      let s = split comp (inorder l) n (inorder r) sorted in
      ground (
        arith,
        answer-find_rec order key l (left_of n b r ∷ path) s.xs_sorted,
        answer-find_rec order key r (right_of l n b ∷ path) s.ys_sorted,
        lookup_left comp order key (inorder l) n (inorder r) sorted,
        lookup_right comp order key (inorder l) n (inorder r) sorted,
        lookup_here comp order key (inorder l) n (inorder r) sorted,
      )

  -- In a tree whose elements are sorted by a comparator with the laws of an order, `avl_find` answers
  -- the element that a search through all elements finds for the key, and NULL where that finds none.
  pub avl_find-lookup :
      (order : IsOrder comp) (key : K) (tree : AvlTree K)
      → IsSorted comp (inorder tree.root)
      → avl_find comp key tree ≡ lookup comp key (inorder tree.root)
  unfolding avl_find answer
  avl_find-lookup order key tree sorted =
      ground (arith, answer-find_rec order key tree.root [] sorted)
