-- ===== src/Common/Avl/Refine.antt =====
-- `avl_insert` is the insertion into the sorted list that the tree stands for.
use Prim.Native.Nat.{Ordering}
use Prim.Native.Nat.Ordering.{eq}
use olsrd.Base.{
  ℕ, ◌≡◌, ◌≢◌, ◌∙◌, sym, ap, refl, subst, pos, negsuc, true, ◌||◌, not, if◌then◌else◌, is_some,
  List, [], ◌∷◌, ◌++◌, arith,
}
use olsrd.Common.Avl.{AvlNode, Tree, leaf, node}
use olsrd.Common.Avl.Cases.{is_none, is_some_of, option_of, is_true, is_false, bool_of}
use olsrd.Common.Avl.Balance.{Tilt, left_high, even, right_high, IsAvl, IsBalanced}
use olsrd.Common.Avl.Place.{unzip, IsEnd, IsWay, find_rec-IsWay}
use olsrd.Common.Avl.Inorder.{inorder, before, behind, around, inorder-zip, inorder-post_insert}
use olsrd.Common.Avl.Sorted.{IsOrder, IsSorted, lookup, over, insort, split}
use olsrd.Common.Avl.Insort.{
  insort_right, IsSorted-front, insort-around, insort-IsSorted, lookup-insort,
}
use olsrd.Common.Avl.Find.{avl_find-lookup}
use olsrd.Common.Avl.Insert.{
  Side, to_left, to_right, Side-of, null_height, nowhere, at_key, beside, looked,
}
use olsrd.Common.Avl.Ops.{AvlTree, Found, is_null, single, insert_below, avl_find, avl_insert}

module _ {ℓ} {K : Type ℓ} (comp : K → K → Ordering) where
  pub null_inorder : (t : Tree K) → is_null t ≡ true → inorder t ≡ []
  unfolding inorder
  null_inorder leaf null = refl
  null_inorder (node l n b r) null = absurd (ground arith)

  -- The elements at a place when a new one has come beside it.
  abbrev pub placed : (found : Found K) → AvlNode K → Side comp found → List (AvlNode K)
  placed found new (to_left side) = new ∷ found.here ∷ inorder found.right
  placed found new (to_right side) = inorder found.left ++ found.here ∷ new ∷ []

  pub insert_below-placed :
      (found : Found K) (new : AvlNode K) (t : Tree K) (hl hr k : ℕ)
      → IsEnd comp new.key t found
      → (side : Side comp found) → IsAvl found.left hl
      → IsAvl found.right hr
      → Tilt found.tilt hl hr k
      → inorder (insert_below found new)
        ≡ before found.path ++ placed found new side ++ behind found.path
  unfolding insert_below inorder
  insert_below-placed found new t hl hr k end (to_left side) left right (left_high at_b in_ top) =
      absurd (omega (arith, null_height comp found.left hl (end.left_end side) left))
  insert_below-placed found new t hl hr k end (to_left side) left right (even at_b in_ top) =
      rw (at_b, side, insert_below)
        (inorder-post_insert found.path (node (single new) found.here (negsuc 0) found.right))
  insert_below-placed found new t hl hr k end (to_left side) left right (right_high at_b in_ top) =
      rw (at_b, insert_below)
        (inorder-zip found.path (node (single new) found.here (pos 0) found.right))
  insert_below-placed found new t hl hr k end (to_right side) left right (left_high at_b in_ top) =
      rw (at_b, insert_below)
        (inorder-zip found.path (node found.left found.here (pos 0) (single new)))
  insert_below-placed found new t hl hr k end (to_right side) left right (even at_b in_ top) =
      rw (at_b, side, insert_below)
        (inorder-post_insert found.path (node found.left found.here (pos 1) (single new)))
  insert_below-placed found new t hl hr k end (to_right side) left right (right_high at_b in_ top) =
      absurd (omega (arith, null_height comp found.right hr (end.right_end side) right))

  -- The insertion into the elements below a place.
  insort-placed :
      (order : IsOrder comp) (found : Found K) (new : AvlNode K) (t : Tree K)
      → IsEnd comp new.key t found
      → (side : Side comp found)
      → IsSorted comp (inorder found.left ++ found.here ∷ inorder found.right)
      → insort comp new (inorder found.left ++ found.here ∷ inorder found.right)
        ≡ placed found new side
  unfolding insort
  insort-placed order found new t end (to_left side) sorted =
      rw (null_inorder found.left (end.left_end side), sym end.compared ∙ side, insort) refl
  insort-placed order found new t end (to_right side) sorted =
      let s = split comp (inorder found.left) found.here (inorder found.right) sorted in
      insort_right comp order new (inorder found.left) found.here (inorder found.right)
        (sym end.compared ∙ side) s.xs_below
      ∙ rw (null_inorder found.right (end.right_end side), insort) refl

  insert_below-insort :
      (order : IsOrder comp) (found : Found K) (new : AvlNode K) (t : Tree K)
      → IsEnd comp new.key t found
      → IsWay comp new.key found.path
      → found.diff ≢ eq
      → IsBalanced t
      → IsSorted comp (inorder t)
      → inorder (insert_below found new) ≡ insort comp new (inorder t)
  unfolding inorder
  insert_below-insort order found new t end way other (h, valid) sorted =
      let here = node found.left found.here found.tilt found.right in
      let (k, (hl, hr, left, right, tilt), near) =
        unzip found.path here h (subst (λ x. IsAvl x h) (sym end.in_whole) valid) in
      let side = Side-of comp found other in
      let same : inorder t ≡ around found.path here =
        ap inorder (sym end.in_whole) ∙ inorder-zip found.path here in
      let mine = subst (IsSorted comp) same sorted in
      let part =
        (IsSorted-front comp (before found.path) (inorder here)
          (IsSorted-front comp (before found.path ++ inorder here) (behind found.path) mine).0).1 in
      insert_below-placed found new t hl hr k end side left right tilt
      ∙ ap (λ x. before found.path ++ x ++ behind found.path)
          (sym (insort-placed order found new t end side part))
      ∙ sym (insort-around comp order new found.path (inorder here) way mine)
      ∙ ap (insort comp new) (sym same)

  -- `avl_insert` into a balanced and sorted tree. A new key is inserted at its place in the order, with
  -- the answer 0. A key that is present leaves the elements of the tree as they are, and the answer is
  -- 0 if duplicates are allowed and -1 otherwise.
  pub avl_insert-insort :
      (order : IsOrder comp) (new : AvlNode K) (tree : AvlTree K)
      → IsBalanced tree.root
      → IsSorted comp (inorder tree.root)
      → let present = is_some (lookup comp new.key (inorder tree.root)) in
        (inorder (avl_insert comp new tree).0.root
          ≡ (if present then inorder tree.root else insort comp new (inorder tree.root)))
        × ((avl_insert comp new tree).1 ≡ (not present || tree.allow_dups))
  unfolding avl_insert avl_find inorder insort
  avl_insert-insort order new tree valid sorted =
      let known = sym (avl_find-lookup comp order new.key tree sorted) in
      elim (looked comp new.key tree.root) [
        | nowhere at empty ↦
            let none_at = null_inorder tree.root empty in
            rw (known, none_at, at, avl_insert, avl_find) (refl, refl)
        | at_key found at same end ↦ elim (bool_of tree.allow_dups) [
          | is_true e ↦ rw (known, at, same, e, avl_insert, avl_find) (refl, refl)
          | is_false e ↦ rw (known, at, same, e, avl_insert, avl_find) (refl, refl)
        ]
        | beside found at other end ↦
            let way = find_rec-IsWay comp new.key tree.root [] found tt at in
            let done = insert_below-insort order found new tree.root end way other valid sorted in
            elim (Side-of comp found other) [
              | to_left side ↦ rw (known, at, side, avl_insert, avl_find) (done, refl)
              | to_right side ↦ rw (known, at, side, avl_insert, avl_find) (done, refl)
            ]
      ]

  -- The lookup of the new key, and of any other one, after `avl_insert` into a balanced and sorted tree.
  pub avl_find-avl_insert :
      (order : IsOrder comp) (key : K) (new : AvlNode K) (tree : AvlTree K)
      → IsBalanced tree.root
      → IsSorted comp (inorder tree.root)
      → IsSorted comp (inorder (avl_insert comp new tree).0.root)
        × (avl_find comp key (avl_insert comp new tree).0 ≡ (
            if is_some (avl_find comp new.key tree)
            then avl_find comp key tree
            else over (comp key new.key) new (avl_find comp key tree)))
  avl_find-avl_insert order key new tree valid sorted =
      let found = avl_find-lookup comp order in
      let known = found new.key tree sorted in
      let after = (avl_insert-insort order new tree valid sorted).0 in
      elim (option_of (lookup comp new.key (inorder tree.root))) [
        | is_none e ↦
            let now : inorder (avl_insert comp new tree).0.root
                ≡ insort comp new (inorder tree.root) =
              after ∙ rw e refl in
            let kept =
              subst (IsSorted comp) (sym now)
                (insort-IsSorted comp order new (inorder tree.root) e sorted) in
            (
              kept,
              found key (avl_insert comp new tree).0 kept
                  ∙ ap (lookup comp key) now
                  ∙ lookup-insort comp order key new (inorder tree.root) e
                  ∙ rw (known, e, found key tree sorted) refl,
            )
        | is_some_of found_node e ↦
            let now : inorder (avl_insert comp new tree).0.root ≡ inorder tree.root =
              after ∙ rw e refl in
            let kept = subst (IsSorted comp) (sym now) sorted in
            (
              kept,
              found key (avl_insert comp new tree).0 kept
                  ∙ ap (lookup comp key) now
                  ∙ rw (known, e, found key tree sorted) refl,
            )
      ]
