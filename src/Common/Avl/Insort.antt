-- ===== src/Common/Avl/Insort.antt =====
-- The insertion into a sorted list, and where a lookup in the AVL tree puts it.
use Prim.Native.Nat.{Ordering}
use Prim.Native.Nat.Ordering.{lt, gt}
use mathlib.Core.List.{append_assoc, append-nil}
use olsrd.Base.{
  ◌≡◌, ◌∙◌, sym, ap, refl, subst, none, List, [], ◌∷◌, ◌++◌, All, All-split, All-map, arith,
}
use olsrd.Common.Avl.{AvlNode, Step, left_of, right_of}
use olsrd.Common.Avl.Cases.{is_lt, is_eq, is_gt, ordering_of}
use olsrd.Common.Avl.Inorder.{inorder, before, behind}
use olsrd.Common.Avl.Place.{IsWay}
use olsrd.Common.Avl.Sorted.{IsOrder, IsSorted, lookup, over, insort, split}

module _ {ℓ} {K : Type ℓ} (comp : K → K → Ordering) where
  insort_left :
      (new : AvlNode K) (xs : List (AvlNode K)) (p : AvlNode K) (ys : List (AvlNode K))
      → comp new.key p.key ≡ lt
      → insort comp new (xs ++ p ∷ ys) ≡ insort comp new xs ++ p ∷ ys
  unfolding insort
  insort_left new [] p ys below = rw (below, insort) refl
  insort_left new (x ∷ xs) p ys below = ground (arith, insort_left new xs p ys below)

  pub insort_right :
      (order : IsOrder comp) (new : AvlNode K) (xs : List (AvlNode K)) (p : AvlNode K)
      (ys : List (AvlNode K))
      → comp new.key p.key ≡ gt
      → All (λ (x : AvlNode K). comp x.key p.key ≡ lt) xs
      → insort comp new (xs ++ p ∷ ys) ≡ xs ++ p ∷ insort comp new ys
  unfolding insort
  insort_right order new [] p ys above below = rw (above, insort) refl
  insort_right order new (x ∷ xs) p ys above (b, below) = grind (
    arith,
    insort_right order new xs p ys above below,
    order.flip new.key p.key,
    order.lt_trans new.key x.key p.key,
    order.flip p.key new.key,
    order.lt_trans p.key new.key p.key,
  )

  -- The parts of a list that is sorted.
  pub IsSorted-front :
      (xs ys : List (AvlNode K)) → IsSorted comp (xs ++ ys) → IsSorted comp xs × IsSorted comp ys
  IsSorted-front [] ys sorted = (tt, sorted)
  IsSorted-front (x ∷ xs) ys (above, sorted) =
      let (front, back) = IsSorted-front xs ys sorted in
      (((All-split (λ (y : AvlNode K). comp x.key y.key ≡ lt) xs ys above).0, front), back)

  -- A new element that a lookup has led to a place is inserted at the place.
  pub insort-around :
      (order : IsOrder comp) (new : AvlNode K) (path : List (Step K)) (xs : List (AvlNode K))
      → IsWay comp new.key path
      → IsSorted comp (before path ++ xs ++ behind path)
      → insort comp new (before path ++ xs ++ behind path)
        ≡ before path ++ insort comp new xs ++ behind path
  unfolding before behind
  insort-around order new [] xs way sorted =
      ap (insort comp new) (append-nil xs) ∙ sym (append-nil (insort comp new xs))
  insort-around order new (left_of p b r ∷ path) xs (below, way) sorted =
      let same : before path ++ (xs ++ p ∷ inorder r) ++ behind path
          ≡ before path ++ xs ++ (p ∷ inorder r ++ behind path) =
        simp append_assoc in
      ap (insort comp new) (sym same)
      ∙ insort-around order new path (xs ++ p ∷ inorder r) way
          (subst (IsSorted comp) (sym same) sorted)
      ∙ ap (λ y. before path ++ y ++ behind path) (insort_left new xs p (inorder r) below)
      ∙ simp append_assoc
  insort-around order new (right_of l p b ∷ path) xs (above, way) sorted =
      let same : before path ++ (inorder l ++ p ∷ xs) ++ behind path
          ≡ (before path ++ inorder l ++ p ∷ []) ++ xs ++ behind path =
        simp append_assoc in
      let mine = subst (IsSorted comp) (sym same) sorted in
      let inner = (IsSorted-front (before path ++ (inorder l ++ p ∷ xs)) (behind path) mine).0 in
      let part = (IsSorted-front (before path) (inorder l ++ p ∷ xs) inner).1 in
      ap (insort comp new) (sym same)
      ∙ insort-around order new path (inorder l ++ p ∷ xs) way mine
      ∙ ap (λ y. before path ++ y ++ behind path)
          (insort_right order new (inorder l) p xs above
            (split comp (inorder l) p xs part).xs_below)
      ∙ simp append_assoc

  All-insort :
      (P : AvlNode K → Type 0) (new : AvlNode K) (xs : List (AvlNode K))
      → P new
      → All P xs
      → All P (insort comp new xs)
  unfolding insort
  All-insort P new [] p all = (p, tt)
  All-insort P new (x ∷ xs) p (q, all) = ground (arith, All-insort P new xs p all)

  -- The insertion of a new key leaves the list sorted.
  pub insort-IsSorted :
      (order : IsOrder comp) (new : AvlNode K) (xs : List (AvlNode K))
      → lookup comp new.key xs ≡ none
      → IsSorted comp xs
      → IsSorted comp (insort comp new xs)
  unfolding insort lookup
  insort-IsSorted order new [] absent sorted = (tt, tt)
  insort-IsSorted order new (x ∷ xs) absent (above, sorted) =
      elim (ordering_of (comp new.key x.key)) [
        | is_lt e ↦
            rw (e, insort)
              (
                (e, All-map (λ y h. order.lt_trans new.key x.key y.key e h) xs above),
                (above, sorted),
              )
        | is_eq e ↦ absurd (ground (arith, e, absent))
        | is_gt e ↦
            rw (e, insort)
              (
                All-insort (λ y. comp x.key y.key ≡ lt) new xs ((order.flip new.key x.key).0 e)
                    above,
                insort-IsSorted order new xs (ground (arith, e, absent)) sorted,
              )
      ]

  -- Afterwards the new element is found under its key, and the others as before.
  pub lookup-insort :
      (order : IsOrder comp) (key : K) (new : AvlNode K) (xs : List (AvlNode K))
      → lookup comp new.key xs ≡ none
      → lookup comp key (insort comp new xs) ≡ over (comp key new.key) new (lookup comp key xs)
  unfolding insort lookup over
  lookup-insort order key new [] absent = ground arith
  lookup-insort order key new (x ∷ xs) absent =
      ground (arith, absent, lookup-insort order key new xs, order.eq_left key new.key x.key)
