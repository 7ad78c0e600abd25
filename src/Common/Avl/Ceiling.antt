-- ===== src/Common/Avl/Ceiling.antt =====
-- `avl_find_greaterequal` of src-api/common/avl.c, which walks from the place of a lookup through the list.
use Prim.Native.Nat.{Ordering}
use Prim.Native.Nat.Ordering.{lt, eq, gt}
use olsrd.Base.{◌≡◌, ◌≢◌, ◌∙◌, sym, ap, refl, subst, true, Option, none, some, List, [], ◌∷◌, arith}
use olsrd.Common.Avl.{AvlNode}
use olsrd.Common.Avl.Cases.{is_none, is_some_of, option_of, is_lt, is_eq, is_gt, ordering_of}
use olsrd.Common.Avl.Insert.{find_rec-none}
use olsrd.Common.Avl.Sorted.{IsOrder}
use olsrd.Common.Avl.Leaders.{members}
use olsrd.Common.Avl.Linked.{IsLinked}
use olsrd.Common.Avl.Nearest.{
  find_spot, unwind, find_spot-unwind, find_spot-none, IsOrdered, IsOrdered-unwind, place_member,
}
use olsrd.Common.Avl.Ops.{AvlTree, is_null, find_rec}

module _ {ℓ} {K : Type ℓ} (comp : K → K → Ordering) where
  -- `avl_find_greaterequal`: to the right as long as the key is greater,
  unfoldable pub run_right :
      K → List (AvlNode K) → AvlNode K → List (AvlNode K) → Option (List (AvlNode K) × AvlNode K)
  run_right key earlier here [] = elim (comp key here.key) [
    | gt ↦ none
    | eq ↦ some (earlier, here)
    | lt ↦ some (earlier, here)
  ]
  run_right key earlier here (n ∷ later) =
      let further = run_right key (here ∷ earlier) n later in
      elim (comp key here.key) [
        | gt ↦ further
        | eq ↦ some (earlier, here)
        | lt ↦ some (earlier, here)
      ]

  -- and to the left as long as it is not greater than that of the element before.
  unfoldable pub run_left : K → List (AvlNode K) → AvlNode K → AvlNode K
  run_left key [] here = here
  run_left key (p ∷ earlier) here =
      let further = run_left key earlier p in
      elim (comp key p.key) [ gt ↦ here | eq ↦ further | lt ↦ further ]

  abbrev come_back : K → Option (List (AvlNode K) × AvlNode K) → Option (AvlNode K)
  come_back key none = none
  come_back key (some right) = some (run_left key right.0 right.1)

  unfoldable pub avl_find_greaterequal : K → AvlTree K → Option (AvlNode K)
  avl_find_greaterequal key tree = elim (find_rec comp key tree.root []) [
    | none ↦ none
    | some found ↦ elim (find_spot found.here.name [] (members tree.list_head)) [
      | none ↦ none
      | some spot ↦ come_back key (run_right key spot.earlier spot.here spot.later)
    ]
  ]

  -- The first element of a list with a key that is not smaller.
  unfoldable pub ceiling : K → List (AvlNode K) → Option (AvlNode K)
  ceiling key [] = none
  ceiling key (x ∷ xs) = elim (comp key x.key) [ gt ↦ ceiling key xs | eq ↦ some x | lt ↦ some x ]

  module _ (order : IsOrder comp) where
    above_too :
        (key : K) (q p : AvlNode K)
        → comp key p.key ≡ gt
        → comp q.key p.key ≢ gt
        → comp key q.key ≡ gt
    above_too key q p above near = elim (ordering_of (comp q.key p.key)) [
      | is_lt e ↦
          (order.flip key q.key).1
            (order.lt_trans q.key p.key key e ((order.flip key p.key).0 above))
      | is_eq e ↦
          (order.flip key q.key).1
            (order.eq_left q.key p.key key e ∙ (order.flip key p.key).0 above)
      | is_gt e ↦ absurd (near e)
    ]

    ceiling-unwind :
        (key : K) (earlier : List (AvlNode K)) (p : AvlNode K) (rest : List (AvlNode K))
        → comp key p.key ≡ gt
        → IsOrdered comp (unwind earlier (p ∷ rest))
        → ceiling key (unwind earlier (p ∷ rest)) ≡ ceiling key rest
    unfolding ceiling
    ceiling-unwind key [] p rest above ordered = ground (arith, above)
    ceiling-unwind key (q ∷ earlier) p rest above ordered =
        let near = (IsOrdered-unwind comp earlier (q ∷ p ∷ rest) ordered).0.0 in
        ceiling-unwind key earlier q (p ∷ rest) (above_too key q p above near) ordered
        ∙ ground (arith, above)

    ceiling-run_left :
        (key : K) (earlier : List (AvlNode K)) (here : AvlNode K) (later : List (AvlNode K))
        → comp key here.key ≢ gt
        → IsOrdered comp (unwind earlier (here ∷ later))
        → ceiling key (unwind earlier (here ∷ later)) ≡ some (run_left key earlier here)
    unfolding ceiling run_left
    ceiling-run_left key [] here later reach ordered = ground (arith, reach)
    ceiling-run_left key (p ∷ earlier) here later reach ordered =
        elim (ordering_of (comp key p.key)) [
          | is_gt e ↦
              ceiling-unwind key earlier p (here ∷ later) e ordered ∙ ground (arith, e, reach)
          | is_eq e ↦
              ceiling-run_left key earlier p (here ∷ later) (ground (arith, e)) ordered
              ∙ ground (arith, e)
          | is_lt e ↦
              ceiling-run_left key earlier p (here ∷ later) (ground (arith, e)) ordered
              ∙ ground (arith, e)
        ]

    ceiling-run_right :
        (key : K) (later earlier : List (AvlNode K)) (here : AvlNode K)
        → IsOrdered comp (unwind earlier (here ∷ later))
        → ceiling key (unwind earlier (here ∷ later))
          ≡ come_back key (run_right key earlier here later)
    unfolding ceiling run_right
    ceiling-run_right key [] earlier here ordered = elim (ordering_of (comp key here.key)) [
      | is_gt e ↦ ceiling-unwind key earlier here [] e ordered ∙ ground (arith, e)
      | is_eq e ↦
          ceiling-run_left key earlier here [] (ground (arith, e)) ordered ∙ ground (arith, e)
      | is_lt e ↦
          ceiling-run_left key earlier here [] (ground (arith, e)) ordered ∙ ground (arith, e)
    ]
    ceiling-run_right key (n ∷ later) earlier here ordered =
        elim (ordering_of (comp key here.key)) [
          | is_gt e ↦ ceiling-run_right key later (here ∷ earlier) n ordered ∙ ground (arith, e)
          | is_eq e ↦
              ceiling-run_left key earlier here (n ∷ later) (ground (arith, e)) ordered
              ∙ ground (arith, e)
          | is_lt e ↦
              ceiling-run_left key earlier here (n ∷ later) (ground (arith, e)) ordered
              ∙ ground (arith, e)
        ]

    -- In a tree that is in step with its list, where no element of the list has a greater key than one
    -- behind it, and the list of an empty tree is empty, `avl_find_greaterequal` answers the first element
    -- of the list with a key that is not smaller than the one asked for, and NULL if there is none. The
    -- comparator has the laws of an order.
    pub avl_find_greaterequal-ceiling :
        (key : K) (tree : AvlTree K)
        → IsLinked tree
        → IsOrdered comp (members tree.list_head)
        → (is_null tree.root ≡ true → tree.list_head ≡ [])
        → avl_find_greaterequal key tree ≡ ceiling key (members tree.list_head)
    unfolding avl_find_greaterequal members ceiling
    avl_find_greaterequal-ceiling key tree linked ordered none_left =
        elim (option_of (find_rec comp key tree.root [])) [
          | is_none e ↦
              rw
                (
                  none_left (find_rec-none comp key tree.root [] e),
                  e,
                  avl_find_greaterequal,
                  members,
                  ceiling,
                )
                refl
          | is_some_of found e ↦
              elim (option_of (find_spot found.here.name [] (members tree.list_head))) [
                | is_none q ↦ absurd (
                    place_member comp order key tree found linked e
                      (find_spot-none found.here.name (members tree.list_head) [] q))
                | is_some_of spot q ↦
                    let all = find_spot-unwind found.here.name (members tree.list_head) [] spot q in
                    rw (e, q, avl_find_greaterequal)
                      (sym (
                          ceiling-run_right key spot.later spot.earlier spot.here
                            (subst (IsOrdered comp) (sym all) ordered))
                        ∙ ap (ceiling key) all)
              ]
        ]
