-- ===== src/Common/Avl/Nearest.antt =====
-- `avl_find_lessequal` of src-api/common/avl.c, which walks from the place of a lookup through the list.
use Prim.Native.Nat.{Ordering}
use Prim.Native.Nat.Ordering.{lt, eq, gt}
use olsrd.Base.{
  ℕ, ◌==◌, ==_iff, ◌≡◌, ◌≢◌, ◌∙◌, sym, ap, refl, subst, true, if◌then◌else◌, Option, none, some,
  List, [], ◌∷◌, ◌++◌, All, All-split, All-map, arith,
}
use olsrd.Common.Avl.{AvlNode, node}
use olsrd.Common.Avl.Cases.{is_none, is_some_of, option_of, is_lt, is_eq, is_gt, ordering_of}
use olsrd.Common.Avl.Place.{find_rec-IsEnd}
use olsrd.Common.Avl.Insert.{find_rec-none}
use olsrd.Common.Avl.Inorder.{inorder, before, behind, inorder-zip}
use olsrd.Common.Avl.Sorted.{IsOrder}
use olsrd.Common.Avl.Distinct.{IsNamed, IsAbsent}
use olsrd.Common.Avl.Leaders.{members, leaders-IsAbsent}
use olsrd.Common.Avl.Linked.{IsLinked}
use olsrd.Common.Avl.Ops.{AvlTree, Found, is_null, find_rec}

-- An element of the list with those before it, the nearest first, and those behind it.
pub record Spot {ℓ} (K : Type ℓ) : Type ℓ where
  pub earlier : List (AvlNode K)
  pub here : AvlNode K
  pub later : List (AvlNode K)

module _ {ℓ} {K : Type ℓ} where
  -- The element of a name, which the code has as a pointer.
  unfoldable pub find_spot : ℕ → List (AvlNode K) → List (AvlNode K) → Option (Spot K)
  find_spot name earlier [] = none
  find_spot name earlier (e ∷ list) =
      if e.name == name
      then some (record { earlier = earlier; here = e; later = list })
      else find_spot name (e ∷ earlier) list

  -- The list around a spot.
  abbrev pub unwind : List (AvlNode K) → List (AvlNode K) → List (AvlNode K)
  unwind [] list = list
  unwind (p ∷ earlier) list = unwind earlier (p ∷ list)

  pub find_spot-unwind :
      (name : ℕ) (list earlier : List (AvlNode K)) (spot : Spot K)
      → find_spot name earlier list ≡ some spot
      → unwind spot.earlier (spot.here ∷ spot.later) ≡ unwind earlier list
  unfolding find_spot
  find_spot-unwind name [] earlier spot at = absurd (ground arith)
  find_spot-unwind name (e ∷ list) earlier spot at =
      ground (arith, at, find_spot-unwind name list (e ∷ earlier) spot)

  pub find_spot-none :
      (name : ℕ) (list earlier : List (AvlNode K))
      → find_spot name earlier list ≡ none
      → IsAbsent name list
  unfolding find_spot
  find_spot-none name [] earlier at = tt
  find_spot-none name (e ∷ list) earlier at = (
    ground (arith, at, ==_iff e.name name),
    ground (arith, at, find_spot-none name list (e ∷ earlier)),
  )

module _ {ℓ} {K : Type ℓ} (comp : K → K → Ordering) where
  -- `avl_find_lessequal`: to the left as long as the key is smaller,
  unfoldable pub go_left :
      K → List (AvlNode K) → AvlNode K → List (AvlNode K) → Option (AvlNode K × List (AvlNode K))
  go_left key [] here later = elim (comp key here.key) [
    | lt ↦ none
    | eq ↦ some (here, later)
    | gt ↦ some (here, later)
  ]
  go_left key (p ∷ earlier) here later =
      let further = go_left key earlier p (here ∷ later) in
      elim (comp key here.key) [ lt ↦ further | eq ↦ some (here, later) | gt ↦ some (here, later) ]

  -- and to the right as long as it is not smaller than that of the next element.
  unfoldable pub go_right : K → AvlNode K → List (AvlNode K) → AvlNode K
  go_right key here [] = here
  go_right key here (next ∷ later) =
      let further = go_right key next later in
      elim (comp key next.key) [ lt ↦ here | eq ↦ further | gt ↦ further ]

  abbrev go_back : K → Option (AvlNode K × List (AvlNode K)) → Option (AvlNode K)
  go_back key none = none
  go_back key (some left) = some (go_right key left.0 left.1)

  unfoldable pub avl_find_lessequal : K → AvlTree K → Option (AvlNode K)
  avl_find_lessequal key tree = elim (find_rec comp key tree.root []) [
    | none ↦ none
    | some found ↦ elim (find_spot found.here.name [] (members tree.list_head)) [
      | none ↦ none
      | some spot ↦ go_back key (go_left key spot.earlier spot.here spot.later)
    ]
  ]

  -- The last element of a list with a key that is not greater.
  unfoldable pub floor : K → List (AvlNode K) → Option (AvlNode K)
  floor key [] = none
  floor key (x ∷ xs) = elim (floor key xs) [
    | some y ↦ some y
    | none ↦ elim (comp key x.key) [ lt ↦ none | eq ↦ some x | gt ↦ some x ]
  ]

  -- No element has a greater key than one behind it.
  abbrev pub IsOrdered : List (AvlNode K) → Type 0
  IsOrdered [] = Unit {0}
  IsOrdered (x ∷ xs) = All (λ (y : AvlNode K). comp x.key y.key ≢ gt) xs × IsOrdered xs

  floor_above :
      (key : K) (xs : List (AvlNode K))
      → All (λ (x : AvlNode K). comp key x.key ≡ lt) xs
      → floor key xs ≡ none
  unfolding floor
  floor_above key [] above = refl
  floor_above key (x ∷ xs) (p, above) = ground (arith, p, floor_above key xs above)

  floor-unwind :
      (key : K) (earlier list : List (AvlNode K)) (y : AvlNode K)
      → floor key list ≡ some y
      → floor key (unwind earlier list) ≡ some y
  unfolding floor
  floor-unwind key [] list y at = at
  floor-unwind key (p ∷ earlier) list y at =
      floor-unwind key earlier (p ∷ list) y (ground (arith, at))

  pub IsOrdered-unwind :
      (earlier list : List (AvlNode K)) → IsOrdered (unwind earlier list) → IsOrdered list
  IsOrdered-unwind [] list ordered = ordered
  IsOrdered-unwind (p ∷ earlier) list ordered = (IsOrdered-unwind earlier (p ∷ list) ordered).1

  module _ (order : IsOrder comp) where
    all_above :
        (key : K) (x : AvlNode K) (xs : List (AvlNode K))
        → comp key x.key ≡ lt
        → All (λ (y : AvlNode K). comp x.key y.key ≢ gt) xs
        → All (λ (y : AvlNode K). comp key y.key ≡ lt) xs
    all_above key x xs below above =
        All-map
          (λ y h. elim (ordering_of (comp x.key y.key)) [
            | is_lt e ↦ order.lt_trans key x.key y.key below e
            | is_eq e ↦
                (order.flip y.key key).0
                  (sym (order.eq_left x.key y.key key e) ∙ (order.flip x.key key).1 below)
            | is_gt e ↦ absurd (h e)
          ])
          xs above

    floor-go_right :
        (key : K) (later : List (AvlNode K)) (here : AvlNode K)
        → comp key here.key ≢ lt
        → IsOrdered (here ∷ later)
        → floor key (here ∷ later) ≡ some (go_right key here later)
    unfolding floor go_right
    floor-go_right key [] here reach ordered = ground (arith, reach)
    floor-go_right key (next ∷ later) here reach (above, ordered) =
        elim (ordering_of (comp key next.key)) [
          | is_lt e ↦
              let rest = floor_above key later (all_above key next later e ordered.0) in
              ground (arith, e, rest, reach)
          | is_eq e ↦ ground (arith, e, floor-go_right key later next (ground (arith, e)) ordered)
          | is_gt e ↦ ground (arith, e, floor-go_right key later next (ground (arith, e)) ordered)
        ]

    stay :
        (key : K) (earlier : List (AvlNode K)) (here : AvlNode K) (later : List (AvlNode K))
        → comp key here.key ≢ lt
        → IsOrdered (unwind earlier (here ∷ later))
        → floor key (unwind earlier (here ∷ later)) ≡ go_back key (go_left key earlier here later)
    unfolding go_left
    stay key [] here later reach ordered =
        floor-go_right key later here reach ordered ∙ ground (arith, reach)
    stay key (p ∷ earlier) here later reach ordered =
        floor-unwind key (p ∷ earlier) (here ∷ later) (go_right key here later) (
          floor-go_right key later here reach
            (IsOrdered-unwind (p ∷ earlier) (here ∷ later) ordered))
        ∙ ground (arith, reach)

    floor-go_left :
        (key : K) (earlier : List (AvlNode K)) (here : AvlNode K) (later : List (AvlNode K))
        → IsOrdered (unwind earlier (here ∷ later))
        → floor key (unwind earlier (here ∷ later)) ≡ go_back key (go_left key earlier here later)
    unfolding go_left
    floor-go_left key [] here later ordered = elim (ordering_of (comp key here.key)) [
      | is_lt e ↦
          floor_above key (here ∷ later) (e, all_above key here later e ordered.0)
          ∙ ground (arith, e)
      | is_eq e ↦ stay key [] here later (ground (arith, e)) ordered
      | is_gt e ↦ stay key [] here later (ground (arith, e)) ordered
    ]
    floor-go_left key (p ∷ earlier) here later ordered = elim (ordering_of (comp key here.key)) [
      | is_lt e ↦ floor-go_left key earlier p (here ∷ later) ordered ∙ ground (arith, e)
      | is_eq e ↦ stay key (p ∷ earlier) here later (ground (arith, e)) ordered
      | is_gt e ↦ stay key (p ∷ earlier) here later (ground (arith, e)) ordered
    ]

    -- The place of a lookup is in the list.
    pub place_member :
        (key : K) (tree : AvlTree K) (found : Found K)
        → IsLinked tree
        → find_rec comp key tree.root [] ≡ some found
        → ¬ IsAbsent found.here.name (members tree.list_head)
    unfolding inorder
    place_member key tree found linked at absent =
        let end = find_rec-IsEnd comp key tree.root [] found at in
        let here = node found.left found.here found.tilt found.right in
        let same = linked.in_order ∙ ap inorder (sym end.in_whole) ∙ inorder-zip found.path here in
        let all =
          subst (IsAbsent found.here.name) same
            (leaders-IsAbsent found.here.name tree.list_head absent) in
        let (front, back) =
          All-split (IsNamed found.here.name) (before found.path ++ inorder here)
            (behind found.path) all in
        let (left, mid) =
          All-split (IsNamed found.here.name) (before found.path) (inorder here) front in
        let (less, (itself, more)) =
          All-split (IsNamed found.here.name) (inorder found.left)
            (found.here ∷ inorder found.right) mid in
        itself refl

    -- In a tree that is in step with its list, where no element of the list has a greater key than one
    -- behind it, and the list of an empty tree is empty, `avl_find_lessequal` answers the last element of the list with a key that is
    -- not greater than the one asked for, and NULL if there is none. The comparator has the laws of an
    -- order.
    pub avl_find_lessequal-floor :
        (key : K) (tree : AvlTree K)
        → IsLinked tree
        → IsOrdered (members tree.list_head)
        → (is_null tree.root ≡ true → tree.list_head ≡ [])
        → avl_find_lessequal key tree ≡ floor key (members tree.list_head)
    unfolding avl_find_lessequal members floor
    avl_find_lessequal-floor key tree linked ordered none_left =
        elim (option_of (find_rec comp key tree.root [])) [
          | is_none e ↦
              rw
                (
                  none_left (find_rec-none comp key tree.root [] e),
                  e,
                  avl_find_lessequal,
                  members,
                  floor,
                )
                refl
          | is_some_of found e ↦
              elim (option_of (find_spot found.here.name [] (members tree.list_head))) [
                | is_none q ↦ absurd (
                    place_member key tree found linked e
                      (find_spot-none found.here.name (members tree.list_head) [] q))
                | is_some_of spot q ↦
                    let all = find_spot-unwind found.here.name (members tree.list_head) [] spot q in
                    rw (e, q, avl_find_lessequal)
                      (sym (
                          floor-go_left key spot.earlier spot.here spot.later
                            (subst IsOrdered (sym all) ordered))
                        ∙ ap (floor key) all)
              ]
        ]
