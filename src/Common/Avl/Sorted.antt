-- ===== src/Common/Avl/Sorted.antt =====
-- Lists in the order of a comparator, which are what an AVL tree stands for: lookup and insertion.
use Prim.Native.Nat.{Ordering}
use Prim.Native.Nat.Ordering.{lt, eq, gt}
use olsrd.Base.{
  ◌≡◌, ◌≢◌, ◌↔◌, ◌∙◌, refl, Option, none, some, List, [], ◌∷◌, ◌++◌, All, All-split, All-map, arith,
}
use olsrd.Common.Avl.{AvlNode}

-- What avl.h says of a comparator, for the sign of its answer.
pub record IsOrder {ℓ} {K : Type ℓ} (comp : K → K → Ordering) : Type ℓ where
  pub flip : (a b : K) → (comp a b ≡ gt) ↔ (comp b a ≡ lt)
  pub lt_trans : (a b c : K) → comp a b ≡ lt → comp b c ≡ lt → comp a c ≡ lt
  pub eq_left : (a b c : K) → comp a b ≡ eq → comp a c ≡ comp b c

module _ {ℓ} {K : Type ℓ} where
  -- One element where a comparison with its key answers 0, and otherwise what there is.
  unfoldable pub over : Ordering → AvlNode K → Option (AvlNode K) → Option (AvlNode K)
  over lt x other = other
  over eq x other = some x
  over gt x other = other

module _ {ℓ} {K : Type ℓ} (comp : K → K → Ordering) where
  -- Each element has a smaller key than those behind it.
  abbrev pub IsSorted : List (AvlNode K) → Type ℓ
  IsSorted [] = Unit {ℓ}
  IsSorted (x ∷ xs) = All (λ (y : AvlNode K). comp x.key y.key ≡ lt) xs × IsSorted xs

  -- The element with a key.
  unfoldable pub lookup : K → List (AvlNode K) → Option (AvlNode K)
  lookup key [] = none
  lookup key (x ∷ xs) = elim (comp key x.key) [
    | eq ↦ some x
    | lt ↦ lookup key xs
    | gt ↦ lookup key xs
  ]

  -- A new element before the first one with a greater key.
  unfoldable pub insort : AvlNode K → List (AvlNode K) → List (AvlNode K)
  insort new [] = new ∷ []
  insort new (x ∷ xs) = elim (comp new.key x.key) [
    | lt ↦ new ∷ x ∷ xs
    | eq ↦ x ∷ insort new xs
    | gt ↦ x ∷ insort new xs
  ]

  abbrev pub IsOther : K → AvlNode K → Type 0
  IsOther key x = comp key x.key ≢ eq

  pub lookup-append :
      (key : K) (xs ys : List (AvlNode K))
      → All (IsOther key) xs
      → lookup key (xs ++ ys) ≡ lookup key ys
  unfolding lookup
  lookup-append key [] ys other = refl
  lookup-append key (x ∷ xs) ys (o, other) = ground (arith, lookup-append key xs ys other)

  pub lookup-append_left :
      (key : K) (xs ys : List (AvlNode K))
      → All (IsOther key) ys
      → lookup key (xs ++ ys) ≡ lookup key xs
  unfolding lookup
  lookup-append_left key [] [] other = refl
  lookup-append_left key [] (y ∷ ys) (o, other) = ground (arith, lookup-append_left key [] ys other)
  lookup-append_left key (x ∷ xs) ys other = ground (arith, lookup-append_left key xs ys other)

  -- The parts of a sorted list.
  pub record IsSplit (xs : List (AvlNode K)) (p : AvlNode K) (ys : List (AvlNode K)) : Type ℓ where
    pub xs_sorted : IsSorted xs
    pub ys_sorted : IsSorted ys
    pub xs_below : All (λ (x : AvlNode K). comp x.key p.key ≡ lt) xs
    pub ys_above : All (λ (y : AvlNode K). comp p.key y.key ≡ lt) ys

  pub split :
      (xs : List (AvlNode K)) (p : AvlNode K) (ys : List (AvlNode K))
      → IsSorted (xs ++ p ∷ ys)
      → IsSplit xs p ys
  split [] p ys (above, sorted) = record {
    xs_sorted = tt;
    ys_sorted = sorted;
    xs_below = tt;
    ys_above = above;
  }
  split (x ∷ xs) p ys (above, sorted) =
      let s = split xs p ys sorted in
      let (front, (here, back)) =
        All-split (λ (y : AvlNode K). comp x.key y.key ≡ lt) xs (p ∷ ys) above in
      record {
        xs_sorted = (front, s.xs_sorted);
        ys_sorted = s.ys_sorted;
        xs_below = (here, s.xs_below);
        ys_above = s.ys_above;
      }

  module _ (order : IsOrder comp) where
    -- A key on one side of an element is that of no element on its other side.
    pub others_above :
        (key : K) (p : AvlNode K) (ys : List (AvlNode K))
        → comp key p.key ≡ lt
        → All (λ (y : AvlNode K). comp p.key y.key ≡ lt) ys
        → All (IsOther key) ys
    others_above key p ys below above =
        All-map (λ y h. grind (arith, order.lt_trans key p.key y.key below h)) ys above

    pub others_below :
        (key : K) (p : AvlNode K) (xs : List (AvlNode K))
        → comp key p.key ≡ gt
        → All (λ (x : AvlNode K). comp x.key p.key ≡ lt) xs
        → All (IsOther key) xs
    others_below key p xs above below =
        All-map
          (λ x h.
            grind
              (arith, order.flip key p.key, order.lt_trans x.key p.key key h, order.flip key x.key))
          xs below

    pub lookup_left :
        (key : K) (xs : List (AvlNode K)) (p : AvlNode K) (ys : List (AvlNode K))
        → IsSorted (xs ++ p ∷ ys)
        → comp key p.key ≡ lt
        → lookup key (xs ++ p ∷ ys) ≡ lookup key xs
    lookup_left key xs p ys sorted below =
        lookup-append_left key xs (p ∷ ys)
          (ground arith, others_above key p ys below (split xs p ys sorted).ys_above)

    pub lookup_right :
        (key : K) (xs : List (AvlNode K)) (p : AvlNode K) (ys : List (AvlNode K))
        → IsSorted (xs ++ p ∷ ys)
        → comp key p.key ≡ gt
        → lookup key (xs ++ p ∷ ys) ≡ lookup key ys
    unfolding lookup
    lookup_right key xs p ys sorted above =
        lookup-append key xs (p ∷ ys) (others_below key p xs above (split xs p ys sorted).xs_below)
        ∙ rw (above, lookup) refl

    pub lookup_here :
        (key : K) (xs : List (AvlNode K)) (p : AvlNode K) (ys : List (AvlNode K))
        → IsSorted (xs ++ p ∷ ys)
        → comp key p.key ≡ eq
        → lookup key (xs ++ p ∷ ys) ≡ some p
    unfolding lookup
    lookup_here key xs p ys sorted same =
        lookup-append key xs (p ∷ ys) (
          All-map (λ x h. grind (arith, order.eq_left key p.key x.key same, order.flip p.key x.key))
            xs (split xs p ys sorted).xs_below)
        ∙ rw (same, lookup) refl
