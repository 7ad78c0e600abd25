-- ===== src/Common/Avl/Height.antt =====
-- The height of the AVL tree, which bounds how many comparisons a lookup depends on.
use Prim.Native.Nat.{Ordering}
use Prim.Native.Nat.Ordering.{lt, eq, gt}
use olsrd.Base.{
  ◌-◌, leb, ℕ, zero, suc, ◌+◌, ℤ, ◌^◌, ◌≤◌, ◌<◌, ◌≡◌, refl, subst, List, [], ◌∷◌, length,
  length-append, All, arith,
}
use olsrd.Common.Avl.Cases.{is_true, is_false, bool_of}
use olsrd.Common.Avl.{AvlNode, Tree, leaf, node, Step, left_of, right_of}
use olsrd.Common.Avl.Balance.{Tilt, left_high, even, right_high, IsAvl, IsBalanced}
use olsrd.Common.Avl.Inorder.{inorder}
use olsrd.Common.Avl.Sorted.{IsOrder, IsSorted, lookup}
use olsrd.Common.Avl.Find.{avl_find-lookup}
use olsrd.Common.Avl.Ops.{AvlTree, find_rec, avl_find}

-- The least numbers of nodes at a height and at the next one.
abbrev fewest : ℕ → ℕ × ℕ
fewest zero = (0, 1)
fewest (suc h) = let below = fewest h in (below.1, below.0 + below.1 + 1)

fewest_step :
    (h : ℕ) → ((fewest h).0 ≤ (fewest h).1) × ((fewest h).1 ≤ (fewest h).0 + (fewest h).0 + 1)
fewest_step zero = (omega arith, omega arith)
fewest_step (suc h) = let (up, twice) = fewest_step h in (omega arith, omega arith)

fewest_mono : (d h : ℕ) → (fewest h).0 ≤ (fewest (h + d)).0
fewest_mono zero h = let same : h + 0 ≡ h = omega arith in rw same (omega arith)
fewest_mono (suc d) h =
    let same : h + suc d ≡ suc (h + d) = omega arith in
    rw same (omega (arith, fewest_mono d h, (fewest_step (h + d)).0))

Tilt-fewest :
    (b : ℤ) (l r h x y : ℕ)
    → Tilt b l r h
    → (fewest l).0 ≤ x
    → (fewest r).0 ≤ y
    → (fewest h).0 ≤ x + y + 1
Tilt-fewest b l r h x y (left_high at in_ top) p q =
    rw (top, in_) (omega (arith, subst (λ z. (fewest z).0 ≤ x) in_ p, q))
Tilt-fewest b l r h x y (even at in_ top) p q =
    rw top (omega (arith, subst (λ z. (fewest z).0 ≤ x) in_ p, q, fewest_step r))
Tilt-fewest b l r h x y (right_high at in_ top) p q =
    rw (top, in_) (omega (arith, subst (λ z. (fewest z).0 ≤ y) in_ q, p))

-- The heights that fewer than 2^32 elements can have, and the others.
data Heights (h : ℕ) : Type 0 where
  low : h ≤ 45 → Heights h
  high : (d : ℕ) → h ≡ 46 + d → Heights h

order_of : (h : ℕ) → Heights h
order_of h = elim (bool_of (leb h 45)) [
  | is_true e ↦ low (grind (arith, e))
  | is_false e ↦ high (h - 46) (grind (arith, e))
]

Tilt-higher : (b : ℤ) (l r h : ℕ) → Tilt b l r h → (l < h) × (r < h)
Tilt-higher b l r h (left_high at in_ top) = (omega arith, omega arith)
Tilt-higher b l r h (even at in_ top) = (omega arith, omega arith)
Tilt-higher b l r h (right_high at in_ top) = (omega arith, omega arith)

module _ {ℓ} {K : Type ℓ} where
  fewest-length : (t : Tree K) (h : ℕ) → IsAvl t h → (fewest h).0 ≤ length (inorder t)
  unfolding inorder
  fewest-length leaf h valid = rw valid (omega arith)
  fewest-length (node l n b r) h (hl, hr, left, right, tilt) =
      let sum =
        Tilt-fewest b hl hr h (length (inorder l)) (length (inorder r)) tilt
          (fewest-length l hl left) (fewest-length r hr right) in
      omega (arith, sum, length-append (inorder l) (n ∷ inorder r))

  -- Fewer elements than 2^32 need a height of at most 45.
  lower : (t : Tree K) (h : ℕ) → IsAvl t h → length (inorder t) < 2 ^ 32 → h ≤ 45
  lower t h valid few = elim (order_of h) [
    | low p ↦ p
    | high d p ↦ absurd (
        omega (
          arith,
          few,
          fewest_mono d 46,
          subst (λ z. (fewest z).0 ≤ length (inorder t)) p (fewest-length t h valid),
        ))
  ]

module _ {ℓ} {K : Type ℓ} (comp : K → K → Ordering) (key : K) where
  -- The elements that a key is compared with on its way down.
  spine : Tree K → List (AvlNode K)
  spine leaf = []
  spine (node l n b r) = n ∷ elim (comp key n.key) [ lt ↦ spine l | gt ↦ spine r | eq ↦ [] ]

  length-spine : (t : Tree K) (h : ℕ) → IsAvl t h → length (spine t) ≤ h
  unfolding spine
  length-spine leaf h valid = rw valid (omega arith)
  length-spine (node l n b r) h (hl, hr, left, right, tilt) =
      let on_left = length-spine l hl left in
      let on_right = length-spine r hr right in
      let (over_left, over_right) = Tilt-higher b hl hr h tilt in
      elim (comp key n.key)
        as (λ c. length (n ∷ elim c [ lt ↦ spine l | gt ↦ spine r | eq ↦ [] ]) ≤ h) [
          | lt ↦ omega arith
          | gt ↦ omega arith
          | eq ↦ omega arith
        ]

  -- A lookup depends on no other comparison.
  module _ (other : K → K → Ordering) where
    abbrev Agrees : List (AvlNode K) → Type 0
    Agrees = All (λ (n : AvlNode K). other key n.key ≡ comp key n.key)

    find_rec-Agrees :
        (t : Tree K) (path : List (Step K))
        → Agrees (spine t)
        → find_rec other key t path ≡ find_rec comp key t path
    unfolding find_rec spine
    find_rec-Agrees leaf path same = refl
    find_rec-Agrees (node l n b r) path (here, below) =
        ground (
          arith,
          find_rec-Agrees l (left_of n b r ∷ path),
          find_rec-Agrees r (right_of l n b ∷ path),
        )

-- In a balanced and sorted tree of fewer than 2^32 elements, as many as its counter can hold, there
-- are at most 45 elements such that `avl_find` answers what a search through all elements finds, for
-- each comparator that compares the key with those 45 as the one does that the tree is sorted by. That
-- one has the laws of an order.
pub avl_find_comparisons {ℓ} :
    {K : Type ℓ} (comp : K → K → Ordering)
    → IsOrder comp
    → (key : K) (tree : AvlTree K) → IsBalanced tree.root
    → IsSorted comp (inorder tree.root)
    → length (inorder tree.root) < 2 ^ 32
    → (compared : List (AvlNode K)) × (length compared ≤ 45)
      × ((other : K → K → Ordering)
          → All (λ (n : AvlNode K). other key n.key ≡ comp key n.key) compared
          → avl_find other key tree ≡ lookup comp key (inorder tree.root))
unfolding avl_find
avl_find_comparisons comp order key tree (h, valid) sorted few = (
  spine comp key tree.root,
  omega (arith, length-spine comp key tree.root h valid, lower tree.root h valid few),
  λ other same.
      rw (find_rec-Agrees comp key other tree.root [] same, avl_find)
        (avl_find-lookup comp order key tree sorted),
)
