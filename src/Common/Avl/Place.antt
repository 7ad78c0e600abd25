-- ===== src/Common/Avl/Place.antt =====
-- Places in the AVL tree: where `_avl_find_rec`, `_avl_local_min` and the pointer to a node lead to.
use Prim.Native.Nat.{Ordering}
use Prim.Native.Nat.Ordering.{lt, gt}
use olsrd.Base.{ℕ, ◌≡◌, refl, ℤ, true, some, List, [], ◌∷◌, arith}
use olsrd.Common.Avl.{AvlNode, Tree, leaf, node, Step, left_of, right_of, zip}
use olsrd.Common.Avl.Balance.{IsAvl, IsAround}
use olsrd.Common.Avl.Ops.{Found, is_null, local_min, locate, find_rec}

module _ {ℓ} {K : Type ℓ} where
  -- The tree that a place is in.
  abbrev pub whole : Found K → Tree K
  whole found = zip (node found.left found.here found.tilt found.right) found.path

  pub locate-whole :
      (name : ℕ) (t : Tree K) (path : List (Step K)) (found : Found K)
      → locate name t path ≡ some found
      → (whole found ≡ zip t path) × (found.here.name ≡ name)
  unfolding locate
  locate-whole name leaf path found at = absurd (ground arith)
  locate-whole name (node l n b r) path found at = ground (
    arith,
    locate-whole name l (left_of n b r ∷ path) found,
    locate-whole name r (right_of l n b ∷ path) found,
  )

  pub local_min-zip :
      (l : Tree K) (n : AvlNode K) (b : ℤ) (r : Tree K) (path : List (Step K))
      → let min = local_min l n b r path in
        (d : ℤ) × (zip (node leaf min.0 d min.1.0) min.1.1 ≡ zip (node l n b r) path)
  unfolding local_min
  local_min-zip leaf n b r path = (b, refl)
  local_min-zip (node ll ln lb lr) n b r path = local_min-zip ll ln lb lr (left_of n b r ∷ path)

  -- What is around a place in a balanced tree, and at it.
  pub unzip :
      (path : List (Step K)) (t : Tree K) (h : ℕ)
      → IsAvl (zip t path) h
      → (k : ℕ) × IsAvl t k × IsAround path k
  unzip [] t h valid = (h, valid, tt)
  unzip (left_of p b r ∷ path) t h valid =
      let (k, (hl, hr, left, right, tilt), around) = unzip path (node t p b r) h valid in
      (hl, left, (hr, k, right, tilt, around))
  unzip (right_of l p b ∷ path) t h valid =
      let (k, (hl, hr, left, right, tilt), around) = unzip path (node l p b t) h valid in
      (hr, right, (hl, k, left, tilt, around))

module _ {ℓ} {K : Type ℓ} (comp : K → K → Ordering) where
  -- A lookup ends where the key is, or where there is no node on its side.
  pub record IsEnd (key : K) (t : Tree K) (found : Found K) : Type ℓ where
    pub in_whole : whole found ≡ t
    pub compared : found.diff ≡ comp key found.here.key
    pub left_end : found.diff ≡ lt → is_null found.left ≡ true
    pub right_end : found.diff ≡ gt → is_null found.right ≡ true

  pub find_rec-IsEnd :
      (key : K) (t : Tree K) (path : List (Step K)) (found : Found K)
      → find_rec comp key t path ≡ some found
      → IsEnd key (zip t path) found
  unfolding find_rec
  find_rec-IsEnd key leaf path found at = absurd (ground arith)
  find_rec-IsEnd key (node l n b r) path found at = ground (
    arith,
    find_rec-IsEnd key l (left_of n b r ∷ path) found,
    find_rec-IsEnd key r (right_of l n b ∷ path) found,
  )

  -- The comparisons on the way to a place.
  abbrev pub IsWay : K → List (Step K) → Type 0
  IsWay key [] = Unit {0}
  IsWay key (left_of p b r ∷ path) = (comp key p.key ≡ lt) × IsWay key path
  IsWay key (right_of l p b ∷ path) = (comp key p.key ≡ gt) × IsWay key path

  pub find_rec-IsWay :
      (key : K) (t : Tree K) (path : List (Step K)) (found : Found K)
      → IsWay key path
      → find_rec comp key t path ≡ some found
      → IsWay key found.path
  unfolding find_rec
  find_rec-IsWay key leaf path found way at = absurd (ground arith)
  find_rec-IsWay key (node l n b r) path found way at = ground (
    arith,
    find_rec-IsWay key l (left_of n b r ∷ path) found,
    find_rec-IsWay key r (right_of l n b ∷ path) found,
  )
