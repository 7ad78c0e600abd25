-- ===== src/Common/Avl/Balance.antt =====
-- The balance of the AVL tree: the two sides of a node differ by at most one in height, and the field
-- `balance` says which one is higher.
use olsrd.Base.{ℕ, suc, ◌≡◌, refl, subst, ℤ, pos, negsuc, List, [], ◌∷◌, arith}
use olsrd.Common.Avl.{
  AvlNode, Tree, leaf, node, Step, left_of, right_of, zip, balance, rotate_left, rotate_right,
}

-- A node with the field `b` and sides of the heights `l` and `r` has the height `h`.
pub data Tilt (b : ℤ) (l r h : ℕ) : Type 0 where
  left_high : b ≡ negsuc 0 → l ≡ suc r → h ≡ suc l → Tilt b l r h
  even : b ≡ pos 0 → l ≡ r → h ≡ suc r → Tilt b l r h
  right_high : b ≡ pos 1 → r ≡ suc l → h ≡ suc r → Tilt b l r h

module _ {ℓ} {K : Type ℓ} where
  -- A balanced tree of a height.
  abbrev pub IsAvl : Tree K → ℕ → Type 0
  IsAvl leaf h = h ≡ 0
  IsAvl (node l n b r) h = (hl : ℕ) × (hr : ℕ) × IsAvl l hl × IsAvl r hr × Tilt b hl hr h

  -- The tree around a place is balanced if there is a tree of this height at the place.
  abbrev pub IsAround : List (Step K) → ℕ → Type 0
  IsAround [] h = Unit {0}
  IsAround (left_of p b r ∷ path) h =
      (hr : ℕ) × (hp : ℕ) × IsAvl r hr × Tilt b h hr hp × IsAround path hp
  IsAround (right_of l p b ∷ path) h =
      (hl : ℕ) × (hp : ℕ) × IsAvl l hl × Tilt b hl h hp × IsAround path hp

  -- Some height makes it balanced.
  abbrev pub IsBalanced : Tree K → Type 0
  IsBalanced t = (h : ℕ) × IsAvl t h

  pub zip-IsBalanced :
      (path : List (Step K)) (t : Tree K) (h : ℕ)
      → IsAvl t h
      → IsAround path h
      → IsBalanced (zip t path)
  zip-IsBalanced [] t h valid around = (h, valid)
  zip-IsBalanced (left_of p b r ∷ path) t h valid (hr, hp, right, tilt, around) =
      zip-IsBalanced path (node t p b r) hp (h, hr, valid, right, tilt) around
  zip-IsBalanced (right_of l p b ∷ path) t h valid (hl, hp, left, tilt, around) =
      zip-IsBalanced path (node l p b t) hp (hl, h, left, valid, tilt) around

  pub at : (t : Tree K) (a b : ℕ) → a ≡ b → IsAvl t a → IsAvl t b
  at t a b e valid = subst (IsAvl t) e valid

  -- A side that is higher by two is mended by a rotation if its balance leans to its outer side,
  pub single_right :
      (left : Tree K) (n : AvlNode K) (r : Tree K) (h : ℕ)
      → IsAvl left (suc (suc h))
      → balance left ≡ negsuc 0
      → IsAvl r h
      → IsAvl (rotate_right (node left n (negsuc 1) r)) (suc (suc h))
  unfolding rotate_right
  single_right leaf n r h high lean low = absurd (ground arith)
  single_right (node ll m b lr) n r h (hl, hr, a, c, left_high at_b out top) lean low = rw at_b (
    suc h,
    suc h,
    at ll hl (suc h) (omega arith) a,
    (h, h, at lr hr h (omega arith) c, low, even refl refl refl),
    even refl refl refl,
  )
  single_right (node ll m b lr) n r h (hl, hr, a, c, even at_b out top) lean low =
      absurd (ground arith)
  single_right (node ll m b lr) n r h (hl, hr, a, c, right_high at_b out top) lean low =
      absurd (ground arith)

  -- or to none, where the height stays;
  pub even_right :
      (left : Tree K) (n : AvlNode K) (r : Tree K) (h : ℕ)
      → IsAvl left (suc (suc h))
      → balance left ≡ pos 0
      → IsAvl r h
      → IsAvl (rotate_right (node left n (negsuc 1) r)) (suc (suc (suc h)))
  unfolding rotate_right
  even_right leaf n r h high lean low = absurd (ground arith)
  even_right (node ll m b lr) n r h (hl, hr, a, c, left_high at_b out top) lean low =
      absurd (ground arith)
  even_right (node ll m b lr) n r h (hl, hr, a, c, even at_b out top) lean low = rw at_b (
    suc h,
    suc (suc h),
    at ll hl (suc h) (omega arith) a,
    (suc h, h, at lr hr (suc h) (omega arith) c, low, left_high refl refl refl),
    right_high refl refl refl,
  )
  even_right (node ll m b lr) n r h (hl, hr, a, c, right_high at_b out top) lean low =
      absurd (ground arith)

  double_right_at :
      (lr : Tree K) (ll : Tree K) (m n : AvlNode K) (r : Tree K) (h : ℕ)
      → IsAvl lr (suc h)
      → IsAvl ll h
      → IsAvl r h
      → IsAvl
          (rotate_right (node (rotate_left (node ll m (pos 1) lr)) n (negsuc 1) r))
          (suc (suc h))
  unfolding rotate_right rotate_left
  double_right_at leaf ll m n r h c a low = absurd (omega arith)
  double_right_at (node x k d y) ll m n r h (hx, hy, p, q, left_high at_d in_ high) a low =
      rw at_d (
        suc h,
        suc h,
        (h, h, a, at x hx h (omega arith) p, even refl refl refl),
        (hy, h, q, low, right_high refl (omega arith) refl),
        even refl refl refl,
      )
  double_right_at (node x k d y) ll m n r h (hx, hy, p, q, even at_d in_ high) a low = rw at_d (
    suc h,
    suc h,
    (h, h, a, at x hx h (omega arith) p, even refl refl refl),
    (h, h, at y hy h (omega arith) q, low, even refl refl refl),
    even refl refl refl,
  )
  double_right_at (node x k d y) ll m n r h (hx, hy, p, q, right_high at_d in_ high) a low =
      rw at_d (
        suc h,
        suc h,
        (h, hx, a, p, left_high refl (omega arith) refl),
        (h, h, at y hy h (omega arith) q, low, even refl refl refl),
        even refl refl refl,
      )

  -- and by two rotations if it leans to its inner side.
  pub double_right :
      (left : Tree K) (n : AvlNode K) (r : Tree K) (h : ℕ)
      → IsAvl left (suc (suc h))
      → balance left ≡ pos 1
      → IsAvl r h
      → IsAvl (rotate_right (node (rotate_left left) n (negsuc 1) r)) (suc (suc h))
  double_right leaf n r h high lean low = absurd (ground arith)
  double_right (node ll m b lr) n r h (hl, hr, a, c, left_high at_b out top) lean low =
      absurd (ground arith)
  double_right (node ll m b lr) n r h (hl, hr, a, c, even at_b out top) lean low =
      absurd (ground arith)
  double_right (node ll m b lr) n r h (hl, hr, a, c, right_high at_b out top) lean low = rw at_b (
      double_right_at lr ll m n r h (at lr hr (suc h) (omega arith) c) (at ll hl h (omega arith) a)
        low)

  -- The same on the other side.
  pub single_left :
      (l : Tree K) (n : AvlNode K) (right : Tree K) (h : ℕ)
      → IsAvl right (suc (suc h))
      → balance right ≡ pos 1
      → IsAvl l h
      → IsAvl (rotate_left (node l n (pos 2) right)) (suc (suc h))
  unfolding rotate_left
  single_left l n leaf h high lean low = absurd (ground arith)
  single_left l n (node rl m b rr) h (hl, hr, a, c, left_high at_b out top) lean low =
      absurd (ground arith)
  single_left l n (node rl m b rr) h (hl, hr, a, c, even at_b out top) lean low =
      absurd (ground arith)
  single_left l n (node rl m b rr) h (hl, hr, a, c, right_high at_b out top) lean low = rw at_b (
    suc h,
    suc h,
    (h, h, low, at rl hl h (omega arith) a, even refl refl refl),
    at rr hr (suc h) (omega arith) c,
    even refl refl refl,
  )

  pub even_left :
      (l : Tree K) (n : AvlNode K) (right : Tree K) (h : ℕ)
      → IsAvl right (suc (suc h))
      → balance right ≡ pos 0
      → IsAvl l h
      → IsAvl (rotate_left (node l n (pos 2) right)) (suc (suc (suc h)))
  unfolding rotate_left
  even_left l n leaf h high lean low = absurd (omega arith)
  even_left l n (node rl m b rr) h (hl, hr, a, c, left_high at_b out top) lean low =
      absurd (ground arith)
  even_left l n (node rl m b rr) h (hl, hr, a, c, right_high at_b out top) lean low =
      absurd (ground arith)
  even_left l n (node rl m b rr) h (hl, hr, a, c, even at_b out top) lean low = rw at_b (
    suc (suc h),
    suc h,
    (h, suc h, low, at rl hl (suc h) (omega arith) a, right_high refl refl refl),
    at rr hr (suc h) (omega arith) c,
    left_high refl refl refl,
  )

  double_left_at :
      (rl : Tree K) (rr : Tree K) (m n : AvlNode K) (l : Tree K) (h : ℕ)
      → IsAvl rl (suc h)
      → IsAvl rr h
      → IsAvl l h
      → IsAvl
          (rotate_left (node l n (pos 2) (rotate_right (node rl m (negsuc 0) rr))))
          (suc (suc h))
  unfolding rotate_right rotate_left
  double_left_at leaf rr m n l h c a low = absurd (omega arith)
  double_left_at (node x k d y) rr m n l h (hx, hy, p, q, left_high at_d in_ high) a low = rw at_d (
    suc h,
    suc h,
    (h, h, low, at x hx h (omega arith) p, even refl refl refl),
    (hy, h, q, a, right_high refl (omega arith) refl),
    even refl refl refl,
  )
  double_left_at (node x k d y) rr m n l h (hx, hy, p, q, even at_d in_ high) a low = rw at_d (
    suc h,
    suc h,
    (h, h, low, at x hx h (omega arith) p, even refl refl refl),
    (h, h, at y hy h (omega arith) q, a, even refl refl refl),
    even refl refl refl,
  )
  double_left_at (node x k d y) rr m n l h (hx, hy, p, q, right_high at_d in_ high) a low =
      rw at_d (
        suc h,
        suc h,
        (h, hx, low, p, left_high refl (omega arith) refl),
        (h, h, at y hy h (omega arith) q, a, even refl refl refl),
        even refl refl refl,
      )

  pub double_left :
      (l : Tree K) (n : AvlNode K) (right : Tree K) (h : ℕ)
      → IsAvl right (suc (suc h))
      → balance right ≡ negsuc 0
      → IsAvl l h
      → IsAvl (rotate_left (node l n (pos 2) (rotate_right right))) (suc (suc h))
  double_left l n leaf h high lean low = absurd (omega arith)
  double_left l n (node rl m b rr) h (hl, hr, a, c, right_high at_b out top) lean low =
      absurd (ground arith)
  double_left l n (node rl m b rr) h (hl, hr, a, c, even at_b out top) lean low =
      absurd (ground arith)
  double_left l n (node rl m b rr) h (hl, hr, a, c, left_high at_b out top) lean low = rw at_b (
      double_left_at rl rr m n l h (at rl hl (suc h) (omega arith) a) (at rr hr h (omega arith) c)
        low)
