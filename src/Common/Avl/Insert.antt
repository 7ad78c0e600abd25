-- ===== src/Common/Avl/Insert.antt =====
-- `avl_insert` leaves a balanced tree.
use Prim.Native.Nat.{Ordering}
use Prim.Native.Nat.Ordering.{lt, eq, gt}
use olsrd.Base.{
  ℕ, ◌≡◌, ◌≢◌, inl, inr, sym, refl, subst, pos, negsuc, true, Option, none, some, List, [], ◌∷◌,
  arith,
}
use olsrd.Common.Avl.Cases.{is_lt, is_eq, is_gt, ordering_of, is_true, is_false, bool_of}
use olsrd.Common.Avl.{AvlNode, Tree, leaf, node, Step, left_of, right_of}
use olsrd.Common.Avl.Balance.{
  Tilt, left_high, even, right_high, IsAvl, IsAround, IsBalanced, zip-IsBalanced,
}
use olsrd.Common.Avl.Rebalance.{IsAround-at, post_insert-IsBalanced}
use olsrd.Common.Avl.Place.{unzip, IsEnd, find_rec-IsEnd}
use olsrd.Common.Avl.Ops.{Found, is_null, find_rec, single, insert_below, avl_insert, AvlTree}

module _ {ℓ} {K : Type ℓ} (comp : K → K → Ordering) where
  pub null_height : (t : Tree K) (h : ℕ) → is_null t ≡ true → IsAvl t h → h ≡ 0
  null_height leaf h null valid = valid
  null_height (node l n b r) h null valid = absurd (ground arith)

  single-IsAvl : (new : AvlNode K) → IsAvl (single new) 1
  single-IsAvl new = (0, 0, refl, refl, even refl refl refl)

  -- The side of a place that a new node is put at.
  pub data Side (found : Found K) : Type 0 where
    to_left : found.diff ≡ lt → Side found
    to_right : found.diff ≡ gt → Side found

  pub Side-of : (found : Found K) → found.diff ≢ eq → Side found
  Side-of found other = elim (ordering_of found.diff) [
    | is_lt e ↦ to_left e
    | is_gt e ↦ to_right e
    | is_eq e ↦ absurd (other e)
  ]

  -- A new node below the end of a lookup that has not found its key.
  insert_at :
      (found : Found K) (new : AvlNode K) (t : Tree K) (hl hr k : ℕ)
      → IsEnd comp new.key t found
      → Side found
      → IsAvl found.left hl
      → IsAvl found.right hr
      → Tilt found.tilt hl hr k
      → IsAround found.path k
      → IsBalanced (insert_below found new)
  unfolding insert_below
  insert_at found new t hl hr k end (to_left side) left right (left_high at_b in_ top) around =
      absurd (omega (arith, null_height found.left hl (end.left_end side) left))
  insert_at found new t hl hr k end (to_left side) left right (even at_b in_ top) around =
      let low = null_height found.left hl (end.left_end side) left in
      rw (at_b, side)
        (post_insert-IsBalanced found.path (node (single new) found.here (negsuc 0) found.right) 1
          (1, hr, single-IsAvl new, right, left_high refl (omega arith) refl) (inl refl)
          (IsAround-at found.path k 1 (omega arith) around))
  insert_at found new t hl hr k end (to_left side) left right (right_high at_b in_ top) around =
      let low = null_height found.left hl (end.left_end side) left in
      rw at_b (
        zip-IsBalanced found.path (node (single new) found.here (pos 0) found.right) k
          (1, hr, single-IsAvl new, right, even refl (omega arith) (omega arith)) around)
  insert_at found new t hl hr k end (to_right side) left right (left_high at_b in_ top) around =
      let low = null_height found.right hr (end.right_end side) right in
      rw at_b (
        zip-IsBalanced found.path (node found.left found.here (pos 0) (single new)) k
          (hl, 1, left, single-IsAvl new, even refl (omega arith) (omega arith)) around)
  insert_at found new t hl hr k end (to_right side) left right (even at_b in_ top) around =
      let low = null_height found.right hr (end.right_end side) right in
      rw (at_b, side)
        (post_insert-IsBalanced found.path (node found.left found.here (pos 1) (single new)) 1
          (hl, 1, left, single-IsAvl new, right_high refl (omega arith) refl) (inr refl)
          (IsAround-at found.path k 1 (omega arith) around))
  insert_at found new t hl hr k end (to_right side) left right (right_high at_b in_ top) around =
      absurd (omega (arith, null_height found.right hr (end.right_end side) right))

  insert_below-IsBalanced :
      (found : Found K) (new : AvlNode K) (t : Tree K)
      → IsEnd comp new.key t found
      → found.diff ≢ eq
      → IsBalanced t
      → IsBalanced (insert_below found new)
  insert_below-IsBalanced found new t end other (h, valid) =
      let (k, (hl, hr, left, right, tilt), around) =
        unzip found.path (node found.left found.here found.tilt found.right) h
          (subst (λ x. IsAvl x h) (sym end.in_whole) valid) in
      insert_at found new t hl hr k end (Side-of found other) left right tilt around

  -- The answers of a lookup.
  pub data Looked (key : K) (t : Tree K) : Type ℓ where
    nowhere : find_rec comp key t [] ≡ none → is_null t ≡ true → Looked key t
    at_key :
        (found : Found K)
        → find_rec comp key t [] ≡ some found
        → found.diff ≡ eq
        → IsEnd comp key t found
        → Looked key t
    beside :
        (found : Found K)
        → find_rec comp key t [] ≡ some found
        → found.diff ≢ eq
        → IsEnd comp key t found
        → Looked key t

  pub find_rec-none :
      (key : K) (t : Tree K) (path : List (Step K))
      → find_rec comp key t path ≡ none
      → is_null t ≡ true
  unfolding find_rec
  find_rec-none key leaf path at = refl
  find_rec-none key (node l n b r) path at = ground (
    arith,
    find_rec-none key l (left_of n b r ∷ path),
    find_rec-none key r (right_of l n b ∷ path),
  )

  Looked-at :
      (key : K) (t : Tree K) (o : Option (Found K)) → find_rec comp key t [] ≡ o → Looked key t
  Looked-at key t none at = nowhere at (find_rec-none key t [] at)
  Looked-at key t (some found) at =
      let end = find_rec-IsEnd comp key t [] found at in
      elim (ordering_of found.diff) [
        | is_eq same ↦ at_key found at same end
        | is_lt other ↦ beside found at (ground arith) end
        | is_gt other ↦ beside found at (ground arith) end
      ]

  pub looked : (key : K) (t : Tree K) → Looked key t
  looked key t = Looked-at key t (find_rec comp key t []) refl

  -- `avl_insert` leaves a balanced tree balanced, whatever the comparator is.
  pub avl_insert-IsBalanced :
      (new : AvlNode K) (tree : AvlTree K)
      → IsBalanced tree.root
      → IsBalanced (avl_insert comp new tree).0.root
  unfolding avl_insert
  avl_insert-IsBalanced new tree valid = elim (looked new.key tree.root) [
    | nowhere at empty ↦ rw (at, avl_insert) (1, single-IsAvl new)
    | at_key found at same end ↦ elim (bool_of tree.allow_dups) [
      | is_true e ↦ rw (at, same, e, avl_insert) valid
      | is_false e ↦ rw (at, same, e, avl_insert) valid
    ]
    | beside found at other end ↦ elim (Side-of found other) [
      | to_left side ↦
          rw (at, side, avl_insert) (insert_below-IsBalanced found new tree.root end other valid)
      | to_right side ↦
          rw (at, side, avl_insert) (insert_below-IsBalanced found new tree.root end other valid)
    ]
  ]
