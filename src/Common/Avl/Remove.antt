-- ===== src/Common/Avl/Remove.antt =====
-- `avl_remove` leaves a balanced tree.
use olsrd.Base.{
  ℕ, suc, ◌≡◌, sym, subst, refl, ℤ, ◌==◌, Bool, true, false, ◌&&◌, if◌then◌else◌, Option, none,
  some, List, [], ◌∷◌, arith,
}
use olsrd.Common.Avl.Cases.{is_true, is_false, bool_of}
use olsrd.Common.Avl.{AvlNode, Tree, leaf, node, Step, right_of, zip, post_remove}
use olsrd.Common.Avl.Balance.{Tilt, left_high, even, right_high, IsAvl, IsAround, IsBalanced}
use olsrd.Common.Avl.Rebalance.{IsAround-at, post_remove-IsBalanced}
use olsrd.Common.Avl.Place.{unzip, local_min-zip, locate-whole}
use olsrd.Common.Avl.Ops.{
  AvlTree, Found, local_min, replace, remove_worker, locate, remove_node, remove_leader,
  next_element, is_follower, avl_remove,
}

module _ {ℓ} {K : Type ℓ} where
  replace-IsAvl :
      (name : ℕ) (new : AvlNode K) (t : Tree K) (h : ℕ) → IsAvl t h → IsAvl (replace name new t) h
  unfolding replace
  replace-IsAvl name new leaf h valid = valid
  replace-IsAvl name new (node l n b r) h (hl, hr, left, right, tilt) =
      elim (n.name == name)
        as (λ x.
          IsAvl (if x then node l new b r else node (replace name new l) n b (replace name new r))
            h) [
              | true ↦ (hl, hr, left, right, tilt)
              | false ↦ (
                hl,
                hr,
                replace-IsAvl name new l hl left,
                replace-IsAvl name new r hr right,
                tilt,
              )
            ]

  replace-IsBalanced :
      (name : ℕ) (new : AvlNode K) (t : Tree K) → IsBalanced t → IsBalanced (replace name new t)
  replace-IsBalanced name new t (h, valid) = (h, replace-IsAvl name new t h valid)

  -- A node with at most one child gives its place to the child.
  left_gone :
      (n : AvlNode K) (b : ℤ) (r : Tree K) (path : List (Step K)) (hl hr k : ℕ)
      → hl ≡ 0
      → IsAvl r hr
      → Tilt b hl hr k
      → IsAround path k
      → IsBalanced (post_remove r path)
  left_gone n b r path hl hr k low right (left_high at_b in_ top) around = absurd (omega arith)
  left_gone n b r path hl hr k low right (even at_b in_ top) around =
      post_remove-IsBalanced path r hr right (IsAround-at path k (suc hr) (omega arith) around)
  left_gone n b r path hl hr k low right (right_high at_b in_ top) around =
      post_remove-IsBalanced path r hr right (IsAround-at path k (suc hr) (omega arith) around)

  right_gone :
      (n : AvlNode K) (b : ℤ) (l : Tree K) (path : List (Step K)) (hl hr k : ℕ)
      → hr ≡ 0
      → IsAvl l hl
      → Tilt b hl hr k
      → IsAround path k
      → IsBalanced (post_remove l path)
  right_gone n b l path hl hr k low left (left_high at_b in_ top) around =
      post_remove-IsBalanced path l hl left (IsAround-at path k (suc hl) (omega arith) around)
  right_gone n b l path hl hr k low left (even at_b in_ top) around =
      post_remove-IsBalanced path l hl left (IsAround-at path k (suc hl) (omega arith) around)
  right_gone n b l path hl hr k low left (right_high at_b in_ top) around = absurd (omega arith)

  without_left :
      (n : AvlNode K) (b : ℤ) (r : Tree K) (path : List (Step K))
      → IsBalanced (zip (node leaf n b r) path)
      → IsBalanced (post_remove r path)
  without_left n b r path (h, valid) =
      let (k, (hl, hr, left, right, tilt), around) = unzip path (node leaf n b r) h valid in
      left_gone n b r path hl hr k left right tilt around

  without_right :
      (n : AvlNode K) (b : ℤ) (l : Tree K) (path : List (Step K))
      → IsBalanced (zip (node l n b leaf) path)
      → IsBalanced (post_remove l path)
  without_right n b l path (h, valid) =
      let (k, (hl, hr, left, right, tilt), around) = unzip path (node l n b leaf) h valid in
      right_gone n b l path hl hr k right left tilt around

  remove_worker-IsBalanced :
      (l : Tree K) (n : AvlNode K) (b : ℤ) (r : Tree K) (path : List (Step K))
      → IsBalanced (zip (node l n b r) path)
      → IsBalanced (remove_worker l n b r path)
  unfolding remove_worker
  remove_worker-IsBalanced leaf n b leaf path valid = without_left n b leaf path valid
  remove_worker-IsBalanced leaf n b (node rl rn rb rr) path valid =
      without_left n b (node rl rn rb rr) path valid
  remove_worker-IsBalanced (node ll ln lb lr) n b leaf path valid =
      without_right n b (node ll ln lb lr) path valid
  remove_worker-IsBalanced (node ll ln lb lr) n b (node rl rn rb rr) path valid =
      let way = right_of (node ll ln lb lr) n b ∷ path in
      let min = local_min rl rn rb rr way in
      let (d, same) = local_min-zip rl rn rb rr way in
      replace-IsBalanced n.name min.0 (post_remove min.1.0 min.1.1)
        (without_left min.0 d min.1.0 min.1.1 (subst IsBalanced (sym same) valid))

  remove_at :
      (name : ℕ) (root : Tree K) (o : Option (Found K))
      → locate name root [] ≡ o
      → IsBalanced root
      → IsBalanced (remove_node name root)
  unfolding remove_node
  remove_at name root none at valid = rw (at, remove_node) valid
  remove_at name root (some found) at valid =
      rw (at, remove_node)
        (remove_worker-IsBalanced found.left found.here found.tilt found.right found.path
          (subst IsBalanced (sym (locate-whole name root [] found at).0) valid))

  remove_node-IsBalanced :
      (name : ℕ) (root : Tree K) → IsBalanced root → IsBalanced (remove_node name root)
  remove_node-IsBalanced name root valid = remove_at name root (locate name root []) refl valid

  leader_at :
      (name : ℕ) (tree : AvlTree K) (o : Option (AvlNode K × Bool))
      → next_element name tree.list_head ≡ o
      → IsBalanced tree.root
      → IsBalanced (remove_leader name tree).root
  unfolding remove_leader
  leader_at name tree none at valid =
      rw (at, remove_leader) (remove_node-IsBalanced name tree.root valid)
  leader_at name tree (some next) at valid = elim (bool_of (tree.allow_dups && next.1)) [
    | is_true e ↦ rw (at, e, remove_leader) (replace-IsBalanced name next.0 tree.root valid)
    | is_false e ↦ rw (at, e, remove_leader) (remove_node-IsBalanced name tree.root valid)
  ]

  -- `avl_remove` leaves a balanced tree balanced, whichever node is removed.
  pub avl_remove-IsBalanced :
      (name : ℕ) (tree : AvlTree K) → IsBalanced tree.root → IsBalanced (avl_remove name tree).root
  unfolding avl_remove
  avl_remove-IsBalanced name tree valid = elim (bool_of (is_follower name tree.list_head)) [
    | is_true e ↦ rw (e, avl_remove) valid
    | is_false e ↦
        rw (e, avl_remove) (leader_at name tree (next_element name tree.list_head) refl valid)
  ]
