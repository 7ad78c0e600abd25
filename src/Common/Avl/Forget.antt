-- ===== src/Common/Avl/Forget.antt =====
-- `avl_remove` takes the node out of the elements that the tree stands for.
use mathlib.Core.List.{append_assoc, append-nil}
use olsrd.Base.{
  ℕ, ◌≡◌, ◌∙◌, sym, ap, refl, subst, ℤ, ◌==◌, ==_iff, Bool, ◌&&◌, if◌then◌else◌, Option, none, some,
  List, [], ◌∷◌, ◌++◌, arith, ap₂, All-split, All-append,
}
use olsrd.Common.Avl.Cases.{is_true, is_false, bool_of}
use olsrd.Common.Avl.{AvlNode, Tree, leaf, node, Step, left_of, right_of, post_remove}
use olsrd.Common.Avl.Place.{locate-whole}
use olsrd.Common.Avl.Inorder.{inorder, before, behind, around, inorder-zip, inorder-post_remove}
use olsrd.Common.Avl.Distinct.{
  IsNamed, IsAbsent, IsDistinct, forget, swap, forget_absent, forget_at, swap_at, swap-append,
  apart,
}
use olsrd.Common.Avl.Ops.{
  AvlTree, Found, local_min, replace, remove_worker, locate, remove_node, remove_leader,
  next_element, is_follower, avl_remove,
}

module _ {ℓ} {K : Type ℓ} where
  replace_absent :
      (name : ℕ) (new : AvlNode K) (t : Tree K)
      → IsAbsent name (inorder t)
      → inorder (replace name new t) ≡ inorder t
  unfolding replace inorder
  replace_absent name new leaf absent = refl
  replace_absent name new (node l n b r) absent =
      let (left, (other, right)) = All-split (IsNamed name) (inorder l) (n ∷ inorder r) absent in
      grind
        (arith, replace_absent name new l left, replace_absent name new r right, ==_iff n.name name)

  -- The place in the order of a replaced node is that of the other one.
  pub inorder-replace :
      (name : ℕ) (new : AvlNode K) (t : Tree K)
      → IsDistinct (inorder t)
      → inorder (replace name new t) ≡ swap name new (inorder t)
  unfolding replace inorder swap
  inorder-replace name new leaf distinct = refl
  inorder-replace name new (node l n b r) distinct =
      let s = apart (inorder l) n (inorder r) distinct in
      elim (bool_of (n.name == name)) [
        | is_true e ↦
            let here = (==_iff n.name name).0 e in
            rw (e, replace)
              (sym (
                swap_at name new (inorder l) n (inorder r) here
                  (subst (λ x. IsAbsent x (inorder l)) here s.absent_before)
                  (subst (λ x. IsAbsent x (inorder r)) here s.absent_behind)))
        | is_false e ↦
            rw (e, replace)
              (ap₂ (λ x y. x ++ n ∷ y) (inorder-replace name new l s.front)
                  (inorder-replace name new r s.back)
                ∙ sym (swap-append name new (inorder l) (n ∷ inorder r) ∙ rw (e, swap) refl))
      ]

  -- The least node of a subtree, and the elements without it.
  record IsLeast (l : Tree K) (n : AvlNode K) (b : ℤ) (r : Tree K) (path : List (Step K))
      : Type ℓ where
    others : List (AvlNode K)
    first : inorder (node l n b r) ≡ (local_min l n b r path).0 ∷ others
    without :
        around (local_min l n b r path).1.1 (local_min l n b r path).1.0
        ≡ before path ++ others ++ behind path

  local_min-IsLeast :
      (l : Tree K) (n : AvlNode K) (b : ℤ) (r : Tree K) (path : List (Step K))
      → IsLeast l n b r path
  unfolding local_min inorder before behind
  local_min-IsLeast leaf n b r path = record { others = inorder r; first = refl; without = refl }
  local_min-IsLeast (node ll ln lb lr) n b r path =
      let s = local_min-IsLeast ll ln lb lr (left_of n b r ∷ path) in
      record {
        others = s.others ++ n ∷ inorder r;
        first = ap (λ x. x ++ n ∷ inorder r) s.first;
        without = s.without ∙ simp append_assoc;
      }

  -- A node that is replaced in a tree of different elements.
  replace_at :
      (new n : AvlNode K) (t : Tree K) (xs ys : List (AvlNode K))
      → inorder t ≡ xs ++ n ∷ ys
      → IsDistinct (xs ++ n ∷ ys)
      → inorder (replace n.name new t) ≡ xs ++ new ∷ ys
  replace_at new n t xs ys same distinct =
      let s = apart xs n ys distinct in
      inorder-replace n.name new t (subst IsDistinct (sym same) distinct)
      ∙ ap (swap n.name new) same
      ∙ swap_at n.name new xs n ys refl s.absent_before s.absent_behind

  -- The least node of the right side takes the place of a node.
  with_both :
      (l : Tree K) (n : AvlNode K) (b : ℤ) (rl : Tree K) (rn : AvlNode K) (rb : ℤ) (rr : Tree K)
      (path : List (Step K))
      → let min = local_min rl rn rb rr (right_of l n b ∷ path) in
        IsDistinct (around path (node l n b (node rl rn rb rr)))
        → inorder (replace n.name min.0 (post_remove min.1.0 min.1.1))
          ≡ before path ++ (inorder l ++ inorder (node rl rn rb rr)) ++ behind path
  unfolding inorder before behind
  with_both l n b rl rn rb rr path distinct =
      let way = right_of l n b ∷ path in
      let (min, (t, above)) = local_min rl rn rb rr way in
      let least = local_min-IsLeast rl rn rb rr way in
      let left = before path ++ inorder l in
      let rest = least.others ++ behind path in
      let all : around path (node l n b (node rl rn rb rr)) ≡ (left ++ n ∷ []) ++ min ∷ rest =
        ap (λ x. before path ++ (inorder l ++ n ∷ x) ++ behind path) least.first
        ∙ simp append_assoc in
      let kept = (apart (left ++ n ∷ []) min rest (subst IsDistinct all distinct)).rest in
      let joined : (left ++ n ∷ []) ++ rest ≡ left ++ n ∷ rest = simp append_assoc in
      let after : inorder (post_remove t above) ≡ left ++ n ∷ rest =
        inorder-post_remove above t ∙ least.without ∙ simp append_assoc in
      replace_at min n (post_remove t above) left rest after (subst IsDistinct joined kept)
      ∙ (simp append_assoc)
      ∙ ap (λ x. before path ++ (inorder l ++ x) ++ behind path) (sym least.first)

  -- `_avl_remove_worker` leaves the elements on both sides of the node.
  remove_worker-inorder :
      (l : Tree K) (n : AvlNode K) (b : ℤ) (r : Tree K) (path : List (Step K))
      → IsDistinct (around path (node l n b r))
      → inorder (remove_worker l n b r path)
        ≡ before path ++ (inorder l ++ inorder r) ++ behind path
  unfolding remove_worker inorder
  remove_worker-inorder leaf n b leaf path distinct = inorder-post_remove path leaf
  remove_worker-inorder leaf n b (node rl rn rb rr) path distinct =
      inorder-post_remove path (node rl rn rb rr)
  remove_worker-inorder (node ll ln lb lr) n b leaf path distinct =
      inorder-post_remove path (node ll ln lb lr) ∙ simp append-nil
  remove_worker-inorder (node ll ln lb lr) n b (node rl rn rb rr) path distinct =
      with_both (node ll ln lb lr) n b rl rn rb rr path distinct

  locate-none :
      (name : ℕ) (t : Tree K) (path : List (Step K))
      → locate name t path ≡ none
      → IsAbsent name (inorder t)
  unfolding locate inorder
  locate-none name leaf path at = tt
  locate-none name (node l n b r) path at =
      All-append (IsNamed name) (inorder l) (n ∷ inorder r)
        (ground (arith, locate-none name l (left_of n b r ∷ path)))
        (
          ground (arith, ==_iff n.name name),
          ground (arith, locate-none name r (right_of l n b ∷ path)),
        )

  remove_at :
      (name : ℕ) (root : Tree K) (o : Option (Found K))
      → locate name root [] ≡ o
      → IsDistinct (inorder root)
      → inorder (remove_node name root) ≡ forget name (inorder root)
  unfolding remove_node inorder
  remove_at name root none at distinct =
      rw (at, remove_node) (sym (forget_absent name (inorder root) (locate-none name root [] at)))
  remove_at name root (some found) at distinct =
      let (same, here) = locate-whole name root [] found at in
      let all =
        ap inorder (sym same)
        ∙ inorder-zip found.path (node found.left found.here found.tilt found.right) in
      let xs = before found.path ++ inorder found.left in
      let ys = inorder found.right ++ behind found.path in
      let parts : around found.path (node found.left found.here found.tilt found.right)
          ≡ xs ++ found.here ∷ ys =
        simp append_assoc in
      let s = apart xs found.here ys (subst IsDistinct (all ∙ parts) distinct) in
      rw (at, remove_node)
        (remove_worker-inorder found.left found.here found.tilt found.right found.path
            (subst IsDistinct all distinct)
          ∙ (simp append_assoc)
          ∙ sym (
              forget_at name xs found.here ys here
                (subst (λ x. IsAbsent x xs) here s.absent_before))
          ∙ ap (forget name) (sym (all ∙ parts)))

  -- The follower that takes over the place of an element.
  unfoldable pub heir : ℕ → AvlTree K → Option (AvlNode K)
  heir name tree = elim (next_element name tree.list_head) [
    | none ↦ none
    | some next ↦ if tree.allow_dups && next.1 then some next.0 else none
  ]

  -- What becomes of the order without an element.
  abbrev pub succeed : ℕ → Option (AvlNode K) → List (AvlNode K) → List (AvlNode K)
  succeed name none xs = forget name xs
  succeed name (some next) xs = swap name next xs

  leader_at :
      (name : ℕ) (tree : AvlTree K) (o : Option (AvlNode K × Bool))
      → next_element name tree.list_head ≡ o
      → IsDistinct (inorder tree.root)
      → inorder (remove_leader name tree).root ≡ succeed name (heir name tree) (inorder tree.root)
  unfolding remove_leader heir
  leader_at name tree none at distinct =
      rw (at, remove_leader, heir)
        (remove_at name tree.root (locate name tree.root []) refl distinct)
  leader_at name tree (some next) at distinct = elim (bool_of (tree.allow_dups && next.1)) [
    | is_true e ↦ rw (at, e, remove_leader, heir) (inorder-replace name next.0 tree.root distinct)
    | is_false e ↦
        rw (at, e, remove_leader, heir)
          (remove_at name tree.root (locate name tree.root []) refl distinct)
  ]

  -- `avl_remove` in a tree of different elements: one outside of the tree that follows another one with
  -- its key changes nothing of the tree; for another one, its first follower gets its place, and without
  -- a follower it is taken out of the order and the others stay as they are.
  pub avl_remove-succeed :
      (name : ℕ) (tree : AvlTree K)
      → IsDistinct (inorder tree.root)
      → inorder (avl_remove name tree).root ≡ (
          if is_follower name tree.list_head
          then inorder tree.root
          else succeed name (heir name tree) (inorder tree.root))
  unfolding avl_remove
  avl_remove-succeed name tree distinct = elim (bool_of (is_follower name tree.list_head)) [
    | is_true e ↦ rw (e, avl_remove) refl
    | is_false e ↦
        rw (e, avl_remove) (leader_at name tree (next_element name tree.list_head) refl distinct)
  ]
