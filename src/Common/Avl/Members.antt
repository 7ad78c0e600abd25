-- ===== src/Common/Avl/Members.antt =====
-- The elements of an AVL tree after `avl_insert` and `avl_remove`.
use Prim.Native.Nat.{Ordering}
use olsrd.Base.{
  ℕ, ◌==◌, ==_iff, ◌≡◌, sym, subst, refl, Bool, true, false, ◌&&◌, if◌then◌else◌, Option, none,
  some, List, [], ◌∷◌, All, arith,
}
use olsrd.Common.Avl.{AvlNode}
use olsrd.Common.Avl.Cases.{is_true, is_false, bool_of}
use olsrd.Common.Avl.Distinct.{IsAbsent, IsDistinct}
use olsrd.Common.Avl.Insert.{to_left, to_right, Side-of, nowhere, at_key, beside, looked}
use olsrd.Common.Avl.Leaders.{members}
use olsrd.Common.Avl.Linked.{members-list_remove, members-unfollow}
use olsrd.Common.Avl.Joined.{members-list_add_before, members-list_add_after}
use olsrd.Common.Avl.Ops.{
  AvlTree, list_add_before, list_add_after, list_remove, find_last, goes_before, is_follower,
  next_element, remove_leader, avl_insert, avl_remove,
}

module _ {ℓ} {K : Type ℓ} where
  -- `avl_remove` links a list out of which the element goes and that has the same elements.
  leader_members :
      (name : ℕ) (tree : AvlTree K) (o : Option (AvlNode K × Bool))
      → next_element name tree.list_head ≡ o
      → members (remove_leader name tree).list_head ≡ members tree.list_head
  unfolding remove_leader
  leader_members name tree none at = rw (at, remove_leader) refl
  leader_members name tree (some next) at = elim (bool_of (tree.allow_dups && next.1)) [
    | is_true e ↦ rw (at, e, remove_leader) (members-unfollow next.0.name tree.list_head)
    | is_false e ↦ rw (at, e, remove_leader) refl
  ]

  list_remove-IsAbsent :
      (name : ℕ) (list : List (AvlNode K × Bool))
      → IsDistinct (members list)
      → IsAbsent name (members (list_remove name list))
  unfolding members list_remove
  list_remove-IsAbsent name [] distinct = tt
  list_remove-IsAbsent name (e ∷ list) (absent, distinct) = elim (bool_of (e.0.name == name)) [
    | is_true q ↦
        rw (q, list_remove)
          (subst (λ x. IsAbsent x (members list)) ((==_iff e.0.name name).0 q) absent)
    | is_false q ↦
        rw (q, list_remove, members)
          (λ w. ground (arith, q, w, ==_iff e.0.name name), list_remove-IsAbsent name list distinct)
  ]

  -- The elements after `avl_remove` are among those before, and not the removed one.
  pub avl_remove-members :
      (P : AvlNode K → Type 0) (name : ℕ) (tree : AvlTree K)
      → IsDistinct (members tree.list_head)
      → All P (members tree.list_head)
      → All P (members (avl_remove name tree).list_head)
        × IsAbsent name (members (avl_remove name tree).list_head)
  unfolding avl_remove
  avl_remove-members P name tree distinct all = elim (bool_of (is_follower name tree.list_head)) [
    | is_true e ↦
        rw (e, avl_remove)
          (
            members-list_remove P name tree.list_head all,
            list_remove-IsAbsent name tree.list_head distinct,
          )
    | is_false e ↦
        let list = (remove_leader name tree).list_head in
        let same = sym (leader_members name tree (next_element name tree.list_head) refl) in
        rw (e, avl_remove)
          (
            members-list_remove P name list (subst (All P) same all),
            list_remove-IsAbsent name list (subst IsDistinct same distinct),
          )
  ]

  either_way :
      (P : AvlNode K → Type 0) (c : Bool) (a b : ℕ) (new : AvlNode K × Bool)
      (list : List (AvlNode K × Bool))
      → P new.0
      → All P (members list)
      → All P (members (if c then list_add_before a new list else list_add_after b new list))
  either_way P true a b new list p all = members-list_add_before P a new list p all
  either_way P false a b new list p all = members-list_add_after P b new list p all

  -- The elements after `avl_insert` are those before and the new one.
  pub avl_insert-members :
      (comp : K → K → Ordering) (P : AvlNode K → Type 0) (new : AvlNode K) (tree : AvlTree K)
      → P new
      → All P (members tree.list_head)
      → All P (members (avl_insert comp new tree).0.list_head)
  unfolding avl_insert members
  avl_insert-members comp P new tree p all = elim (looked comp new.key tree.root) [
    | nowhere at empty ↦ rw (at, avl_insert, members) (p, all)
    | at_key found at same end ↦ elim (bool_of tree.allow_dups) [
      | is_true e ↦
          rw (at, same, e, avl_insert)
            (members-list_add_after P found.here.name (new, true) tree.list_head p all)
      | is_false e ↦ rw (at, same, e, avl_insert) all
    ]
    | beside found at other end ↦
        let kept =
          either_way P (goes_before found) found.here.name
            (find_last found.here.name tree.list_head) (new, false) tree.list_head p all in
        elim (Side-of comp found other) [
          | to_left side ↦ rw (at, side, avl_insert) kept
          | to_right side ↦ rw (at, side, avl_insert) kept
        ]
  ]
