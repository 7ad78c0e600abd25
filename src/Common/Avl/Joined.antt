-- ===== src/Common/Avl/Joined.antt =====
-- `avl_insert` puts a new element into the linked list where it is put into the tree.
use Prim.Native.Nat.{Ordering}
use Prim.Native.Nat.Ordering.{eq}
use mathlib.Core.List.{append_assoc}
use olsrd.Base.{
  ℕ, ◌==◌, ==_iff, ◌≡◌, ◌≢◌, ◌∙◌, sym, ap, refl, subst, Bool, true, false, if◌then◌else◌, List, [],
  ◌∷◌, ◌++◌, All, All-split, arith,
}
use olsrd.Common.Avl.{AvlNode, Tree, node}
use olsrd.Common.Avl.Cases.{is_true, is_false, bool_of}
use olsrd.Common.Avl.Balance.{Tilt, left_high, even, right_high, IsAvl, IsBalanced}
use olsrd.Common.Avl.Place.{unzip, IsEnd}
use olsrd.Common.Avl.Inorder.{inorder, before, behind, inorder-zip}
use olsrd.Common.Avl.Distinct.{IsNamed, IsAbsent, IsDistinct, apart}
use olsrd.Common.Avl.Leaders.{
  members, leaders, put_before, put_behind, IsLeading, leaders-IsAbsent, leaders-list_add_before,
  leaders-list_add_after_follower, leaders-list_add_after,
}
use olsrd.Common.Avl.Linked.{IsLinked, leaders-IsDistinct}
use olsrd.Common.Avl.Insert.{
  Side, to_left, to_right, Side-of, null_height, nowhere, at_key, beside, looked,
}
use olsrd.Common.Avl.Refine.{placed, null_inorder, insert_below-placed}
use olsrd.Common.Avl.Ops.{
  AvlTree, Found, list_add_before, list_add_after, find_last, goes_before, insert_below, avl_insert,
}

module _ {ℓ} {K : Type ℓ} where
  put_before_at :
      (new n : AvlNode K) (xs ys : List (AvlNode K))
      → IsAbsent n.name xs
      → put_before n.name new (xs ++ n ∷ ys) ≡ xs ++ new ∷ n ∷ ys
  unfolding put_before
  put_before_at new n [] ys absent = ground (arith, ==_iff n.name n.name)
  put_before_at new n (x ∷ xs) ys (other, absent) =
      grind (arith, put_before_at new n xs ys absent, ==_iff x.name n.name, other)

  put_behind_at :
      (new n : AvlNode K) (xs ys : List (AvlNode K))
      → IsAbsent n.name xs
      → put_behind n.name new (xs ++ n ∷ ys) ≡ xs ++ n ∷ new ∷ ys
  unfolding put_behind
  put_behind_at new n [] ys absent = ground (arith, ==_iff n.name n.name)
  put_behind_at new n (x ∷ xs) ys (other, absent) =
      grind (arith, put_behind_at new n xs ys absent, ==_iff x.name n.name, other)

  IsLeading-absent :
      (name : ℕ) (list : List (AvlNode K × Bool))
      → IsAbsent name (members list)
      → IsLeading name list
  unfolding members
  IsLeading-absent name [] absent = tt
  IsLeading-absent name (e ∷ list) (other, absent) =
      (λ marked. other, IsLeading-absent name list absent)

  -- The name of an element of the tree is that of no follower.
  IsLeading-of :
      (list : List (AvlNode K × Bool)) (xs : List (AvlNode K)) (n : AvlNode K)
      (ys : List (AvlNode K))
      → leaders list ≡ xs ++ n ∷ ys
      → IsDistinct (members list)
      → IsLeading n.name list
  unfolding members leaders
  IsLeading-of [] [] n ys same distinct = tt
  IsLeading-of [] (x ∷ xs) n ys same distinct = tt
  IsLeading-of ((e, true) ∷ list) xs n ys same (absent, distinct) =
      let (_, (other, _)) =
        All-split (IsNamed e.name) xs (n ∷ ys)
          (subst (IsAbsent e.name) same (leaders-IsAbsent e.name list absent)) in
      (λ marked q. other (sym q), IsLeading-of list xs n ys same distinct)
  IsLeading-of ((e, false) ∷ list) [] n ys same (absent, distinct) =
      let here : e ≡ n = ground (arith, same) in
      (
        λ marked. absurd (ground (arith, marked)),
        subst (λ x. IsLeading x list) (ap (λ x. x.name) here) (IsLeading-absent e.name list absent),
      )
  IsLeading-of ((e, false) ∷ list) (x ∷ xs) n ys same (absent, distinct) = (
    λ marked. absurd (ground (arith, marked)),
    IsLeading-of list xs n ys (ground (arith, same)) distinct,
  )

  pub members-list_add_before :
      (P : AvlNode K → Type 0) (name : ℕ) (new : AvlNode K × Bool) (list : List (AvlNode K × Bool))
      → P new.0
      → All P (members list)
      → All P (members (list_add_before name new list))
  unfolding members list_add_before
  members-list_add_before P name new [] p all = tt
  members-list_add_before P name new (e ∷ list) p (q, all) =
      ground (arith, members-list_add_before P name new list p all)

  pub members-list_add_after :
      (P : AvlNode K → Type 0) (name : ℕ) (new : AvlNode K × Bool) (list : List (AvlNode K × Bool))
      → P new.0
      → All P (members list)
      → All P (members (list_add_after name new list))
  unfolding members list_add_after
  members-list_add_after P name new [] p all = tt
  members-list_add_after P name new (e ∷ list) p (q, all) =
      ground (arith, members-list_add_after P name new list p all)

  list_add_before-IsDistinct :
      (name : ℕ) (new : AvlNode K × Bool) (list : List (AvlNode K × Bool))
      → IsAbsent new.0.name (members list)
      → IsDistinct (members list)
      → IsDistinct (members (list_add_before name new list))
  unfolding members list_add_before
  list_add_before-IsDistinct name new [] fresh distinct = tt
  list_add_before-IsDistinct name new (e ∷ list) (other, fresh) (absent, distinct) =
      elim (bool_of (e.0.name == name)) [
        | is_true q ↦ rw (q, list_add_before, members) ((other, fresh), (absent, distinct))
        | is_false q ↦
            rw (q, list_add_before, members)
              (
                members-list_add_before (IsNamed e.0.name) name new list (λ w. other (sym w))
                    absent,
                list_add_before-IsDistinct name new list fresh distinct,
              )
      ]

  list_add_after-IsDistinct :
      (name : ℕ) (new : AvlNode K × Bool) (list : List (AvlNode K × Bool))
      → IsAbsent new.0.name (members list)
      → IsDistinct (members list)
      → IsDistinct (members (list_add_after name new list))
  unfolding members list_add_after
  list_add_after-IsDistinct name new [] fresh distinct = tt
  list_add_after-IsDistinct name new (e ∷ list) (other, fresh) (absent, distinct) =
      elim (bool_of (e.0.name == name)) [
        | is_true q ↦
            rw (q, list_add_after, members) ((λ w. other (sym w), absent), (fresh, distinct))
        | is_false q ↦
            rw (q, list_add_after, members)
              (
                members-list_add_after (IsNamed e.0.name) name new list (λ w. other (sym w)) absent,
                list_add_after-IsDistinct name new list fresh distinct,
              )
      ]

module _ {ℓ} {K : Type ℓ} (comp : K → K → Ordering) where
  abbrev is_left : (found : Found K) → Side comp found → Bool
  is_left found (to_left side) = true
  is_left found (to_right side) = false

  goes_before-Side :
      (found : Found K) (new : AvlNode K) (t : Tree K) (hl hr k : ℕ)
      → IsEnd comp new.key t found
      → (side : Side comp found) → IsAvl found.left hl
      → IsAvl found.right hr
      → Tilt found.tilt hl hr k
      → goes_before found ≡ is_left found side
  goes_before-Side found new t hl hr k end (to_left side) left right (left_high at_b in_ top) =
      absurd (omega (arith, null_height comp found.left hl (end.left_end side) left))
  goes_before-Side found new t hl hr k end (to_left side) left right (even at_b in_ top) =
      rw (at_b, side) refl
  goes_before-Side found new t hl hr k end (to_left side) left right (right_high at_b in_ top) =
      rw at_b refl
  goes_before-Side found new t hl hr k end (to_right side) left right (left_high at_b in_ top) =
      rw at_b refl
  goes_before-Side found new t hl hr k end (to_right side) left right (even at_b in_ top) =
      rw (at_b, side) refl
  goes_before-Side found new t hl hr k end (to_right side) left right (right_high at_b in_ top) =
      absurd (omega (arith, null_height comp found.right hr (end.right_end side) right))

  -- The list with a new element beside the place of a lookup.
  join_at :
      (found : Found K) (new : AvlNode K) (t : Tree K) (list : List (AvlNode K × Bool))
      → IsEnd comp new.key t found
      → (side : Side comp found) → leaders list ≡ inorder t
      → IsDistinct (members list)
      → leaders (
          if is_left found side
          then list_add_before found.here.name (new, false) list
          else list_add_after (find_last found.here.name list) (new, false) list)
        ≡ before found.path ++ placed comp found new side ++ behind found.path
  unfolding inorder
  join_at found new t list end (to_left side) linked distinct =
      let xs = before found.path in
      let ys = inorder found.right ++ behind found.path in
      let empty = null_inorder comp found.left (end.left_end side) in
      let all : leaders list ≡ xs ++ found.here ∷ ys =
        linked
        ∙ ap inorder (sym end.in_whole)
        ∙ inorder-zip found.path (node found.left found.here found.tilt found.right)
        ∙ rw empty (simp append_assoc) in
      let s = apart xs found.here ys (subst IsDistinct all (leaders-IsDistinct list distinct)) in
      let leading = IsLeading-of list xs found.here ys all distinct in
      leaders-list_add_before found.here.name new list leading
      ∙ ap (put_before found.here.name new) all
      ∙ put_before_at new found.here xs ys s.absent_before
      ∙ (simp append_assoc)
  join_at found new t list end (to_right side) linked distinct =
      let xs = before found.path ++ inorder found.left in
      let ys = behind found.path in
      let empty = null_inorder comp found.right (end.right_end side) in
      let all : leaders list ≡ xs ++ found.here ∷ ys =
        linked
        ∙ ap inorder (sym end.in_whole)
        ∙ inorder-zip found.path (node found.left found.here found.tilt found.right)
        ∙ rw empty (simp append_assoc) in
      let s = apart xs found.here ys (subst IsDistinct all (leaders-IsDistinct list distinct)) in
      let leading = IsLeading-of list xs found.here ys all distinct in
      leaders-list_add_after found.here.name new list leading distinct
      ∙ ap (put_behind found.here.name new) all
      ∙ put_behind_at new found.here xs ys s.absent_before
      ∙ (simp append_assoc)

  join-IsLinked :
      (found : Found K) (new : AvlNode K) (tree : AvlTree K)
      → IsEnd comp new.key tree.root found
      → found.diff ≢ eq
      → IsBalanced tree.root
      → IsLinked tree
      → leaders (
          if goes_before found
          then list_add_before found.here.name (new, false) tree.list_head
          else list_add_after
              (find_last found.here.name tree.list_head)
              (new, false)
              tree.list_head)
        ≡ inorder (insert_below found new)
  join-IsLinked found new tree end other (h, valid) linked =
      let here = node found.left found.here found.tilt found.right in
      let (k, (hl, hr, left, right, tilt), near) =
        unzip found.path here h (subst (λ x. IsAvl x h) (sym end.in_whole) valid) in
      let side = Side-of comp found other in
      rw (goes_before-Side found new tree.root hl hr k end side left right tilt) (
        join_at found new tree.root tree.list_head end side linked.in_order linked.different
        ∙ sym (insert_below-placed comp found new tree.root hl hr k end side left right tilt))

  -- Both ways to add an element leave the elements different.
  either-IsDistinct :
      (c : Bool) (a b : ℕ) (new : AvlNode K × Bool) (list : List (AvlNode K × Bool))
      → IsAbsent new.0.name (members list)
      → IsDistinct (members list)
      → IsDistinct (members (if c then list_add_before a new list else list_add_after b new list))
  either-IsDistinct true a b new list fresh distinct =
      list_add_before-IsDistinct a new list fresh distinct
  either-IsDistinct false a b new list fresh distinct =
      list_add_after-IsDistinct b new list fresh distinct

  -- `avl_insert` of a new object into a balanced tree keeps the list and the tree in step.
  pub avl_insert-IsLinked :
      (new : AvlNode K) (tree : AvlTree K)
      → IsBalanced tree.root
      → IsLinked tree
      → IsAbsent new.name (members tree.list_head)
      → IsLinked (avl_insert comp new tree).0
  unfolding avl_insert leaders inorder members
  avl_insert-IsLinked new tree valid linked fresh = elim (looked comp new.key tree.root) [
    | nowhere at empty ↦ record {
      in_order =
          rw (at, avl_insert, leaders, inorder)
            (ap (λ x. new ∷ x) (linked.in_order ∙ null_inorder comp tree.root empty));
      different = rw (at, avl_insert, members) (fresh, linked.different);
    }
    | at_key found at same end ↦ elim (bool_of tree.allow_dups) [
      | is_true e ↦ record {
        in_order =
            rw (at, same, e, avl_insert)
              (leaders-list_add_after_follower found.here.name new tree.list_head
                ∙ linked.in_order);
        different =
            rw (at, same, e, avl_insert)
              (list_add_after-IsDistinct found.here.name (new, true) tree.list_head fresh
                linked.different);
      }
      | is_false e ↦ record {
        in_order = rw (at, same, e, avl_insert) linked.in_order;
        different = rw (at, same, e, avl_insert) linked.different;
      }
    ]
    | beside found at other end ↦
        let kept =
          either-IsDistinct (goes_before found) found.here.name
            (find_last found.here.name tree.list_head) (new, false) tree.list_head fresh
            linked.different in
        let now = join-IsLinked found new tree end other valid linked in
        elim (Side-of comp found other) [
          | to_left side ↦ record {
            in_order = rw (at, side, avl_insert) now;
            different = rw (at, side, avl_insert) kept;
          }
          | to_right side ↦ record {
            in_order = rw (at, side, avl_insert) now;
            different = rw (at, side, avl_insert) kept;
          }
        ]
  ]
