-- ===== src/Common/Avl/Linked.antt =====
-- The linked list of an AVL tree has the elements of the tree in their order, after `avl_insert` and
-- after `avl_remove`.
use olsrd.Base.{
  ℕ, ◌==◌, ==_iff, ◌≡◌, ◌≢◌, ◌∙◌, sym, ap, refl, subst, Bool, true, false, ◌&&◌, Option, none, some,
  List, [], ◌∷◌, All, arith,
}
use olsrd.Common.Avl.{AvlNode}
use olsrd.Common.Avl.Cases.{is_true, is_false, bool_of}
use olsrd.Common.Avl.Inorder.{inorder}
use olsrd.Common.Avl.Distinct.{IsNamed, IsAbsent, IsDistinct, forget, swap, swap_absent}
use olsrd.Common.Avl.Leaders.{members, leaders, leaders-IsAbsent}
use olsrd.Common.Avl.Forget.{heir, succeed, avl_remove-succeed}
use olsrd.Common.Avl.Ops.{
  AvlTree, list_remove, unfollow, is_follower, next_element, avl_remove, remove_leader,
}

module _ {ℓ} {K : Type ℓ} where
  -- The list and the tree agree, and the elements are different objects.
  pub record IsLinked (tree : AvlTree K) : Type ℓ where
    pub in_order : leaders tree.list_head ≡ inorder tree.root
    pub different : IsDistinct (members tree.list_head)

  pub leaders-IsDistinct :
      (list : List (AvlNode K × Bool)) → IsDistinct (members list) → IsDistinct (leaders list)
  unfolding members leaders
  leaders-IsDistinct [] distinct = tt
  leaders-IsDistinct ((e, true) ∷ list) (absent, distinct) = leaders-IsDistinct list distinct
  leaders-IsDistinct ((e, false) ∷ list) (absent, distinct) =
      (leaders-IsAbsent e.name list absent, leaders-IsDistinct list distinct)

  -- The elements of a tree are different.
  pub inorder-IsDistinct : (tree : AvlTree K) → IsLinked tree → IsDistinct (inorder tree.root)
  inorder-IsDistinct tree linked =
      subst IsDistinct linked.in_order (leaders-IsDistinct tree.list_head linked.different)

  pub members-list_remove :
      (P : AvlNode K → Type 0) (name : ℕ) (list : List (AvlNode K × Bool))
      → All P (members list)
      → All P (members (list_remove name list))
  unfolding members list_remove
  members-list_remove P name [] all = tt
  members-list_remove P name (e ∷ list) (p, all) =
      ground (arith, members-list_remove P name list all)

  pub list_remove-IsDistinct :
      (name : ℕ) (list : List (AvlNode K × Bool))
      → IsDistinct (members list)
      → IsDistinct (members (list_remove name list))
  unfolding members list_remove
  list_remove-IsDistinct name [] distinct = tt
  list_remove-IsDistinct name (e ∷ list) (absent, distinct) = elim (bool_of (e.0.name == name)) [
    | is_true q ↦ rw (q, list_remove) distinct
    | is_false q ↦
        rw (q, list_remove, members)
          (
            members-list_remove (IsNamed e.0.name) name list absent,
            list_remove-IsDistinct name list distinct,
          )
  ]

  pub members-unfollow :
      (name : ℕ) (list : List (AvlNode K × Bool)) → members (unfollow name list) ≡ members list
  unfolding members unfollow
  members-unfollow name [] = refl
  members-unfollow name (e ∷ list) = grind (arith, members-unfollow name list)

  leaders-list_remove_follower :
      (name : ℕ) (list : List (AvlNode K × Bool))
      → is_follower name list ≡ true
      → leaders (list_remove name list) ≡ leaders list
  unfolding leaders list_remove is_follower
  leaders-list_remove_follower name [] follows = refl
  leaders-list_remove_follower name (e ∷ list) follows =
      grind (arith, leaders-list_remove_follower name list)

  leaders-list_remove :
      (name : ℕ) (list : List (AvlNode K × Bool))
      → is_follower name list ≡ false
      → leaders (list_remove name list) ≡ forget name (leaders list)
  unfolding leaders list_remove is_follower forget
  leaders-list_remove name [] follows = refl
  leaders-list_remove name ((e, true) ∷ list) follows = grind (arith, leaders-list_remove name list)
  leaders-list_remove name ((e, false) ∷ list) follows =
      grind (arith, leaders-list_remove name list)

  -- The follower behind an element takes over its place.
  next_named :
      (other name : ℕ) (next : AvlNode K × Bool) (list : List (AvlNode K × Bool))
      → next_element name list ≡ some next
      → IsAbsent other (members list)
      → next.0.name ≢ other
  unfolding members next_element
  next_named other name next [] at absent = absurd (ground arith)
  next_named other name next (e ∷ []) at absent = absurd (ground arith)
  next_named other name next (e ∷ f ∷ list) at (p, (q, absent)) =
      ground (arith, next_named other name next (f ∷ list), p, q, absent)

  take_over :
      (name : ℕ) (e f : AvlNode K × Bool) (list : List (AvlNode K × Bool))
      → e.0.name ≡ name
      → e.1 ≡ false
      → f.1 ≡ true
      → IsDistinct (members (e ∷ f ∷ list))
      → leaders (list_remove name (unfollow f.0.name (e ∷ f ∷ list)))
        ≡ swap name f.0 (leaders (e ∷ f ∷ list))
  unfolding members leaders unfollow list_remove swap
  take_over name e f list here leads marked ((other, absent), distinct) =
      let rest =
        swap_absent name f.0 (leaders list)
          (subst (λ x. IsAbsent x (leaders list)) here (leaders-IsAbsent e.0.name list absent)) in
      grind (
        arith,
        here,
        leads,
        marked,
        rest,
        other,
        ==_iff e.0.name f.0.name,
        ==_iff f.0.name f.0.name,
        ==_iff e.0.name name,
      )

  pass_by :
      (name other : ℕ) (new : AvlNode K) (e : AvlNode K × Bool) (list : List (AvlNode K × Bool))
      → e.0.name ≢ name
      → e.0.name ≢ other
      → leaders (list_remove name (unfollow other list)) ≡ swap name new (leaders list)
      → leaders (list_remove name (unfollow other (e ∷ list))) ≡ swap name new (leaders (e ∷ list))
  unfolding leaders unfollow list_remove swap
  pass_by name other new e list p q rest =
      grind (arith, p, q, rest, ==_iff e.0.name name, ==_iff e.0.name other)

  leaders-unfollow :
      (name : ℕ) (next : AvlNode K × Bool) (list : List (AvlNode K × Bool))
      → is_follower name list ≡ false
      → next_element name list ≡ some next
      → next.1 ≡ true
      → IsDistinct (members list)
      → leaders (list_remove name (unfollow next.0.name list)) ≡ swap name next.0 (leaders list)
  unfolding members leaders is_follower next_element unfollow list_remove swap
  leaders-unfollow name next [] leads at marked distinct = absurd (ground arith)
  leaders-unfollow name next (e ∷ []) leads at marked distinct = absurd (ground arith)
  leaders-unfollow name next (e ∷ f ∷ list) leads at marked (absent, distinct) =
      elim (bool_of (e.0.name == name)) [
        | is_true q ↦
            let here = (==_iff e.0.name name).0 q in
            let same : f ≡ next = ground (arith, at, q) in
            subst
              (λ x.
                leaders (list_remove name (unfollow x.0.name (e ∷ f ∷ list)))
                ≡ swap name x.0 (leaders (e ∷ f ∷ list)))
              same
              (take_over name e f list here (ground (arith, leads, q)) (ap (λ x. x.1) same ∙ marked)
                (absent, distinct))
        | is_false q ↦
            let later : next_element name (f ∷ list) ≡ some next = ground (arith, at, q) in
            let away = next_named e.0.name name next (f ∷ list) later absent in
            pass_by name next.0.name next.0 e (f ∷ list)
              (λ x. ground (arith, q, ==_iff e.0.name name, x)) (λ x. away (sym x))
              (leaders-unfollow name next (f ∷ list) (ground (arith, leads, q)) later marked
                distinct)
      ]

  -- The list after the removal of an element that is in the tree.
  leader_at :
      (name : ℕ) (tree : AvlTree K) (o : Option (AvlNode K × Bool))
      → next_element name tree.list_head ≡ o
      → is_follower name tree.list_head ≡ false
      → IsDistinct (members tree.list_head)
      → (leaders (list_remove name (remove_leader name tree).list_head)
          ≡ succeed name (heir name tree) (leaders tree.list_head))
        × IsDistinct (members (list_remove name (remove_leader name tree).list_head))
  unfolding remove_leader heir
  leader_at name tree none at leads distinct =
      rw (at, remove_leader, heir)
        (
          leaders-list_remove name tree.list_head leads,
          list_remove-IsDistinct name tree.list_head distinct,
        )
  leader_at name tree (some next) at leads distinct = elim (bool_of (tree.allow_dups && next.1)) [
    | is_true e ↦
        let marked : next.1 ≡ true = ground (arith, e) in
        let kept = subst IsDistinct (sym (members-unfollow next.0.name tree.list_head)) distinct in
        rw (at, e, remove_leader, heir)
          (
            leaders-unfollow name next tree.list_head leads at marked distinct,
            list_remove-IsDistinct name (unfollow next.0.name tree.list_head) kept,
          )
    | is_false e ↦
        rw (at, e, remove_leader, heir)
          (
            leaders-list_remove name tree.list_head leads,
            list_remove-IsDistinct name tree.list_head distinct,
          )
  ]

  -- `avl_remove` keeps the list and the tree in step.
  pub avl_remove-IsLinked :
      (name : ℕ) (tree : AvlTree K) → IsLinked tree → IsLinked (avl_remove name tree)
  unfolding avl_remove
  avl_remove-IsLinked name tree linked =
      let order = avl_remove-succeed name tree (inorder-IsDistinct tree linked) in
      elim (bool_of (is_follower name tree.list_head)) [
        | is_true e ↦ record {
          in_order =
              rw (e, avl_remove)
                (leaders-list_remove_follower name tree.list_head e ∙ linked.in_order);
          different =
              rw (e, avl_remove) (list_remove-IsDistinct name tree.list_head linked.different);
        }
        | is_false e ↦
            let (now, kept) =
              leader_at name tree (next_element name tree.list_head) refl e linked.different in
            let inside : inorder (avl_remove name tree).root
                ≡ succeed name (heir name tree) (inorder tree.root) =
              order ∙ rw e refl in
            let outside : leaders (avl_remove name tree).list_head
                ≡ succeed name (heir name tree) (leaders tree.list_head) =
              rw (e, avl_remove) now in
            record {
              in_order = outside ∙ ap (succeed name (heir name tree)) linked.in_order ∙ sym inside;
              different = rw (e, avl_remove) kept;
            }
      ]
