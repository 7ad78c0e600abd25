-- ===== src/Common/Avl/Without.antt =====
-- Lookups after `avl_remove`.
use Prim.Native.Nat.{Ordering}
use Prim.Native.Nat.Ordering.{lt, eq}
use olsrd.Base.{
  ℕ, ◌==◌, ==_iff, ◌≡◌, ◌∙◌, sym, ap, refl, subst, false, if◌then◌else◌, Option, none, some, List,
  [], ◌∷◌, All, All-map, arith,
}
use olsrd.Common.Avl.{AvlNode}
use olsrd.Common.Avl.Cases.{is_true, is_false, bool_of}
use olsrd.Common.Avl.Inorder.{inorder}
use olsrd.Common.Avl.Sorted.{IsOrder, IsSorted, IsOther, lookup}
use olsrd.Common.Avl.Find.{avl_find-lookup}
use olsrd.Common.Avl.Distinct.{IsAbsent, IsDistinct, forget}
use olsrd.Common.Avl.Forget.{heir, avl_remove-succeed}
use olsrd.Common.Avl.Ops.{AvlTree, is_follower, avl_find, avl_remove}

module _ {ℓ} {K : Type ℓ} where
  -- An answer that is not the element of a name.
  abbrev pub unless : ℕ → Option (AvlNode K) → Option (AvlNode K)
  unless name none = none
  unless name (some n) = if n.name == name then none else some n

module _ {ℓ} {K : Type ℓ} (comp : K → K → Ordering) where
  unless_absent :
      (name : ℕ) (key : K) (xs : List (AvlNode K))
      → IsAbsent name xs
      → unless name (lookup comp key xs) ≡ lookup comp key xs
  unfolding lookup
  unless_absent name key [] absent = refl
  unless_absent name key (x ∷ xs) (other, absent) =
      ground (arith, unless_absent name key xs absent, ==_iff x.name name)

  lookup_other :
      (key : K) (xs : List (AvlNode K)) → All (IsOther comp key) xs → lookup comp key xs ≡ none
  unfolding lookup
  lookup_other key [] other = refl
  lookup_other key (x ∷ xs) (o, other) = ground (arith, lookup_other key xs other)

  All-forget :
      (P : AvlNode K → Type 0) (name : ℕ) (xs : List (AvlNode K))
      → All P xs
      → All P (forget name xs)
  unfolding forget
  All-forget P name [] all = tt
  All-forget P name (x ∷ xs) (p, all) = ground (arith, All-forget P name xs all)

  forget-IsSorted :
      (name : ℕ) (xs : List (AvlNode K)) → IsSorted comp xs → IsSorted comp (forget name xs)
  unfolding forget
  forget-IsSorted name [] sorted = tt
  forget-IsSorted name (x ∷ xs) (above, sorted) = elim (bool_of (x.name == name)) [
    | is_true e ↦ rw (e, forget) sorted
    | is_false e ↦
        rw (e, forget)
          (All-forget (λ y. comp x.key y.key ≡ lt) name xs above, forget-IsSorted name xs sorted)
  ]

  lookup-forget :
      (order : IsOrder comp) (name : ℕ) (key : K) (xs : List (AvlNode K))
      → IsSorted comp xs
      → IsDistinct xs
      → lookup comp key (forget name xs) ≡ unless name (lookup comp key xs)
  unfolding forget lookup
  lookup-forget order name key [] sorted distinct = refl
  lookup-forget order name key (x ∷ xs) (above, sorted) (absent, distinct) =
      let mine : comp key x.key ≡ eq → lookup comp key xs ≡ none = λ e.
        lookup_other key xs
          (All-map (λ y h. grind (arith, order.eq_left key x.key y.key e, h)) xs above) in
      grind (
        arith,
        lookup-forget order name key xs sorted distinct,
        unless_absent x.name key xs absent,
        ==_iff x.name name,
        mine,
      )

  -- `avl_remove` of an element of the tree that has no follower, from a sorted tree of different
  -- elements: the tree stays sorted, and a lookup finds what it found before, but never the element.
  pub avl_find-avl_remove :
      (order : IsOrder comp) (key : K) (name : ℕ) (tree : AvlTree K)
      → IsSorted comp (inorder tree.root)
      → IsDistinct (inorder tree.root)
      → is_follower name tree.list_head ≡ false
      → heir name tree ≡ none
      → IsSorted comp (inorder (avl_remove name tree).root)
        × (avl_find comp key (avl_remove name tree) ≡ unless name (avl_find comp key tree))
  avl_find-avl_remove order key name tree sorted distinct leads alone =
      let now : inorder (avl_remove name tree).root ≡ forget name (inorder tree.root) =
        avl_remove-succeed name tree distinct ∙ rw (leads, alone) refl in
      let kept =
        subst (IsSorted comp) (sym now) (forget-IsSorted name (inorder tree.root) sorted) in
      (
        kept,
        avl_find-lookup comp order key (avl_remove name tree) kept
            ∙ ap (lookup comp key) now
            ∙ lookup-forget order name key (inorder tree.root) sorted distinct
            ∙ ap (unless name) (sym (avl_find-lookup comp order key tree sorted)),
      )
