-- ===== src/Common/Tree/Count.antt =====
-- Counting the elements of a tree that pass a test, and what the operations do to the count.
use olsrd.Base.{
  Bool-cases, inl, inr, ◌∙◌, ℕ, ◌+◌, ◌≡◌, refl, Bool, true, false, none, some, List, [], ◌∷◌, arith,
}
use olsrd.Common.Tree.{Key, find, insert, update, remove, find-remove, find-update}

abbrev pub one : Bool → ℕ
one true = 1
one false = 0

module _ {ℓ κ} {K : Type ℓ} {V : Type κ} ⦃k : Key K⦄ where
  -- No key stands twice.
  abbrev pub IsTree : List (K × V) → Type κ
  IsTree [] = Unit
  IsTree ((a, v) ∷ t) = (find a t ≡ none) × IsTree t

  pub update-absent : (a : K) (v : V) (t : List (K × V)) → find a t ≡ none → update a v t ≡ t
  unfolding find update
  update-absent a v [] h = refl
  update-absent a v ((b, w) ∷ t) h = grind (arith, update-absent a v t)

  pub remove-absent : (a : K) (t : List (K × V)) → find a t ≡ none → remove a t ≡ t
  unfolding find remove
  remove-absent a [] h = refl
  remove-absent a ((b, w) ∷ t) h = grind (arith, remove-absent a t)

  pub update-IsTree : (a : K) (v : V) (t : List (K × V)) → IsTree t → IsTree (update a v t)
  unfolding update
  update-IsTree a v [] tree = tree
  update-IsTree a v ((b, w) ∷ t) tree =
      let rest = update-IsTree a v t tree.1 in
      let gone = find-update a b v t in
      let absent : find b (update a v t) ≡ none = grind (arith, gone, tree.0) in
      elim (Bool-cases (k.same b a)) [ inl h ↦ rw h (absent, rest) | inr h ↦ rw h (absent, rest) ]

  pub remove-IsTree : (a : K) (t : List (K × V)) → IsTree t → IsTree (remove a t)
  unfolding remove
  remove-IsTree a [] tree = tree
  remove-IsTree a ((b, w) ∷ t) tree =
      let rest = remove-IsTree a t tree.1 in
      let gone = find-remove a b t in
      let absent : find b (remove a t) ≡ none = grind (arith, gone, tree.0) in
      elim (Bool-cases (k.same b a)) [ inl h ↦ rw h rest | inr h ↦ rw h (absent, rest) ]

  insert_other :
      (a b : K) (v : V) (t : List (K × V)) → k.same b a ≡ false → find b (insert a v t) ≡ find b t
  unfolding insert find
  insert_other a b v [] h = grind (arith, k.same_iff a b, k.same_iff b a)
  insert_other a b v ((c, x) ∷ t) h =
      grind (arith, insert_other a b v t, k.same_iff c b, k.same_iff c a, k.same_iff b a)

  pub insert-IsTree : (a : K) (v : V) (t : List (K × V)) → IsTree t → IsTree (insert a v t)
  unfolding insert find
  insert-IsTree a v [] tree = (refl, tree)
  insert-IsTree a v ((b, w) ∷ t) tree =
      let rest = insert-IsTree a v t tree.1 in
      elim (Bool-cases (k.same b a)) [
        | inl h ↦ rw h tree
        | inr h ↦ rw h (insert_other a b v t h ∙ tree.0, rest)
      ]

module _ {ℓ κ} {K : Type ℓ} {V : Type κ} ⦃k : Key K⦄ (test : V → Bool) where
  abbrev pub count : List (K × V) → ℕ
  count [] = 0
  count ((a, v) ∷ t) = one (test v) + count t

  pub count-update :
      (a : K) (v w : V) (t : List (K × V))
      → IsTree t
      → find a t ≡ some v
      → count (update a w t) + one (test v) ≡ count t + one (test w)
  unfolding find update
  count-update a v w [] tree h = absurd (ground arith)
  count-update a v w ((b, x) ∷ t) tree h =
      grind (arith, count-update a v w t, update-absent a w t, k.same_iff b a)

  pub count-remove :
      (a : K) (v : V) (t : List (K × V))
      → IsTree t
      → find a t ≡ some v
      → count (remove a t) + one (test v) ≡ count t
  unfolding find remove
  count-remove a v [] tree h = absurd (ground arith)
  count-remove a v ((b, x) ∷ t) tree h =
      grind (arith, count-remove a v t, remove-absent a t, k.same_iff b a)

  pub count-insert :
      (a : K) (v : V) (t : List (K × V))
      → find a t ≡ none
      → count (insert a v t) ≡ one (test v) + count t
  unfolding find insert
  count-insert a v [] h = refl
  count-insert a v ((b, x) ∷ t) h = grind (arith, count-insert a v t)
