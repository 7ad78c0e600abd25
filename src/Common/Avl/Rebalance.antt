-- ===== src/Common/Avl/Rebalance.antt =====
-- Rebalancing after an insertion and after a removal leaves a balanced tree.
use olsrd.Base.{ℕ, suc, ◌≡◌, ◌⊎◌, inl, inr, refl, subst, pos, negsuc, List, [], ◌∷◌, arith}
use olsrd.Common.Avl.{Tree, leaf, node, Step, left_of, right_of, balance, post_insert, post_remove}
use olsrd.Common.Avl.Balance.{
  left_high, even, right_high, IsAvl, IsAround, IsBalanced, zip-IsBalanced, at, single_right,
  even_right, double_right, single_left, even_left, double_left,
}

module _ {ℓ} {K : Type ℓ} where
  pub IsAround-at : (path : List (Step K)) (a b : ℕ) → a ≡ b → IsAround path a → IsAround path b
  IsAround-at path a b e around = subst (IsAround path) e around

  -- The field `balance` of a node that is higher on one side.
  abbrev pub Leans : Tree K → Type 0
  Leans t = (balance t ≡ negsuc 0) ⊎ (balance t ≡ pos 1)

  -- `_post_insert` at a node that leans and is higher by one than what was at its place.
  pub post_insert-IsBalanced :
      (path : List (Step K)) (t : Tree K) (h : ℕ)
      → IsAvl t (suc h)
      → Leans t
      → IsAround path h
      → IsBalanced (post_insert t path)
  unfolding post_insert
  post_insert-IsBalanced [] t h valid leans around = (suc h, valid)
  post_insert-IsBalanced (left_of p b r ∷ path) t h valid (inl lean)
        (hr, hp, right, left_high at_b side top, around) =
      rw (at_b, lean)
        (zip-IsBalanced path _ (suc (suc hr))
          (single_right t p r hr (at t (suc h) (suc (suc hr)) (omega arith) valid) lean right)
          (IsAround-at path hp (suc (suc hr)) (omega arith) around))
  post_insert-IsBalanced (left_of p b r ∷ path) t h valid (inr lean)
        (hr, hp, right, left_high at_b side top, around) =
      rw (at_b, lean)
        (zip-IsBalanced path _ (suc (suc hr))
          (double_right t p r hr (at t (suc h) (suc (suc hr)) (omega arith) valid) lean right)
          (IsAround-at path hp (suc (suc hr)) (omega arith) around))
  post_insert-IsBalanced (left_of p b r ∷ path) t h valid leans
        (hr, hp, right, even at_b side top, around) =
      rw at_b (
        post_insert-IsBalanced path (node t p (negsuc 0) r) hp
          (suc h, hr, valid, right, left_high refl (omega arith) (omega arith)) (inl refl) around)
  post_insert-IsBalanced (left_of p b r ∷ path) t h valid leans
        (hr, hp, right, right_high at_b side top, around) =
      rw at_b (
        zip-IsBalanced path (node t p (pos 0) r) hp
          (suc h, hr, valid, right, even refl (omega arith) (omega arith)) around)
  post_insert-IsBalanced (right_of l p b ∷ path) t h valid leans
        (hl, hp, left, left_high at_b side top, around) =
      rw at_b (
        zip-IsBalanced path (node l p (pos 0) t) hp
          (hl, suc h, left, valid, even refl (omega arith) (omega arith)) around)
  post_insert-IsBalanced (right_of l p b ∷ path) t h valid leans
        (hl, hp, left, even at_b side top, around) =
      rw at_b (
        post_insert-IsBalanced path (node l p (pos 1) t) hp
          (hl, suc h, left, valid, right_high refl (omega arith) (omega arith)) (inr refl) around)
  post_insert-IsBalanced (right_of l p b ∷ path) t h valid (inl lean)
        (hl, hp, left, right_high at_b side top, around) =
      rw (at_b, lean)
        (zip-IsBalanced path _ (suc (suc hl))
          (double_left l p t hl (at t (suc h) (suc (suc hl)) (omega arith) valid) lean left)
          (IsAround-at path hp (suc (suc hl)) (omega arith) around))
  post_insert-IsBalanced (right_of l p b ∷ path) t h valid (inr lean)
        (hl, hp, left, right_high at_b side top, around) =
      rw (at_b, lean)
        (zip-IsBalanced path _ (suc (suc hl))
          (single_left l p t hl (at t (suc h) (suc (suc hl)) (omega arith) valid) lean left)
          (IsAround-at path hp (suc (suc hl)) (omega arith) around))

  -- The balance of a node.
  data Lean (t : Tree K) : Type 0 where
    leans_left : balance t ≡ negsuc 0 → Lean t
    leans_not : balance t ≡ pos 0 → Lean t
    leans_right : balance t ≡ pos 1 → Lean t

  Lean-of : (t : Tree K) (h : ℕ) → IsAvl t h → Lean t
  Lean-of leaf h valid = leans_not refl
  Lean-of (node l n b r) h (hl, hr, p, q, left_high at_b side top) = leans_left at_b
  Lean-of (node l n b r) h (hl, hr, p, q, even at_b side top) = leans_not at_b
  Lean-of (node l n b r) h (hl, hr, p, q, right_high at_b side top) = leans_right at_b

  -- `_avl_post_remove` at a tree that is lower by one than what was at its place.
  pub post_remove-IsBalanced :
      (path : List (Step K)) (t : Tree K) (h : ℕ)
      → IsAvl t h
      → IsAround path (suc h)
      → IsBalanced (post_remove t path)
  unfolding post_remove
  post_remove-IsBalanced [] t h valid around = (h, valid)
  post_remove-IsBalanced (left_of p b r ∷ path) t h valid
        (hr, hp, right, left_high at_b side top, around) =
      rw at_b (
        post_remove-IsBalanced path (node t p (pos 0) r) (suc h)
          (h, hr, valid, right, even refl (omega arith) (omega arith))
          (IsAround-at path hp (suc (suc h)) (omega arith) around))
  post_remove-IsBalanced (left_of p b r ∷ path) t h valid
        (hr, hp, right, even at_b side top, around) =
      rw at_b (
        zip-IsBalanced path (node t p (pos 1) r) hp
          (h, hr, valid, right, right_high refl (omega arith) (omega arith)) around)
  post_remove-IsBalanced (left_of p b r ∷ path) t h valid
        (hr, hp, right, right_high at_b side top, around) =
      let high = at r hr (suc (suc h)) (omega arith) right in
      elim (Lean-of r hr right) [
        | leans_not lean ↦
            rw (at_b, lean)
              (zip-IsBalanced path _ (suc (suc (suc h))) (even_left t p r h high lean valid)
                (IsAround-at path hp (suc (suc (suc h))) (omega arith) around))
        | leans_right lean ↦
            rw (at_b, lean)
              (post_remove-IsBalanced path _ (suc (suc h)) (single_left t p r h high lean valid)
                (IsAround-at path hp (suc (suc (suc h))) (omega arith) around))
        | leans_left lean ↦
            rw (at_b, lean)
              (post_remove-IsBalanced path _ (suc (suc h)) (double_left t p r h high lean valid)
                (IsAround-at path hp (suc (suc (suc h))) (omega arith) around))
      ]
  post_remove-IsBalanced (right_of l p b ∷ path) t h valid
        (hl, hp, left, left_high at_b side top, around) =
      let high = at l hl (suc (suc h)) (omega arith) left in
      elim (Lean-of l hl left) [
        | leans_not lean ↦
            rw (at_b, lean)
              (zip-IsBalanced path _ (suc (suc (suc h))) (even_right l p t h high lean valid)
                (IsAround-at path hp (suc (suc (suc h))) (omega arith) around))
        | leans_left lean ↦
            rw (at_b, lean)
              (post_remove-IsBalanced path _ (suc (suc h)) (single_right l p t h high lean valid)
                (IsAround-at path hp (suc (suc (suc h))) (omega arith) around))
        | leans_right lean ↦
            rw (at_b, lean)
              (post_remove-IsBalanced path _ (suc (suc h)) (double_right l p t h high lean valid)
                (IsAround-at path hp (suc (suc (suc h))) (omega arith) around))
      ]
  post_remove-IsBalanced (right_of l p b ∷ path) t h valid
        (hl, hp, left, even at_b side top, around) =
      rw at_b (
        zip-IsBalanced path (node l p (negsuc 0) t) hp
          (hl, h, left, valid, left_high refl (omega arith) (omega arith)) around)
  post_remove-IsBalanced (right_of l p b ∷ path) t h valid
        (hl, hp, left, right_high at_b side top, around) =
      rw at_b (
        post_remove-IsBalanced path (node l p (pos 0) t) (suc h)
          (hl, h, left, valid, even refl (omega arith) (omega arith))
          (IsAround-at path hp (suc (suc h)) (omega arith) around))
