-- ===== src/Common/Avl/Inorder.antt =====
-- The order of the elements in the AVL tree: a rotation, and with it the rebalancing, keeps it.
use mathlib.Core.List.{append_assoc, append-nil}
use olsrd.Base.{
  ◌≡◌, ◌∙◌, sym, ap, refl, ℤ, pos, negsuc, ◌+ℤ◌, ◌-ℤ◌, eq_ℤ, Bool, true, false, if◌then◌else◌, List,
  [], ◌∷◌, ◌++◌,
}
use olsrd.Common.Avl.{
  AvlNode, Tree, leaf, node, Step, left_of, right_of, zip, balance, rotate_left, rotate_right,
  post_insert, post_remove,
}

module _ {ℓ} {K : Type ℓ} where
  -- The elements from left to right.
  unfoldable pub inorder : Tree K → List (AvlNode K)
  inorder leaf = []
  inorder (node l n b r) = inorder l ++ n ∷ inorder r

  -- The elements before a place, and those behind it.
  unfoldable pub before : List (Step K) → List (AvlNode K)
  before [] = []
  before (left_of p b r ∷ path) = before path
  before (right_of l p b ∷ path) = before path ++ inorder l ++ p ∷ []

  unfoldable pub behind : List (Step K) → List (AvlNode K)
  behind [] = []
  behind (left_of p b r ∷ path) = p ∷ inorder r ++ behind path
  behind (right_of l p b ∷ path) = behind path

  pub inorder-zip :
      (path : List (Step K)) (t : Tree K)
      → inorder (zip t path) ≡ before path ++ inorder t ++ behind path
  unfolding inorder before behind
  inorder-zip [] t = sym (append-nil (inorder t))
  inorder-zip (left_of p b r ∷ path) t = simp (inorder-zip path (node t p b r), append_assoc)
  inorder-zip (right_of l p b ∷ path) t = simp (inorder-zip path (node l p b t), append_assoc)

  pub inorder-rotate_right : (t : Tree K) → inorder (rotate_right t) ≡ inorder t
  unfolding inorder rotate_right
  inorder-rotate_right leaf = refl
  inorder-rotate_right (node leaf n b r) = refl
  inorder-rotate_right (node (node ll m d lr) n b r) =
      sym (append_assoc (inorder ll) (m ∷ inorder lr) (n ∷ inorder r))

  pub inorder-rotate_left : (t : Tree K) → inorder (rotate_left t) ≡ inorder t
  unfolding inorder rotate_left
  inorder-rotate_left leaf = refl
  inorder-rotate_left (node l n b leaf) = refl
  inorder-rotate_left (node l n b (node rl m d rr)) = simp append_assoc

  chosen :
      (c : Bool) (x y : Tree K) (w : List (AvlNode K))
      → inorder x ≡ w
      → inorder y ≡ w
      → inorder (if c then x else y) ≡ w
  chosen true x y w p q = p
  chosen false x y w p q = q

  -- The elements of the tree with a subtree at a place.
  abbrev pub around : List (Step K) → Tree K → List (AvlNode K)
  around path t = before path ++ inorder t ++ behind path

  up_left :
      (path : List (Step K)) (t : Tree K) (p : AvlNode K) (b c : ℤ) (r : Tree K)
      → around path (node t p b r) ≡ around (left_of p c r ∷ path) t
  unfolding inorder before behind
  up_left path t p b c r = simp append_assoc

  up_right :
      (path : List (Step K)) (l : Tree K) (p : AvlNode K) (b c : ℤ) (t : Tree K)
      → around path (node l p b t) ≡ around (right_of l p c ∷ path) t
  unfolding inorder before behind
  up_right path l p b c t = simp append_assoc

  -- A recursion with the same elements at the place above.
  on_left :
      (path : List (Step K)) (u t : Tree K) (p : AvlNode K) (b c : ℤ) (r x : Tree K)
      → inorder x ≡ around path u
      → inorder u ≡ inorder (node t p b r)
      → inorder x ≡ around (left_of p c r ∷ path) t
  on_left path u t p b c r x further same =
      further ∙ ap (λ y. before path ++ y ++ behind path) same ∙ up_left path t p b c r

  on_right :
      (path : List (Step K)) (u l : Tree K) (p : AvlNode K) (b c : ℤ) (t x : Tree K)
      → inorder x ≡ around path u
      → inorder u ≡ inorder (node l p b t)
      → inorder x ≡ around (right_of l p c ∷ path) t
  on_right path u l p b c t x further same =
      further ∙ ap (λ y. before path ++ y ++ behind path) same ∙ up_right path l p b c t

  -- A subtree with the same elements at a place.
  at_left :
      (path : List (Step K)) (u t : Tree K) (p : AvlNode K) (b c : ℤ) (r : Tree K)
      → inorder u ≡ inorder (node t p b r)
      → inorder (zip u path) ≡ around (left_of p c r ∷ path) t
  at_left path u t p b c r same = on_left path u t p b c r (zip u path) (inorder-zip path u) same

  at_right :
      (path : List (Step K)) (u l : Tree K) (p : AvlNode K) (b c : ℤ) (t : Tree K)
      → inorder u ≡ inorder (node l p b t)
      → inorder (zip u path) ≡ around (right_of l p c ∷ path) t
  at_right path u l p b c t same = on_right path u l p b c t (zip u path) (inorder-zip path u) same

  double_right :
      (t : Tree K) (p : AvlNode K) (b : ℤ) (r : Tree K)
      → inorder (rotate_right (node (rotate_left t) p b r)) ≡ inorder (node t p b r)
  unfolding inorder
  double_right t p b r =
      inorder-rotate_right (node (rotate_left t) p b r)
      ∙ ap (λ x. x ++ p ∷ inorder r) (inorder-rotate_left t)

  double_left :
      (l : Tree K) (p : AvlNode K) (b : ℤ) (t : Tree K)
      → inorder (rotate_left (node l p b (rotate_right t))) ≡ inorder (node l p b t)
  unfolding inorder
  double_left l p b t =
      inorder-rotate_left (node l p b (rotate_right t))
      ∙ ap (λ x. inorder l ++ p ∷ x) (inorder-rotate_right t)

  pub inorder-post_insert :
      (path : List (Step K)) (t : Tree K) → inorder (post_insert t path) ≡ around path t
  unfolding post_insert
  inorder-post_insert [] t = inorder-zip [] t
  inorder-post_insert (left_of p b r ∷ path) t =
      let d = b -ℤ pos 1 in
      let all = around (left_of p b r ∷ path) t in
      chosen (eq_ℤ d (pos 0)) _ _ all (at_left path _ t p d b r refl) (
        chosen (eq_ℤ d (negsuc 0)) _ _ all
          (inorder-post_insert path (node t p d r) ∙ up_left path t p d b r)
          (chosen (eq_ℤ (balance t) (negsuc 0)) _ _ all
            (at_left path _ t p d b r (inorder-rotate_right (node t p d r)))
            (at_left path _ t p d b r (double_right t p d r))))
  inorder-post_insert (right_of l p b ∷ path) t =
      let d = b +ℤ pos 1 in
      let all = around (right_of l p b ∷ path) t in
      chosen (eq_ℤ d (pos 0)) _ _ all (at_right path _ l p d b t refl) (
        chosen (eq_ℤ d (pos 1)) _ _ all
          (inorder-post_insert path (node l p d t) ∙ up_right path l p d b t)
          (chosen (eq_ℤ (balance t) (pos 1)) _ _ all
            (at_right path _ l p d b t (inorder-rotate_left (node l p d t)))
            (at_right path _ l p d b t (double_left l p d t))))

  pub inorder-post_remove :
      (path : List (Step K)) (t : Tree K) → inorder (post_remove t path) ≡ around path t
  unfolding post_remove
  inorder-post_remove [] t = inorder-zip [] t
  inorder-post_remove (left_of p b r ∷ path) t =
      let d = b +ℤ pos 1 in
      let all = around (left_of p b r ∷ path) t in
      let up : (u : Tree K)
          → inorder u ≡ inorder (node t p d r)
          → inorder (post_remove u path) ≡ all =
        λ u. on_left path u t p d b r (post_remove u path) (inorder-post_remove path u) in
      chosen (eq_ℤ d (pos 0)) _ _ all (up (node t p d r) refl) (
        chosen (eq_ℤ d (pos 1)) _ _ all (at_left path _ t p d b r refl) (
          chosen (eq_ℤ (balance r) (pos 0)) _ _ all
            (at_left path _ t p d b r (inorder-rotate_left (node t p d r)))
            (chosen (eq_ℤ (balance r) (pos 1)) _ _ all
              (up (rotate_left (node t p d r)) (inorder-rotate_left (node t p d r)))
              (up (rotate_left (node t p d (rotate_right r))) (double_left t p d r)))))
  inorder-post_remove (right_of l p b ∷ path) t =
      let d = b -ℤ pos 1 in
      let all = around (right_of l p b ∷ path) t in
      let up : (u : Tree K)
          → inorder u ≡ inorder (node l p d t)
          → inorder (post_remove u path) ≡ all =
        λ u. on_right path u l p d b t (post_remove u path) (inorder-post_remove path u) in
      chosen (eq_ℤ d (pos 0)) _ _ all (up (node l p d t) refl) (
        chosen (eq_ℤ d (negsuc 0)) _ _ all (at_right path _ l p d b t refl) (
          chosen (eq_ℤ (balance l) (pos 0)) _ _ all
            (at_right path _ l p d b t (inorder-rotate_right (node l p d t)))
            (chosen (eq_ℤ (balance l) (negsuc 0)) _ _ all
              (up (rotate_right (node l p d t)) (inorder-rotate_right (node l p d t)))
              (up (rotate_right (node (rotate_left l) p d t)) (double_right l p d t)))))
