-- ===== src/Common/Avl/Distinct.antt =====
-- Lists of elements with different names, as the elements of an AVL tree are different objects.
use olsrd.Base.{
  ℕ, ◌==◌, ==_iff, ◌≡◌, ◌≢◌, sym, refl, if◌then◌else◌, List, [], ◌∷◌, ◌++◌, All, All-split,
  All-append, arith,
}
use olsrd.Common.Avl.{AvlNode}

module _ {ℓ} {K : Type ℓ} where
  abbrev pub IsNamed : ℕ → AvlNode K → Type 0
  IsNamed name x = x.name ≢ name

  -- The name is that of no element.
  abbrev pub IsAbsent : ℕ → List (AvlNode K) → Type 0
  IsAbsent name xs = All (IsNamed name) xs

  abbrev pub IsDistinct : List (AvlNode K) → Type 0
  IsDistinct [] = Unit {0}
  IsDistinct (x ∷ xs) = IsAbsent x.name xs × IsDistinct xs

  -- The elements but the one of a name, and with another one in the place of each that has the name.
  unfoldable pub forget : ℕ → List (AvlNode K) → List (AvlNode K)
  forget name [] = []
  forget name (x ∷ xs) = if x.name == name then xs else x ∷ forget name xs

  unfoldable pub swap : ℕ → AvlNode K → List (AvlNode K) → List (AvlNode K)
  swap name new [] = []
  swap name new (x ∷ xs) = if x.name == name then new ∷ swap name new xs else x ∷ swap name new xs

  pub forget_absent : (name : ℕ) (xs : List (AvlNode K)) → IsAbsent name xs → forget name xs ≡ xs
  unfolding forget
  forget_absent name [] absent = refl
  forget_absent name (x ∷ xs) (other, absent) =
      grind (arith, forget_absent name xs absent, ==_iff x.name name)

  pub forget_at :
      (name : ℕ) (xs : List (AvlNode K)) (n : AvlNode K) (ys : List (AvlNode K))
      → n.name ≡ name
      → IsAbsent name xs
      → forget name (xs ++ n ∷ ys) ≡ xs ++ ys
  unfolding forget
  forget_at name [] n ys here absent = grind (arith, ==_iff n.name name)
  forget_at name (x ∷ xs) n ys here (other, absent) =
      grind (arith, forget_at name xs n ys here absent, ==_iff x.name name)

  pub swap_absent :
      (name : ℕ) (new : AvlNode K) (xs : List (AvlNode K))
      → IsAbsent name xs
      → swap name new xs ≡ xs
  unfolding swap
  swap_absent name new [] absent = refl
  swap_absent name new (x ∷ xs) (other, absent) =
      grind (arith, swap_absent name new xs absent, ==_iff x.name name)

  pub swap-append :
      (name : ℕ) (new : AvlNode K) (xs ys : List (AvlNode K))
      → swap name new (xs ++ ys) ≡ swap name new xs ++ swap name new ys
  unfolding swap
  swap-append name new [] ys = refl
  swap-append name new (x ∷ xs) ys = grind (arith, swap-append name new xs ys)

  pub swap_at :
      (name : ℕ) (new : AvlNode K) (xs : List (AvlNode K)) (n : AvlNode K) (ys : List (AvlNode K))
      → n.name ≡ name
      → IsAbsent name xs
      → IsAbsent name ys
      → swap name new (xs ++ n ∷ ys) ≡ xs ++ new ∷ ys
  unfolding swap
  swap_at name new [] n ys here absent other =
      grind (arith, ==_iff n.name name, swap_absent name new ys other)
  swap_at name new (x ∷ xs) n ys here (p, absent) other =
      grind (arith, swap_at name new xs n ys here absent other, ==_iff x.name name)

  -- An element of a list of different ones is not on either side of itself.
  pub record IsApart (xs : List (AvlNode K)) (p : AvlNode K) (ys : List (AvlNode K)) : Type ℓ where
    pub absent_before : IsAbsent p.name xs
    pub absent_behind : IsAbsent p.name ys
    pub front : IsDistinct xs
    pub back : IsDistinct ys
    pub rest : IsDistinct (xs ++ ys)

  pub apart :
      (xs : List (AvlNode K)) (p : AvlNode K) (ys : List (AvlNode K))
      → IsDistinct (xs ++ p ∷ ys)
      → IsApart xs p ys
  apart [] p ys (absent, distinct) = record {
    absent_before = tt;
    absent_behind = absent;
    front = tt;
    back = distinct;
    rest = distinct;
  }
  apart (x ∷ xs) p ys (absent, distinct) =
      let s = apart xs p ys distinct in
      let (before, (here, behind)) = All-split (IsNamed x.name) xs (p ∷ ys) absent in
      record {
        absent_before = (λ e. here (sym e), s.absent_before);
        absent_behind = s.absent_behind;
        front = (before, s.front);
        back = s.back;
        rest = (All-append (IsNamed x.name) xs ys before behind, s.rest);
      }
