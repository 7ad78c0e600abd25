-- ===== src/Common/Avl/Leaders.antt =====
-- The linked list of an AVL tree: its elements that follow no other one are those of the tree.
use olsrd.Base.{
  ℕ, ◌==◌, ==_iff, ◌≡◌, ◌≢◌, ◌∙◌, sym, ap, refl, Bool, true, false, if◌then◌else◌, List, [], ◌∷◌,
  ◌++◌, All, arith,
}
use olsrd.Common.Avl.{AvlNode}
use olsrd.Common.Avl.Cases.{is_true, is_false, bool_of}
use olsrd.Common.Avl.Distinct.{IsAbsent, IsDistinct}
use olsrd.Common.Avl.Ops.{list_add_before, list_add_after, last_follower, find_last}

module _ {ℓ} {K : Type ℓ} where
  -- The elements of the list, and those of them that are no followers.
  unfoldable pub members : List (AvlNode K × Bool) → List (AvlNode K)
  members [] = []
  members (e ∷ list) = e.0 ∷ members list

  unfoldable pub leaders : List (AvlNode K × Bool) → List (AvlNode K)
  leaders [] = []
  leaders (e ∷ list) = if e.1 then leaders list else e.0 ∷ leaders list

  -- A new element before or behind the one of a name.
  unfoldable pub put_before : ℕ → AvlNode K → List (AvlNode K) → List (AvlNode K)
  put_before name new [] = []
  put_before name new (x ∷ xs) = if x.name == name then new ∷ x ∷ xs else x ∷ put_before name new xs

  unfoldable pub put_behind : ℕ → AvlNode K → List (AvlNode K) → List (AvlNode K)
  put_behind name new [] = []
  put_behind name new (x ∷ xs) = if x.name == name then x ∷ new ∷ xs else x ∷ put_behind name new xs

  -- No follower has the name.
  abbrev pub IsLeading : ℕ → List (AvlNode K × Bool) → Type 0
  IsLeading name list = All (λ (e : AvlNode K × Bool). e.1 ≡ true → e.0.name ≢ name) list

  pub leaders-IsAbsent :
      (name : ℕ) (list : List (AvlNode K × Bool))
      → IsAbsent name (members list)
      → IsAbsent name (leaders list)
  unfolding members leaders
  leaders-IsAbsent name [] absent = tt
  leaders-IsAbsent name ((e, true) ∷ list) (other, absent) = leaders-IsAbsent name list absent
  leaders-IsAbsent name ((e, false) ∷ list) (other, absent) =
      (other, leaders-IsAbsent name list absent)

  pub leaders-list_add_before :
      (name : ℕ) (new : AvlNode K) (list : List (AvlNode K × Bool))
      → IsLeading name list
      → leaders (list_add_before name (new, false) list) ≡ put_before name new (leaders list)
  unfolding leaders list_add_before put_before
  leaders-list_add_before name new [] leading = refl
  leaders-list_add_before name new ((e, true) ∷ list) (other, leading) =
      grind (arith, leaders-list_add_before name new list leading, ==_iff e.name name, other refl)
  leaders-list_add_before name new ((e, false) ∷ list) (other, leading) =
      grind (arith, leaders-list_add_before name new list leading)

  pub leaders-list_add_after_follower :
      (name : ℕ) (new : AvlNode K) (list : List (AvlNode K × Bool))
      → leaders (list_add_after name (new, true) list) ≡ leaders list
  unfolding leaders list_add_after
  leaders-list_add_after_follower name new [] = refl
  leaders-list_add_after_follower name new (e ∷ list) =
      grind (arith, leaders-list_add_after_follower name new list)

  -- `_avl_find_last` ends at an element of the list.
  last_follower_other :
      (other name : ℕ) (list : List (AvlNode K × Bool))
      → name ≢ other
      → IsAbsent other (members list)
      → last_follower name list ≢ other
  unfolding members last_follower
  last_follower_other other name [] apart absent = apart
  last_follower_other other name ((e, true) ∷ list) apart (q, absent) =
      last_follower_other other e.name list q absent
  last_follower_other other name ((e, false) ∷ list) apart (q, absent) = apart

  find_last_other :
      (other name : ℕ) (list : List (AvlNode K × Bool))
      → name ≢ other
      → IsAbsent other (members list)
      → find_last name list ≢ other
  unfolding members find_last
  find_last_other other name [] apart absent = apart
  find_last_other other name (e ∷ list) apart (q, absent) = grind (
    arith,
    last_follower_other other name list apart absent,
    find_last_other other name list apart absent,
  )

  -- A new element behind the followers of one.
  behind_followers :
      (e : AvlNode K × Bool) (new : AvlNode K) (list : List (AvlNode K × Bool))
      → IsDistinct (members (e ∷ list))
      → leaders (list_add_after (last_follower e.0.name list) (new, false) (e ∷ list))
        ≡ leaders (e ∷ []) ++ new ∷ leaders list
  unfolding members leaders last_follower list_add_after
  behind_followers e new [] distinct = ground (arith, ==_iff e.0.name e.0.name)
  behind_followers e new ((f, false) ∷ list) distinct = ground (arith, ==_iff e.0.name e.0.name)
  behind_followers e new ((f, true) ∷ list) ((q, absent), distinct) = grind (
    arith,
    behind_followers (f, true) new list distinct,
    last_follower_other e.0.name f.name list q absent,
    ==_iff e.0.name (last_follower f.name list),
  )

  pub leaders-list_add_after :
      (name : ℕ) (new : AvlNode K) (list : List (AvlNode K × Bool))
      → IsLeading name list
      → IsDistinct (members list)
      → leaders (list_add_after (find_last name list) (new, false) list)
        ≡ put_behind name new (leaders list)
  unfolding members leaders find_last list_add_after put_behind
  leaders-list_add_after name new [] leading distinct = refl
  leaders-list_add_after name new (e ∷ list) (other, leading) (absent, distinct) =
      elim (bool_of (e.0.name == name)) [
        | is_true here ↦
            let same = (==_iff e.0.name name).0 here in
            let leads : e.1 ≡ false = ground (arith, other, same) in
            let end : find_last name (e ∷ list) ≡ last_follower e.0.name list =
              rw (here, find_last) (ap (λ x. last_follower x list) (sym same)) in
            ap (λ x. leaders (list_add_after x (new, false) (e ∷ list))) end
            ∙ behind_followers e new list (absent, distinct)
            ∙ rw (leads, leaders, put_behind) (rw (here, put_behind) refl)
        | is_false there ↦
            let other_name : name ≢ e.0.name = λ q. grind (arith, there, ==_iff e.0.name name, q) in
            let away = find_last_other e.0.name name list other_name absent in
            let end : find_last name (e ∷ list) ≡ find_last name list =
              rw (there, find_last) refl in
            ap (λ x. leaders (list_add_after x (new, false) (e ∷ list))) end
            ∙ grind (
              arith,
              leaders-list_add_after name new list leading distinct,
              ==_iff e.0.name (find_last name list),
              away,
              there,
            )
      ]
