-- ===== src/Common/Tree.antt =====
-- The AVL tree of src-api/common/avl.c without duplicate keys, as the map that it holds: an
-- element found under its key, inserted if the key is new, removed, or changed in place through the
-- pointer that a lookup gave. The tree itself is in Common.Avl.
pub mod Count
use mathlib.Core.Option
use olsrd.Base.{
  ℕ, ◌==◌, ==_iff, Bool, true, ◌≡◌, refl, ◌↔◌, Option, none, some, List, [], ◌∷◌, if◌then◌else◌,
  arith,
}

-- A comparator that answers 0 exactly at equal keys.
pub record Key {ℓ} (K : Type ℓ) : Type ℓ where
  pub same : K → K → Bool
  pub same_iff : (a b : K) → (same a b ≡ true) ↔ (a ≡ b)

pub same_refl {ℓ} : {K : Type ℓ} ⦃k : Key K⦄ (a : K) → k.same a a ≡ true
same_refl ⦃k⦄ a = (k.same_iff a a).1 refl

module _ {ℓ κ} {K : Type ℓ} {V : Type κ} ⦃k : Key K⦄ where
  -- `avl_find`
  unfoldable pub find : K → List (K × V) → Option V
  find a [] = none
  find a ((b, v) ∷ t) = if k.same b a then some v else find a t

  -- `avl_insert`, which leaves the tree alone where the key is present.
  unfoldable pub insert : K → V → List (K × V) → List (K × V)
  insert a v [] = (a, v) ∷ []
  insert a v ((b, w) ∷ t) = if k.same b a then (b, w) ∷ t else (b, w) ∷ insert a v t

  -- `avl_remove` of the element under a key.
  unfoldable pub remove : K → List (K × V) → List (K × V)
  remove a [] = []
  remove a ((b, w) ∷ t) = if k.same b a then remove a t else (b, w) ∷ remove a t

  -- A write through the pointer to the element under a key.
  unfoldable pub update : K → V → List (K × V) → List (K × V)
  update a v [] = []
  update a v ((b, w) ∷ t) = if k.same b a then (b, v) ∷ update a v t else (b, w) ∷ update a v t

  pub find-remove :
      (a b : K) (t : List (K × V)) → find b (remove a t) ≡ (if k.same a b then none else find b t)
  unfolding find remove
  find-remove a b [] = ground arith
  find-remove a b ((c, w) ∷ t) =
      grind (arith, find-remove a b t, k.same_iff c a, k.same_iff c b, k.same_iff a b)

  pub find-insert :
      (a b : K) (v : V) (t : List (K × V))
      → find a t ≡ none
      → find b (insert a v t) ≡ (if k.same a b then some v else find b t)
  unfolding find insert
  find-insert a b v [] h = refl
  find-insert a b v ((c, w) ∷ t) h =
      grind (arith, find-insert a b v t, k.same_iff c a, k.same_iff c b, k.same_iff a b)

  pub find-update :
      (a b : K) (v : V) (t : List (K × V))
      → find b (update a v t) ≡ (if k.same a b then Option.map (λ _. v) (find b t) else find b t)
  unfolding find update
  find-update a b v [] = ground arith
  find-update a b v ((c, x) ∷ t) =
      grind (arith, find-update a b v t, k.same_iff c a, k.same_iff c b, k.same_iff a b)

-- The identity of an object in a store.
instance abbrev pub number_key : Key ℕ
number_key = record { same = ◌==◌; same_iff = ==_iff }
