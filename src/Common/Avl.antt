-- ===== src/Common/Avl.antt =====
-- The AVL tree: src-api/common/avl.c and avl.h. A place in the tree is a subtree with the way to it,
-- which stands for the parent pointers; an element has a name for its address in memory.
pub mod Ops
pub mod Balance
pub mod Rebalance
pub mod Place
pub mod Cases
pub mod Inorder
pub mod Sorted
pub mod Find
pub mod Insort
pub mod Refine
pub mod Height
pub mod Distinct
pub mod Forget
pub mod Without
pub mod Leaders
pub mod Linked
pub mod Joined
pub mod Sound
pub mod Members
pub mod Nearest
pub mod Ceiling
mod Examples
pub mod Insert
pub mod Remove
use Prim.Native.Nat.{Ordering}
use Prim.Native.Nat.Ordering.{lt, eq, gt}
use olsrd.Base.{
  ℕ, ℤ, pos, negsuc, ◌+ℤ◌, ◌-ℤ◌, ltb_ℤ, eq_ℤ, Bool, true, false, if◌then◌else◌, Option, none, some,
  List, [], ◌∷◌,
}

-- `struct avl_node` without its links.
pub record AvlNode {ℓ} (K : Type ℓ) : Type ℓ where
  pub name : ℕ
  pub key : K

-- The nodes under a node, with the balance.
pub data Tree {ℓ} (K : Type ℓ) : Type ℓ where
  leaf : Tree K
  node : Tree K → AvlNode K → ℤ → Tree K → Tree K

-- One step from a node up to its parent: the parent with its balance and its other side.
pub data Step {ℓ} (K : Type ℓ) : Type ℓ where
  left_of : AvlNode K → ℤ → Tree K → Step K
  right_of : Tree K → AvlNode K → ℤ → Step K

module _ {ℓ} {K : Type ℓ} where
  -- The whole tree around a place.
  abbrev pub zip : Tree K → List (Step K) → Tree K
  zip t [] = t
  zip t (left_of p b r ∷ path) = zip (node t p b r) path
  zip t (right_of l p b ∷ path) = zip (node l p b t) path

  -- The field `balance` of a node.
  abbrev pub balance : Tree K → ℤ
  balance leaf = pos 0
  balance (node l n b r) = b

  -- `_avl_rotate_right`
  unfoldable pub rotate_right : Tree K → Tree K
  rotate_right (node (node ll left lb lr) n b r) =
      let up = b +ℤ pos 1 in
      let n_balance = if ltb_ℤ lb (pos 0) then up -ℤ lb else up in
      let left_up = lb +ℤ pos 1 in
      let left_balance = if ltb_ℤ (pos 0) n_balance then left_up +ℤ n_balance else left_up in
      node ll left left_balance (node lr n n_balance r)
  rotate_right t = t

  -- `_avl_rotate_left`
  unfoldable pub rotate_left : Tree K → Tree K
  rotate_left (node l n b (node rl right rb rr)) =
      let down = b -ℤ pos 1 in
      let n_balance = if ltb_ℤ (pos 0) rb then down -ℤ rb else down in
      let right_down = rb -ℤ pos 1 in
      let right_balance = if ltb_ℤ n_balance (pos 0) then right_down +ℤ n_balance else right_down in
      node (node l n n_balance rl) right right_balance rr
  rotate_left t = t

  -- `_post_insert` with the subtree of the node that has grown.
  unfoldable pub post_insert : Tree K → List (Step K) → Tree K
  post_insert t [] = t
  post_insert t (left_of p b r ∷ path) =
      let down = b -ℤ pos 1 in
      let further = post_insert (node t p down r) path in
      if eq_ℤ down (pos 0)
      then zip (node t p down r) path
      else if eq_ℤ down (negsuc 0)
      then further
      else if eq_ℤ (balance t) (negsuc 0)
      then zip (rotate_right (node t p down r)) path
      else zip (rotate_right (node (rotate_left t) p down r)) path
  post_insert t (right_of l p b ∷ path) =
      let up = b +ℤ pos 1 in
      let further = post_insert (node l p up t) path in
      if eq_ℤ up (pos 0)
      then zip (node l p up t) path
      else if eq_ℤ up (pos 1)
      then further
      else if eq_ℤ (balance t) (pos 1)
      then zip (rotate_left (node l p up t)) path
      else zip (rotate_left (node l p up (rotate_right t))) path

  -- `_avl_post_remove` with the subtree that has shrunk. `_avl_remove_worker` does the same with no
  -- subtree.
  unfoldable pub post_remove : Tree K → List (Step K) → Tree K
  post_remove t [] = t
  post_remove t (left_of p b r ∷ path) =
      let up = b +ℤ pos 1 in
      let even = post_remove (node t p up r) path in
      let single = post_remove (rotate_left (node t p up r)) path in
      let double = post_remove (rotate_left (node t p up (rotate_right r))) path in
      if eq_ℤ up (pos 0)
      then even
      else if eq_ℤ up (pos 1)
      then zip (node t p up r) path
      else if eq_ℤ (balance r) (pos 0)
      then zip (rotate_left (node t p up r)) path
      else if eq_ℤ (balance r) (pos 1)
      then single
      else double
  post_remove t (right_of l p b ∷ path) =
      let down = b -ℤ pos 1 in
      let even = post_remove (node l p down t) path in
      let single = post_remove (rotate_right (node l p down t)) path in
      let double = post_remove (rotate_right (node (rotate_left l) p down t)) path in
      if eq_ℤ down (pos 0)
      then even
      else if eq_ℤ down (negsuc 0)
      then zip (node l p down t) path
      else if eq_ℤ (balance l) (pos 0)
      then zip (rotate_right (node l p down t)) path
      else if eq_ℤ (balance l) (negsuc 0)
      then single
      else double
