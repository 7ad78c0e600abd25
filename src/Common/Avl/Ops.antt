-- ===== src/Common/Avl/Ops.antt =====
-- The operations of src-api/common/avl.c: lookups, insertion and removal. The tree has its elements in
-- a linked list as well, where those that follow another one with the same key are marked.
use Prim.Native.Nat.{Ordering}
use Prim.Native.Nat.Ordering.{lt, eq, gt}
use olsrd.Base.{
  ℕ, ◌+◌, ◌-◌, ◌%◌, ◌^◌, ℤ, pos, negsuc, eq_ℤ, ◌==◌, Bool, true, false, not, ◌&&◌, if◌then◌else◌,
  Option, none, some, List, [], ◌∷◌,
}
use olsrd.Common.Avl.{
  AvlNode, Tree, leaf, node, Step, left_of, right_of, zip, post_insert, post_remove,
}

-- `struct avl_tree`, with the list of its elements and their marks `follower`.
pub record AvlTree {ℓ} (K : Type ℓ) : Type ℓ where
  pub list_head : List (AvlNode K × Bool)
  pub root : Tree K
  pub count : ℕ
  pub allow_dups : Bool

-- A place in the tree that a lookup ends at, with the result of the last comparison.
pub record Found {ℓ} (K : Type ℓ) : Type ℓ where
  pub left : Tree K
  pub here : AvlNode K
  pub tilt : ℤ
  pub right : Tree K
  pub path : List (Step K)
  pub diff : Ordering

module _ {ℓ} {K : Type ℓ} where
  -- `avl_init`
  abbrev pub avl_init : Bool → AvlTree K
  avl_init allow_dups = record { list_head = []; root = leaf; count = 0; allow_dups = allow_dups }

  abbrev pub is_null : Tree K → Bool
  is_null leaf = true
  is_null (node l n b r) = false

  -- `list_add_before` and `list_add_after` at the element of a name.
  unfoldable pub list_add_before :
      ℕ → AvlNode K × Bool → List (AvlNode K × Bool) → List (AvlNode K × Bool)
  list_add_before name new [] = []
  list_add_before name new (e ∷ rest) =
      if e.0.name == name then new ∷ e ∷ rest else e ∷ list_add_before name new rest

  unfoldable pub list_add_after :
      ℕ → AvlNode K × Bool → List (AvlNode K × Bool) → List (AvlNode K × Bool)
  list_add_after name new [] = []
  list_add_after name new (e ∷ rest) =
      if e.0.name == name then e ∷ new ∷ rest else e ∷ list_add_after name new rest

  -- `list_remove`
  unfoldable pub list_remove : ℕ → List (AvlNode K × Bool) → List (AvlNode K × Bool)
  list_remove name [] = []
  list_remove name (e ∷ rest) = if e.0.name == name then rest else e ∷ list_remove name rest

  -- The loop of `_avl_find_last`, over what is behind an element.
  unfoldable pub last_follower : ℕ → List (AvlNode K × Bool) → ℕ
  last_follower last [] = last
  last_follower last ((next, follower) ∷ rest) =
      let further = last_follower next.name rest in if follower then further else last

  -- `_avl_find_last`
  unfoldable pub find_last : ℕ → List (AvlNode K × Bool) → ℕ
  find_last name [] = name
  find_last name (e ∷ rest) =
      if e.0.name == name then last_follower name rest else find_last name rest

  -- `_avl_local_min` and the way to it, from a node.
  unfoldable pub local_min :
      Tree K → AvlNode K → ℤ → Tree K → List (Step K) → AvlNode K × (Tree K × List (Step K))
  local_min leaf n b r path = (n, (r, path))
  local_min (node ll ln lb lr) n b r path = local_min ll ln lb lr (left_of n b r ∷ path)

  -- The place of another node is given to this one.
  unfoldable pub replace : ℕ → AvlNode K → Tree K → Tree K
  replace name new leaf = leaf
  replace name new (node l n b r) =
      if n.name == name then node l new b r else node (replace name new l) n b (replace name new r)

  -- `_avl_remove_worker` for the node of the given links. Where there are two children, the least node
  -- of the right one is removed, and then takes the place that the node has.
  unfoldable pub remove_worker : Tree K → AvlNode K → ℤ → Tree K → List (Step K) → Tree K
  remove_worker leaf n b leaf path = post_remove leaf path
  remove_worker leaf n b (node rl rn rb rr) path = post_remove (node rl rn rb rr) path
  remove_worker (node ll ln lb lr) n b leaf path = post_remove (node ll ln lb lr) path
  remove_worker (node ll ln lb lr) n b (node rl rn rb rr) path =
      let min = local_min rl rn rb rr (right_of (node ll ln lb lr) n b ∷ path) in
      replace n.name min.0 (post_remove min.1.0 min.1.1)

  -- The place of a node, which the code has as a pointer.
  unfoldable pub locate : ℕ → Tree K → List (Step K) → Option (Found K)
  locate name leaf path = none
  locate name (node l n b r) path =
      if n.name == name
      then some (record { left = l; here = n; tilt = b; right = r; path = path; diff = eq })
      else elim (locate name l (left_of n b r ∷ path)) [
        | some found ↦ some found
        | none ↦ locate name r (right_of l n b ∷ path)
      ]

  -- The element behind the one of a name, with its mark.
  unfoldable pub next_element : ℕ → List (AvlNode K × Bool) → Option (AvlNode K × Bool)
  next_element name [] = none
  next_element name (e ∷ []) = none
  next_element name (e ∷ next ∷ rest) =
      if e.0.name == name then some next else next_element name (next ∷ rest)

  -- The mark of the element of a name is taken off.
  unfoldable pub unfollow : ℕ → List (AvlNode K × Bool) → List (AvlNode K × Bool)
  unfollow name [] = []
  unfollow name (e ∷ rest) =
      if e.0.name == name then (e.0, false) ∷ rest else e ∷ unfollow name rest

  unfoldable pub is_follower : ℕ → List (AvlNode K × Bool) → Bool
  is_follower name [] = false
  is_follower name (e ∷ rest) = if e.0.name == name then e.1 else is_follower name rest

  -- `avl_remove`: the removal of a node from the tree, by `_avl_remove_worker`.
  unfoldable pub remove_node : ℕ → Tree K → Tree K
  remove_node name root = elim (locate name root []) [
    | none ↦ root
    | some found ↦ remove_worker found.left found.here found.tilt found.right found.path
  ]

  -- `avl_remove`: the links, where the node follows no other. The next element takes its place if it
  -- follows this one.
  unfoldable pub remove_leader : ℕ → AvlTree K → AvlTree K
  remove_leader name tree = elim (next_element name tree.list_head) [
    | none ↦ record tree { root = remove_node name tree.root }
    | some next ↦
        if tree.allow_dups && next.1
        then record tree {
          list_head = unfollow next.0.name tree.list_head;
          root = replace name next.0 tree.root;
        }
        else record tree { root = remove_node name tree.root }
  ]

  -- `avl_remove` with `_avl_remove`
  unfoldable pub avl_remove : ℕ → AvlTree K → AvlTree K
  avl_remove name tree =
      let unlinked = if is_follower name tree.list_head then tree else remove_leader name tree in
      record unlinked {
        list_head = list_remove name unlinked.list_head;
        count = (unlinked.count + (2 ^ 32 - 1)) % 2 ^ 32;
      }

  -- A node without links.
  abbrev pub single : AvlNode K → Tree K
  single new = node leaf new (pos 0) leaf

  -- `avl_insert`: the links of a node that is new below the place of the lookup.
  unfoldable pub insert_below : Found K → AvlNode K → Tree K
  insert_below found new =
      if eq_ℤ found.tilt (pos 1)
      then zip (node (single new) found.here (pos 0) found.right) found.path
      else if eq_ℤ found.tilt (negsuc 0)
      then zip (node found.left found.here (pos 0) (single new)) found.path
      else elim found.diff [
        | lt ↦ post_insert (node (single new) found.here (negsuc 0) found.right) found.path
        | eq ↦ post_insert (node found.left found.here (pos 1) (single new)) found.path
        | gt ↦ post_insert (node found.left found.here (pos 1) (single new)) found.path
      ]

  -- `avl_insert`: whether the new node is put before the place of the lookup in the list.
  abbrev pub goes_before : Found K → Bool
  goes_before found =
      if eq_ℤ found.tilt (pos 1)
      then true
      else if eq_ℤ found.tilt (negsuc 0)
      then false
      else elim found.diff [ lt ↦ true | eq ↦ false | gt ↦ false ]

module _ {ℓ} {K : Type ℓ} (comp : K → K → Ordering) where
  -- `_avl_find_rec`. Where the node has a child to go on with, so does the lookup.
  unfoldable pub find_rec : K → Tree K → List (Step K) → Option (Found K)
  find_rec key leaf path = none
  find_rec key (node l n b r) path =
      let here : Found K = record {
        left = l;
        here = n;
        tilt = b;
        right = r;
        path = path;
        diff = comp key n.key;
      } in
      elim (comp key n.key) [
        | lt ↦ elim (is_null l) [ true ↦ some here | false ↦ find_rec key l (left_of n b r ∷ path) ]
        | gt ↦ elim (is_null r) [
          | true ↦ some here
          | false ↦ find_rec key r (right_of l n b ∷ path)
        ]
        | eq ↦ some here
      ]

  -- `avl_find`
  unfoldable pub avl_find : K → AvlTree K → Option (AvlNode K)
  avl_find key tree = elim (find_rec key tree.root []) [
    | none ↦ none
    | some found ↦ elim found.diff [ eq ↦ some found.here | lt ↦ none | gt ↦ none ]
  ]

  -- `avl_insert` with `_avl_insert_before` and `_avl_insert_after`, and whether it answers 0.
  unfoldable pub avl_insert : AvlNode K → AvlTree K → AvlTree K × Bool
  avl_insert new tree = elim (find_rec new.key tree.root []) [
    | none ↦ (
      record tree { list_head = (new, false) ∷ tree.list_head; root = single new; count = 1 },
      true,
    )
    | some found ↦ elim found.diff [
      | eq ↦ if not tree.allow_dups then (tree, false) else (
        record tree {
          list_head = list_add_after found.here.name (new, true) tree.list_head;
          count = (tree.count + 1) % 2 ^ 32;
        },
        true,
      )
      | other ↦ (
        record tree {
          list_head =
              if goes_before found
              then list_add_before found.here.name (new, false) tree.list_head
              else list_add_after (find_last found.here.name tree.list_head) (new, false)
                  tree.list_head;
          root = insert_below found new;
          count = (tree.count + 1) % 2 ^ 32;
        },
        true,
      )
    ]
  ]
