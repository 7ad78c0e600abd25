-- ===== src/Common/Avl/Sound.antt =====
-- An AVL tree that is balanced and in step with its linked list stays so.
use Prim.Native.Nat.{Ordering}
use olsrd.Base.{ℕ, refl, Bool}
use olsrd.Common.Avl.{AvlNode}
use olsrd.Common.Avl.Balance.{IsBalanced}
use olsrd.Common.Avl.Inorder.{inorder}
use olsrd.Common.Avl.Distinct.{IsAbsent}
use olsrd.Common.Avl.Leaders.{members, leaders}
use olsrd.Common.Avl.Linked.{IsLinked, avl_remove-IsLinked}
use olsrd.Common.Avl.Joined.{avl_insert-IsLinked}
use olsrd.Common.Avl.Insert.{avl_insert-IsBalanced}
use olsrd.Common.Avl.Remove.{avl_remove-IsBalanced}
use olsrd.Common.Avl.Ops.{AvlTree, avl_init, avl_insert, avl_remove}

pub record IsSound {ℓ} {K : Type ℓ} (tree : AvlTree K) : Type ℓ where
  pub balanced : IsBalanced tree.root
  pub linked : IsLinked tree

module _ {ℓ} {K : Type ℓ} where
  -- The empty tree.
  avl_init-IsSound : (allow_dups : Bool) → IsSound {K = K} (avl_init allow_dups)
  unfolding inorder leaders members
  avl_init-IsSound allow_dups = record {
    balanced = (0, refl);
    linked = record { in_order = refl; different = tt };
  }

  -- `avl_insert` of an object that is not in the list leaves a tree sound: balanced, with the elements
  -- of the list that follow no other one being those of the tree in its order, and all elements of the
  -- list being different objects. The comparator is any function.
  pub avl_insert-IsSound :
      (comp : K → K → Ordering) (new : AvlNode K) (tree : AvlTree K)
      → IsSound tree
      → IsAbsent new.name (members tree.list_head)
      → IsSound (avl_insert comp new tree).0
  avl_insert-IsSound comp new tree sound fresh = record {
    balanced = avl_insert-IsBalanced comp new tree sound.balanced;
    linked = avl_insert-IsLinked comp new tree sound.balanced sound.linked fresh;
  }

  -- `avl_remove` leaves a sound tree sound, whatever its argument is.
  pub avl_remove-IsSound :
      (name : ℕ) (tree : AvlTree K) → IsSound tree → IsSound (avl_remove name tree)
  avl_remove-IsSound name tree sound = record {
    balanced = avl_remove-IsBalanced name tree sound.balanced;
    linked = avl_remove-IsLinked name tree sound.linked;
  }
