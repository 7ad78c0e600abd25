-- ===== src/Dupset/Removal.antt =====
-- Removing one entry, as its timer does, and all of them.
use olsrd.Base.{◌≡◌, refl, ◌∙◌, Option, none, some, List, [], ◌∷◌, if◌then◌else◌, arith}
use olsrd.Common.Tree.{find, find-remove, same_refl}
use olsrd.Dupset.{
  EntryKey, entry_key, DuplicateEntry, DuplicateSet, remove_duplicate_entry, remove_entries,
  duplicate_set_remove, same_key,
}

abbrev or_none : Option DuplicateEntry → Option DuplicateEntry → Option DuplicateEntry
or_none none o = o
or_none (some e) o = none

find-remove_entries :
    (l : List (EntryKey × DuplicateEntry)) (set : DuplicateSet) (k : EntryKey)
    → find k (remove_entries l set).tree ≡ or_none (find k l) (find k set.tree)
unfolding remove_entries remove_duplicate_entry find
find-remove_entries [] set k = refl
find-remove_entries ((key, entry) ∷ rest) set k =
    ground (
      arith,
      find-remove_entries rest (remove_duplicate_entry set key) k,
      find-remove key k set.tree,
    )

empty_of_find : (l : List (EntryKey × DuplicateEntry)) → ((k : EntryKey) → find k l ≡ none) → l ≡ []
unfolding find
empty_of_find [] h = refl
empty_of_find ((key, entry) ∷ rest) h =
    let first = h key in let same = same_refl key in ground arith

-- When the timer of an entry fires, the entry goes and the others stay. Removing the set leaves no
-- entry.
pub remove_duplicate_entry_lem :
    (set : DuplicateSet) (key : EntryKey)
    → ((k : EntryKey)
        → find k (remove_duplicate_entry set key).tree
          ≡ (if same_key key k then none else find k set.tree))
      × ((duplicate_set_remove set).tree ≡ [])
unfolding remove_duplicate_entry duplicate_set_remove
remove_duplicate_entry_lem set key = (
  λ k. find-remove key k set.tree,
  empty_of_find _ (λ k. find-remove_entries set.tree set k ∙ none_twice (find k set.tree)),
)
  where
    none_twice : (o : Option DuplicateEntry) → or_none o o ≡ none
    none_twice none = refl
    none_twice (some e) = refl
