-- ===== src/Dupset/Entries.antt =====
-- The set of entries: what adding, testing and removing do to the entry of a message type and
-- originator, and to the others.
use olsrd.Base.{
  ℕ, ◌≡◌, inl, inr, Bool, true, false, none, some, if◌then◌else◌, Option-cases, Bool-cases,
}
use olsrd.Common.Tree.{find, insert, update, find-insert, find-update, same_refl}
use olsrd.Common.Netaddr.{Netaddr}
use olsrd.Dupset.{
  DuplicateResult, too_old, first, EntryKey, entry_key, DuplicateEntry, DuplicateSet, test,
  duplicate_is_new, entry_add_found, duplicate_entry_add, same_key,
}

abbrev pub key_of : Netaddr → ℕ → EntryKey
key_of originator msg_type = record { addr = originator; msg_type = msg_type }

module _ (set : DuplicateSet) (msg_type : ℕ) (originator : Netaddr) (seqno vtime : ℕ) where
  abbrev pub key : EntryKey
  key = key_of originator msg_type

  abbrev pub added : Bool → DuplicateResult × DuplicateSet
  added allocated = duplicate_entry_add set msg_type originator seqno vtime allocated

  -- The entry as it is stored after the answer `r`: a new number restarts its timer.
  abbrev pub timed : DuplicateResult × DuplicateEntry → DuplicateEntry
  timed (r, e) = if duplicate_is_new r then record e { vtime = vtime } else e

  pub add-found :
      (allocated : Bool) (e : DuplicateEntry)
      → find key set.tree ≡ some e
      → added allocated ≡ (
        (test set e seqno true).0,
        record set { tree = update key (timed (test set e seqno true)) set.tree },
      )
  unfolding duplicate_entry_add entry_add_found
  add-found allocated e h = rw (h, duplicate_entry_add)

  pub add-absent :
      find key set.tree ≡ none
      → added true ≡ (
        first,
        record set {
          tree =
              insert key
                (record { history = 1; current = seqno; too_old_count = 0; vtime = vtime })
                set.tree;
        },
      )
  unfolding duplicate_entry_add
  add-absent h = rw (h, duplicate_entry_add)

  pub add-refused : find key set.tree ≡ none → added false ≡ (too_old, set)
  unfolding duplicate_entry_add
  add-refused h = rw (h, duplicate_entry_add)

  pub others :
      (allocated : Bool) (k : EntryKey)
      → same_key key k ≡ false
      → find k (added allocated).1.tree ≡ find k set.tree
  others allocated k other = elim (Option-cases (find key set.tree)) [
    | inl h ↦ elim (Bool-cases allocated) [
      | inl yes_memory ↦ rw (yes_memory, add-absent h, find-insert key k _ set.tree h, other)
      | inr no_memory ↦ rw (no_memory, add-refused h)
    ]
    | inr (e, h) ↦ rw (add-found allocated e h, find-update key k _ set.tree, other)
  ]

  pub at_new :
      find key set.tree ≡ none
      → (added false ≡ (too_old, set))
        × (((added true).0 ≡ first)
            × (find key (added true).1.tree
                ≡ some (record { history = 1; current = seqno; too_old_count = 0; vtime = vtime })))
  at_new h = (
    add-refused h,
    (rw (add-absent h), rw (add-absent h, find-insert key key _ set.tree h, same_refl key)),
  )

  pub at_old :
      (allocated : Bool) (e : DuplicateEntry)
      → find key set.tree ≡ some e
      → ((added allocated).0 ≡ (test set e seqno true).0)
        × (find key (added allocated).1.tree ≡ some (timed (test set e seqno true)))
  at_old allocated e h = (
    rw (add-found allocated e h),
    rw (add-found allocated e h, find-update key key _ set.tree, same_refl key, h),
  )
