-- ===== src/Dupset/Invariant.antt =====
-- Well-formed sets: every entry is well formed. Adding keeps a set so, and recognises a number that
-- it accepted before.
use olsrd.Base.{
  ℕ, ◌<◌, ◌≡◌, ◌≢◌, refl, sym, ◌∙◌, ◌⊎◌, inl, inr, Bool, true, some, if◌then◌else◌, arith,
  Option-cases, Bool-cases, Option, subst,
}
use olsrd.Common.Tree.{find}
use olsrd.Common.Netaddr.{Netaddr}
use olsrd.Dupset.{
  DupsetType, DuplicateResult, too_old, duplicate, current, EntryKey, entry_key, DuplicateEntry,
  DuplicateSet, test, duplicate_is_new, same_key, same_key_iff, duplicate_entry_add,
}
use olsrd.Dupset.Difference.{modulus, IsOfType}
use olsrd.Dupset.Window.{IsEntry, seen}
use olsrd.Dupset.Window.Seen.{test-IsEntry}
use olsrd.Dupset.Window.Triangle.{triangle}
use olsrd.Dupset.Replay.{seen_again, seen_accepted}
use olsrd.Dupset.Entries.{key_of, added, add-found, add-absent, add-refused, others, at_new, at_old}

-- The parameters of the type, and well-formed entries.
pub record IsDupset (type : DupsetType) (set : DuplicateSet) : Type 0 where
  pub of_type : IsOfType set type
  pub entries : (k : EntryKey) (e : DuplicateEntry) → find k set.tree ≡ some e → IsEntry type e

-- The entry as `duplicate_entry_add` stores it after the answer of `_test`.
abbrev stored : ℕ → DuplicateResult × DuplicateEntry → DuplicateEntry
stored vtime (r, e) = if duplicate_is_new r then record e { vtime = vtime } else e

same-IsEntry :
    {type : DupsetType} {o : Option DuplicateEntry} {a b : DuplicateEntry}
    → o ≡ some a
    → o ≡ some b
    → IsEntry type b
    → IsEntry type a
same-IsEntry {type} {o} {a} {b} p q v = let e : b ≡ a = cc in subst (IsEntry type) e v

module _ (set : DuplicateSet) (msg_type : ℕ) (originator : Netaddr) (seqno vtime : ℕ)
    (type : DupsetType) (valid : IsDupset type set) (fits : seqno < modulus type) where
  fresh-IsEntry :
      IsEntry type (record { history = 1; current = seqno; too_old_count = 0; vtime = vtime })
  fresh-IsEntry = record { in_range = fits; marked = refl; strikes = omega arith }

  timed-IsEntry :
      (e : DuplicateEntry)
      → find (key_of originator msg_type) set.tree ≡ some e
      → IsEntry type (stored vtime (test set e seqno true))
  timed-IsEntry e h =
      let kept =
        test-IsEntry set type e seqno valid.of_type (valid.entries (key_of originator msg_type) e h)
          fits in
      elim (Bool-cases (duplicate_is_new (test set e seqno true).0)) [
        | inl again ↦
            rw again
              (record { in_range = kept.in_range; marked = kept.marked; strikes = kept.strikes })
        | inr old_one ↦ rw old_one kept
      ]

  add-of_type :
      (allocated : Bool) → IsOfType (added set msg_type originator seqno vtime allocated).1 type
  add-of_type allocated = elim (Option-cases (find (key_of originator msg_type) set.tree)) [
    | inl absent ↦ elim (Bool-cases allocated) [
      | inl yes_memory ↦
          rw (yes_memory, add-absent set msg_type originator seqno vtime absent)
            (record {
              mask_is = valid.of_type.mask_is;
              limit_is = valid.of_type.limit_is;
              offset_is = valid.of_type.offset_is;
            })
      | inr no_memory ↦
          rw (no_memory, add-refused set msg_type originator seqno vtime absent) valid.of_type
    ]
    | inr (e, there) ↦
        rw (add-found set msg_type originator seqno vtime allocated e there) (record {
          mask_is = valid.of_type.mask_is;
          limit_is = valid.of_type.limit_is;
          offset_is = valid.of_type.offset_is;
        })
  ]

  -- The entry under the key after adding, if any, is well formed.
  at_key :
      (allocated : Bool) (e : DuplicateEntry)
      → find
          (key_of originator msg_type)
          (added set msg_type originator seqno vtime allocated).1.tree
        ≡ some e
      → IsEntry type e
  at_key allocated e h = elim (Option-cases (find (key_of originator msg_type) set.tree)) [
    | inl absent ↦ elim (Bool-cases allocated) [
      | inl yes_memory ↦
          let there = (at_new set msg_type originator seqno vtime absent).1.1 in
          same-IsEntry (rw yes_memory at h) there fresh-IsEntry
      | inr no_memory ↦
          let gone : find (key_of originator msg_type) set.tree ≡ some e =
            rw (no_memory, add-refused set msg_type originator seqno vtime absent) at h in
          cc
    ]
    | inr (old, there) ↦
        same-IsEntry h (at_old set msg_type originator seqno vtime allocated old there).1
          (timed-IsEntry old there)
  ]

  -- Adding a number of the set's width keeps the set well formed.
  pub add-IsDupset :
      (allocated : Bool)
      → IsDupset type (duplicate_entry_add set msg_type originator seqno vtime allocated).1
  add-IsDupset allocated = record {
    of_type = add-of_type allocated;
    entries = λ k e h. elim (Bool-cases (same_key (key_of originator msg_type) k)) [
      | inl same ↦
          let equal = (same_key_iff (key_of originator msg_type) k).0 same in
          at_key allocated e (
            subst
              (λ x. find x (added set msg_type originator seqno vtime allocated).1.tree ≡ some e)
              (sym equal) h)
      | inr other ↦
          valid.entries k e (sym (others set msg_type originator seqno vtime allocated k other) ∙ h)
    ];
  }

  -- What is stored under the key once the number was accepted.
  abbrev pub Known : DuplicateSet → Type 0
  Known after =
      (e : DuplicateEntry) × (find (key_of originator msg_type) after.tree ≡ some e)
      × IsEntry type e
      × (seen (modulus type) e seqno ≡ true)

  seen-fresh :
      seen
        (modulus type)
        (record { history = 1; current = seqno; too_old_count = 0; vtime = vtime })
        seqno
      ≡ true
  seen-fresh = ground (arith, (triangle type seqno seqno seqno fits fits fits).at_new)

  seen-stored :
      (e : DuplicateEntry)
      → find (key_of originator msg_type) set.tree ≡ some e
      → (test set e seqno true).0 ≢ too_old
      → seen (modulus type) (stored vtime (test set e seqno true)) seqno ≡ true
  seen-stored e h accepted =
      let known =
        seen_accepted set type e seqno valid.of_type
          (valid.entries (key_of originator msg_type) e h) fits accepted in
      elim (Bool-cases (duplicate_is_new (test set e seqno true).0)) [
        | inl again ↦ rw again known
        | inr old_one ↦ rw old_one known
      ]

  pub Known-after :
      (allocated : Bool)
      → (added set msg_type originator seqno vtime allocated).0 ≢ too_old
      → Known (added set msg_type originator seqno vtime allocated).1
  Known-after allocated accepted =
      elim (Option-cases (find (key_of originator msg_type) set.tree)) [
        | inl absent ↦ elim (Bool-cases allocated) [
          | inl yes_memory ↦
              let there = (at_new set msg_type originator seqno vtime absent).1.1 in
              (_, rw yes_memory there, fresh-IsEntry, seen-fresh)
          | inr no_memory ↦
              absurd
                (accepted (rw (no_memory, add-refused set msg_type originator seqno vtime absent)))
        ]
        | inr (e, there) ↦
            let found = at_old set msg_type originator seqno vtime allocated e there in
            (
              stored vtime (test set e seqno true),
              found.1,
              timed-IsEntry e there,
              seen-stored e there (λ r. accepted (found.0 ∙ r)),
            )
      ]

  -- A number that `duplicate_entry_add` did not answer with `too_old` is recognised when the same
  -- message type, originator and number are added again: the answer is then `current` or
  -- `duplicate`.
  pub add_replay :
      (allocated again : Bool) (vtime' : ℕ)
      → let (r, set') = duplicate_entry_add set msg_type originator seqno vtime allocated in
        r ≢ too_old
        → let r' = (duplicate_entry_add set' msg_type originator seqno vtime' again).0 in
          (r' ≡ current) ⊎ (r' ≡ duplicate)
  add_replay allocated again vtime' accepted =
      let (e, there, kept, known) = Known-after allocated accepted in
      rw
        ((at_old (added set msg_type originator seqno vtime allocated).1 msg_type originator seqno
          vtime' again e there).0)
        (seen_again (added set msg_type originator seqno vtime allocated).1 type e seqno
          (add-of_type allocated) kept fits true known)
