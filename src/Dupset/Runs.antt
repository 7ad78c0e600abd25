-- ===== src/Dupset/Runs.antt =====
-- Runs of calls of the duplicate set: messages that are added or asked for, and entries whose timer
-- fires, in any order.
use olsrd.Base.{
  ℕ, ◌<◌, ◌≡◌, ◌≢◌, refl, ◌∙◌, ◌⊎◌, inl, inr, Bool, true, false, some, List, [], ◌∷◌, All,
  Bool-cases, Option-cases, arith,
}
use olsrd.Common.Tree.{find, find-update, find-remove, same_refl}
use olsrd.Common.Netaddr.{Netaddr}
use olsrd.Dupset.{
  DupsetType, too_old, duplicate, current, EntryKey, entry_key, DuplicateEntry, DuplicateSet, test,
  duplicate_is_new, same_key, duplicate_entry_add, duplicate_test, remove_duplicate_entry,
  entry_add_found,
}
use olsrd.Dupset.Difference.{modulus, behind, IsOfType}
use olsrd.Dupset.Window.{IsEntry, seen}
use olsrd.Dupset.Window.Seen.{test-IsEntry}
use olsrd.Dupset.Window.Kept.{seen-kept, test-query}
use olsrd.Dupset.Replay.{seen_again}
use olsrd.Dupset.Entries.{key_of, timed, others, at_old}
use olsrd.Dupset.Invariant.{IsDupset, Known-after}

-- A call of `oonf_duplicate_entry_add` or `oonf_duplicate_test`, or the end of an entry by its timer.
pub data Call : Type 0 where
  add : ℕ → Netaddr → ℕ → ℕ → Bool → Call
  query : ℕ → Netaddr → ℕ → Call
  expire : EntryKey → Call

pub call : DuplicateSet → Call → DuplicateSet
call set (add msg_type originator seqno vtime allocated) =
    (duplicate_entry_add set msg_type originator seqno vtime allocated).1
call set (query msg_type originator seqno) = (duplicate_test set msg_type originator seqno).1
call set (expire key) = remove_duplicate_entry set key

pub run : DuplicateSet → List Call → DuplicateSet
run set [] = set
run set (c ∷ rest) = run (call set c) rest

-- The parameters of a set, which no call changes.
call-IsOfType :
    (set : DuplicateSet) (type : DupsetType) (c : Call)
    → IsOfType set type
    → IsOfType (call set c) type
unfolding call duplicate_entry_add entry_add_found duplicate_test remove_duplicate_entry
call-IsOfType set type (add msg_type originator seqno vtime allocated) h = ground arith
call-IsOfType set type (query msg_type originator seqno) h = ground arith
call-IsOfType set type (expire key) h = ground arith

query-others :
    (set : DuplicateSet) (msg_type seqno : ℕ) (originator : Netaddr) (k : EntryKey)
    → same_key (key_of originator msg_type) k ≡ false
    → find k (duplicate_test set msg_type originator seqno).1.tree ≡ find k set.tree
unfolding duplicate_test
query-others set msg_type seqno originator k other =
    let key = key_of originator msg_type in
    elim (Option-cases (find key set.tree)) [
      | inl absent ↦ rw (absent, duplicate_test) refl
      | inr (e, there) ↦
          rw (there, duplicate_test, find-update key k (test set e seqno false).1 set.tree, other)
            refl
    ]

query-at :
    (set : DuplicateSet) (msg_type seqno : ℕ) (originator : Netaddr) (e : DuplicateEntry)
    → find (key_of originator msg_type) set.tree ≡ some e
    → find (key_of originator msg_type) (duplicate_test set msg_type originator seqno).1.tree
      ≡ some (test set e seqno false).1
unfolding duplicate_test
query-at set msg_type seqno originator e at =
    let key = key_of originator msg_type in
    rw
      (
        at,
        duplicate_test,
        find-update key key (test set e seqno false).1 set.tree,
        same_refl key,
        at,
      )
      refl

expired :
    (set : DuplicateSet) (gone k : EntryKey)
    → same_key gone k ≡ false
    → find k (remove_duplicate_entry set gone).tree ≡ find k set.tree
unfolding remove_duplicate_entry
expired set gone k other = rw (find-remove gone k set.tree, other) refl

module _ (type : DupsetType) (msg_type : ℕ) (originator : Netaddr) (s : ℕ)
    (fits : s < modulus type) where
  abbrev key : EntryKey
  key = key_of originator msg_type

  -- The calls between the two messages: those for another key, and those for numbers from `s` on.
  abbrev pub Between : Call → Type 0
  Between (add m o t vtime allocated) =
      (same_key (key_of o m) key ≡ false)
      ⊎ (m ≡ msg_type) × (o ≡ originator) × (t < modulus type) × (behind (modulus type) t s < 32)
  Between (query m o t) =
      (same_key (key_of o m) key ≡ false)
      ⊎ (m ≡ msg_type) × (o ≡ originator) × (t < modulus type) × (behind (modulus type) t s < 32)
  Between (expire k) = same_key k key ≡ false

  -- The entry under the key has seen `s`.
  abbrev Seen : DuplicateEntry → Type 0
  Seen e = IsEntry type e × (seen (modulus type) e s ≡ true)

  record IsKnown (set : DuplicateSet) : Type 0 where
    of_type : IsOfType set type
    entry : DuplicateEntry
    at : find key set.tree ≡ some entry
    holds : Seen entry

  added-Seen :
      (set : DuplicateSet) (e : DuplicateEntry) (t vtime : ℕ)
      → IsOfType set type
      → Seen e
      → t < modulus type
      → behind (modulus type) t s < 32
      → Seen (timed set msg_type originator t vtime (test set e t true))
  added-Seen set e t vtime of_type (valid, known) t_fits near =
      let kept = test-IsEntry set type e t of_type valid t_fits in
      let still = seen-kept set type e t s of_type valid t_fits fits known near in
      elim (Bool-cases (duplicate_is_new (test set e t true).0)) [
        | inl again ↦ rw again (
          record { in_range = kept.in_range; marked = kept.marked; strikes = kept.strikes },
          still,
        )
        | inr old_one ↦ rw old_one (kept, still)
      ]

  queried-Seen :
      (set : DuplicateSet) (e : DuplicateEntry) (t : ℕ)
      → IsOfType set type
      → Seen e
      → t < modulus type
      → behind (modulus type) t s < 32
      → Seen (test set e t false).1
  queried-Seen set e t of_type (valid, known) t_fits near =
      elim (test-query set type e t s of_type valid t_fits fits known near) [
        | inl same ↦ rw same (valid, known)
        | inr cleared ↦ rw cleared (
          record { in_range = valid.in_range; marked = valid.marked; strikes = omega arith },
          known,
        )
      ]

  call-IsKnown : (set : DuplicateSet) (c : Call) → Between c → IsKnown set → IsKnown (call set c)
  unfolding call
  call-IsKnown set (add m o t vtime allocated) (inl other) k = record {
    of_type = call-IsOfType set type (add m o t vtime allocated) k.of_type;
    entry = k.entry;
    at = others set m o t vtime allocated key other ∙ k.at;
    holds = k.holds;
  }
  call-IsKnown set (add m o t vtime allocated) (inr (m_same, o_same, t_fits, near)) k =
      rw (m_same, o_same)
        (record {
          of_type = call-IsOfType set type (add msg_type originator t vtime allocated) k.of_type;
          entry = timed set msg_type originator t vtime (test set k.entry t true);
          at = (at_old set msg_type originator t vtime allocated k.entry k.at).1;
          holds = added-Seen set k.entry t vtime k.of_type k.holds t_fits near;
        })
  call-IsKnown set (query m o t) (inl other) k = record {
    of_type = call-IsOfType set type (query m o t) k.of_type;
    entry = k.entry;
    at = query-others set m t o key other ∙ k.at;
    holds = k.holds;
  }
  call-IsKnown set (query m o t) (inr (m_same, o_same, t_fits, near)) k =
      rw (m_same, o_same)
        (record {
          of_type = call-IsOfType set type (query msg_type originator t) k.of_type;
          entry = (test set k.entry t false).1;
          at = query-at set msg_type t originator k.entry k.at;
          holds = queried-Seen set k.entry t k.of_type k.holds t_fits near;
        })
  call-IsKnown set (expire gone) other k = record {
    of_type = call-IsOfType set type (expire gone) k.of_type;
    entry = k.entry;
    at = expired set gone key other ∙ k.at;
    holds = k.holds;
  }

  run-IsKnown :
      (calls : List Call) (set : DuplicateSet)
      → All Between calls
      → IsKnown set
      → IsKnown (run set calls)
  unfolding run
  run-IsKnown [] set between k = k
  run-IsKnown (c ∷ rest) set (now, later) k =
      run-IsKnown rest (call set c) later (call-IsKnown set c now k)

  -- In a well-formed set, a number of its width that `oonf_duplicate_entry_add` did not answer with
  -- `too_old` is recognised when the same message type, originator and number are added again after
  -- any calls in between: calls of any kind for another message type or originator, and calls that
  -- add or ask for the same number or one of the 31 that follow it. The answer is `current` or
  -- `duplicate`.
  pub run_replay :
      (set : DuplicateSet) (vtime : ℕ) (allocated : Bool)
      → IsDupset type set
      → (duplicate_entry_add set msg_type originator s vtime allocated).0 ≢ too_old
      → (calls : List Call) → All Between calls
      → (vtime' : ℕ) (again : Bool)
      → let set' = run (duplicate_entry_add set msg_type originator s vtime allocated).1 calls in
        let r = (duplicate_entry_add set' msg_type originator s vtime' again).0 in
        (r ≡ current) ⊎ (r ≡ duplicate)
  unfolding call
  run_replay set vtime allocated valid accepted calls between vtime' again =
      let start = (duplicate_entry_add set msg_type originator s vtime allocated).1 in
      let (e, at, kept, known) =
        Known-after set msg_type originator s vtime type valid fits allocated accepted in
      let k = run-IsKnown calls start between (record {
        of_type = call-IsOfType set type (add msg_type originator s vtime allocated) valid.of_type;
        entry = e;
        at = at;
        holds = (kept, known);
      }) in
      rw ((at_old (run start calls) msg_type originator s vtime' again k.entry k.at).0)
        (seen_again (run start calls) type k.entry s k.of_type k.holds.0 fits true k.holds.1)
