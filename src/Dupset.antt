-- ===== src/Dupset.antt =====
-- The duplicate set for message sequence numbers: src-plugins/subsystems/oonf_duplicate_set.c and
-- oonf_duplicate_set.h.
pub mod Difference
pub mod Window
pub mod Replay
pub mod Entries
pub mod Invariant
pub mod Removal
pub mod Strikes
pub mod Runs
mod Examples
use olsrd.Base.{
  ℕ, ◌+◌, ◌-◌, ◌*◌, ◌%◌, ◌^◌, ◌/◌, Bool, true, false, not, ◌||◌, Option, none, some, List, [], ◌∷◌,
  ltb, ◌==◌, if◌then◌else◌, bit_and, bit_or, ℤ, pos, negsuc, pos_part, neg_part, ltb_ℤ, ◌-ℤ◌,
  signed64, ◌≡◌, ◌↔◌, ==_iff, arith, ◌&&◌,
}
use olsrd.Common.Tree.{Key, find, insert, update, remove}
use olsrd.Common.Netaddr.{Netaddr, netaddr_key, netaddr_same, netaddr_same_iff}

-- `enum oonf_dupset_type`
pub data DupsetType : Type 0 where
  bits8 bits16 bits32 bits64 : DupsetType

-- `enum oonf_duplicate_result`
pub data DuplicateResult : Type 0 where
  too_old duplicate new current newest first : DuplicateResult

-- OONF_DUPSET_MAXIMUM_TOO_OLD
abbrev pub maximum_too_old : ℕ
maximum_too_old = 8

-- `struct oonf_duplicate_entry_key`
pub record EntryKey : Type 0 where
  pub addr : Netaddr
  pub msg_type : ℕ

-- `struct oonf_duplicate_entry` without its links: `vtime` is what its timer was last set to, 0 for
-- a stopped timer.
pub record DuplicateEntry : Type 0 where
  pub history : ℕ
  pub current : ℕ
  pub too_old_count : ℕ
  pub vtime : ℕ

-- `struct oonf_duplicate_set`
pub record DuplicateSet : Type 0 where
  pub tree : List (EntryKey × DuplicateEntry)
  pub mask : ℕ
  pub limit : ℕ
  pub offset : ℕ

-- `_avl_cmp_dupkey(a, b) == 0`
pub same_key : EntryKey → EntryKey → Bool
same_key a b = a.msg_type == b.msg_type && netaddr_same a.addr b.addr

pub same_key_iff : (a b : EntryKey) → (same_key a b ≡ true) ↔ (a ≡ b)
unfolding same_key
same_key_iff a b = ground (arith, netaddr_same_iff a.addr b.addr)

instance abbrev pub entry_key : Key EntryKey
entry_key = record { same = same_key; same_iff = same_key_iff }

abbrev pub mask_value : DupsetType → ℕ
mask_value bits8 = 255
mask_value bits16 = 65535
mask_value bits32 = 4294967295
mask_value bits64 = 0

-- `oonf_duplicate_set_add`; the fields stay 0 for OONF_DUPSET_64BIT.
unfoldable pub duplicate_set_add : DupsetType → DuplicateSet
duplicate_set_add bits64 = record { tree = []; mask = 0; limit = 0; offset = 0 }
duplicate_set_add type = record {
  tree = [];
  mask = mask_value type;
  limit = mask_value type / 2;
  offset = mask_value type + 1;
}

-- `_seqno_difference`: an int64_t, from the difference of two uint64_t.
unfoldable pub seqno_difference : DuplicateSet → ℕ → ℕ → ℤ
seqno_difference set seqno1 seqno2 =
    let diff = (seqno1 + 2 ^ 64 - seqno2) % 2 ^ 64 in
    if set.mask == 0
    then signed64 diff
    else (let reldiff = bit_and diff set.mask in
        if ltb set.limit reldiff then pos reldiff -ℤ pos set.offset else pos reldiff)

-- `_test` for a sequence number more than 31 behind: the entry is reset after a row of those.
unfoldable pub test_old : DuplicateEntry → ℕ → DuplicateResult × DuplicateEntry
test_old entry seqno =
    let count = (entry.too_old_count + 1) % 2 ^ 16 in
    if ltb maximum_too_old count
    then (newest, record entry { history = 1; too_old_count = 0; current = seqno })
    else (too_old, record entry { too_old_count = count })

-- `_test` for a number at most 31 behind. The shift is of the `int` 1, whose 32 bits it keeps.
unfoldable pub test_window : DuplicateEntry → ℕ → Bool → DuplicateResult × DuplicateEntry
test_window entry behind set =
    let bitmask = 2 ^ behind % 2 ^ 32 in
    if not (bit_and entry.history bitmask == 0)
    then (duplicate, entry)
    else (new, if set then record entry { history = bit_or entry.history bitmask } else entry)

-- `_test` for a number that is ahead.
unfoldable pub test_ahead : DuplicateEntry → ℕ → ℕ → Bool → DuplicateResult × DuplicateEntry
test_ahead entry seqno ahead set = (
  newest,
  if set
      then record entry {
        current = seqno;
        history = if not (ltb ahead 32) then 1 else bit_or (entry.history * 2 ^ ahead % 2 ^ 64) 1;
      }
      else entry,
)

-- `_test` from the elimination of the rollover on.
unfoldable pub test_diff : DuplicateEntry → ℕ → Bool → ℤ → DuplicateResult × DuplicateEntry
test_diff entry seqno set diff =
    if ltb_ℤ diff (negsuc 30)
    then test_old entry seqno
    else (let reset = record entry { too_old_count = 0 } in
        if not (ltb_ℤ (pos 0) diff)
        then test_window reset (neg_part diff) set
        else test_ahead reset seqno (pos_part diff) set)

-- `_test`
unfoldable pub test : DuplicateSet → DuplicateEntry → ℕ → Bool → DuplicateResult × DuplicateEntry
test dupset entry seqno set =
    if seqno == entry.current
    then (current, entry)
    else test_diff entry seqno set (seqno_difference dupset seqno entry.current)

-- `oonf_duplicate_is_new`
unfoldable pub duplicate_is_new : DuplicateResult → Bool
duplicate_is_new new = true
duplicate_is_new newest = true
duplicate_is_new first = true
duplicate_is_new _ = false

-- What `oonf_duplicate_entry_add` does to an entry that is there.
unfoldable pub entry_add_found :
    DuplicateSet → EntryKey → DuplicateEntry → ℕ → ℕ → DuplicateResult × DuplicateSet
entry_add_found set key entry seqno vtime =
    let (result, entry') = test set entry seqno true in
    let timed = if duplicate_is_new result then record entry' { vtime = vtime } else entry' in
    (result, record set { tree = update key timed set.tree })

-- `oonf_duplicate_entry_add`. `allocated` says whether the allocator gives memory for a new entry.
unfoldable pub duplicate_entry_add :
    DuplicateSet → ℕ → Netaddr → ℕ → ℕ → Bool → DuplicateResult × DuplicateSet
duplicate_entry_add set msg_type originator seqno vtime allocated =
    let key : EntryKey = record { addr = originator; msg_type = msg_type } in
    elim (find key set.tree) [
      | none ↦
          if allocated
          then (
            first,
            record set {
              tree =
                  insert key
                    (record { history = 1; current = seqno; too_old_count = 0; vtime = vtime })
                    set.tree;
            },
          )
          else (too_old, set)
      | some entry ↦ entry_add_found set key entry seqno vtime
    ]

-- `oonf_duplicate_test`. `_test` changes the entry in place, also without `set`.
unfoldable pub duplicate_test : DuplicateSet → ℕ → Netaddr → ℕ → DuplicateResult × DuplicateSet
duplicate_test set msg_type originator seqno =
    let key : EntryKey = record { addr = originator; msg_type = msg_type } in
    elim (find key set.tree) [
      | none ↦ (first, set)
      | some entry ↦
          let (result, entry') = test set entry seqno false in
          (result, record set { tree = update key entry' set.tree })
    ]

-- `_remove_duplicate_entry`, which `_cb_vtime` calls when the timer of the entry fires.
unfoldable pub remove_duplicate_entry : DuplicateSet → EntryKey → DuplicateSet
remove_duplicate_entry set key = record set { tree = remove key set.tree }

-- `oonf_duplicate_set_remove`: the loop over the entries.
unfoldable pub remove_entries : List (EntryKey × DuplicateEntry) → DuplicateSet → DuplicateSet
unfolding remove_duplicate_entry
remove_entries [] set = set
remove_entries ((key, entry) ∷ rest) set = remove_entries rest (remove_duplicate_entry set key)

unfoldable pub duplicate_set_remove : DuplicateSet → DuplicateSet
unfolding remove_entries
duplicate_set_remove set = remove_entries set.tree set
