-- ===== src/Dupset/Examples.antt =====
-- Instances of the theorems on the duplicate set, and runs of the code.
use olsrd.Base.{
  ℕ, ◌<◌, ◌≡◌, ◌≢◌, refl, ◌⊎◌, inl, inr, some, List, All, true, false, ◌&&◌, ◌||◌, ltb, ◌==◌, [],
  ◌∷◌, arith,
}
use olsrd.Common.Tree.{find}
use olsrd.Common.Netaddr.{Netaddr, inet, netaddr_same, same_bytes, same_family}
use olsrd.Dupset.{
  bits16, too_old, new, newest, duplicate, current, entry_key, DuplicateEntry, DuplicateSet,
  duplicate_set_add, seqno_difference, test, test_diff, test_old, test_window, test_ahead,
  duplicate_entry_add, duplicate_test, same_key,
}
use olsrd.Dupset.Difference.{modulus, behind, IsOfType}
use olsrd.Dupset.Window.{IsEntry, seen, verdict, test-verdict}
use olsrd.Dupset.Window.Seen.{seen-test}
use olsrd.Dupset.Replay.{test_replay}
use olsrd.Dupset.Entries.{key_of}
use olsrd.Dupset.Strikes.{IsFarBehind, duplicate_tests, tests_reset}
use olsrd.Dupset.Runs.{Call, add, query, run, Between, run_replay}
use olsrd.Dupset.Invariant.{IsDupset, add-IsDupset, add_replay}

abbrev set16 : DuplicateSet
set16 = record { tree = []; mask = 65535; limit = 32767; offset = 65536 }

-- Number 2 was the newest, 65535 (three back) was seen too.
abbrev entry : DuplicateEntry
entry = record { history = 9; current = 2; too_old_count = 0; vtime = 100 }

abbrev neighbor : Netaddr
neighbor = record {
  addr = 10 ∷ 0 ∷ 0 ∷ 1 ∷ 0 ∷ 0 ∷ 0 ∷ 0 ∷ 0 ∷ 0 ∷ 0 ∷ 0 ∷ 0 ∷ 0 ∷ 0 ∷ 0 ∷ [];
  family = inet;
  prefix_len = 32;
}

set16-IsOfType : IsOfType set16 bits16
unfolding duplicate_set_add
set16-IsOfType = record { mask_is = refl; limit_is = refl; offset_is = refl }

entry-IsEntry : IsEntry bits16 entry
entry-IsEntry = record { in_range = omega arith; marked = refl; strikes = omega arith }

set16-IsDupset : IsDupset bits16 set16
unfolding find
set16-IsDupset = record { of_type = set16-IsOfType; entries = λ k e h. cc }

answers_over_the_wrap :
    ((test set16 entry 65535 true).0 ≡ duplicate)
    × ((test set16 entry 0 true).0 ≡ new)
    × ((test set16 entry 5 true).0 ≡ newest)
    × ((test set16 entry 65000 true).0 ≡ too_old)
unfolding test test_diff test_old test_window test_ahead seqno_difference
answers_over_the_wrap = (refl, refl, refl, refl)

test-verdict_example : (test set16 entry 65535 true).0 ≡ verdict (modulus bits16) entry 65535
test-verdict_example =
    test-verdict set16 bits16 entry 65535 set16-IsOfType entry-IsEntry (omega arith) true

in_16_bits : 5 < modulus bits16
in_16_bits = omega arith

five_accepted : (test set16 entry 5 true).0 ≢ too_old
unfolding test test_diff test_old test_window test_ahead seqno_difference
five_accepted e = cc

seen-test_example :
    let e' = (test set16 entry 5 true).1 in
    seen (modulus bits16) e' 65535 ≡ (
      65535 == 5
      || (seen (modulus bits16) entry 65535 && ltb (behind (modulus bits16) e'.current 65535) 32))
seen-test_example =
    seen-test set16 bits16 entry 5 set16-IsOfType entry-IsEntry in_16_bits five_accepted 65535
      (omega arith)

far_too_old : (test set16 entry 65000 true).0 ≡ too_old
unfolding test test_diff test_old seqno_difference
far_too_old = refl

test_replay_example :
    let again = (test set16 (test set16 entry 5 true).1 5 false).0 in
    (again ≡ current) ⊎ (again ≡ duplicate)
test_replay_example =
    test_replay set16 bits16 entry 5 set16-IsOfType entry-IsEntry in_16_bits false five_accepted

-- The set with the entry, whose counter of too old numbers is 6.
abbrev struck_entry : DuplicateEntry
struck_entry = record entry { too_old_count = 6 }

abbrev struck_set : DuplicateSet
struck_set = record set16 { tree = (key_of neighbor 1, struck_entry) ∷ [] }

struck_set-IsOfType : IsOfType struck_set bits16
unfolding duplicate_set_add
struck_set-IsOfType = record { mask_is = refl; limit_is = refl; offset_is = refl }

struck_entry-IsEntry : IsEntry bits16 struck_entry
struck_entry-IsEntry = record { in_range = omega arith; marked = refl; strikes = omega arith }

struck_entry_found : find (key_of neighbor 1) struck_set.tree ≡ some struck_entry
unfolding find same_key netaddr_same same_bytes same_family
struck_entry_found = refl

abbrev FarBack : ℕ → Type 0
FarBack = IsFarBehind bits16 2

far_65000 : FarBack 65000
far_65000 = record { fits = omega arith; far = omega arith; back = omega arith }

far_64000 : FarBack 64000
far_64000 = record { fits = omega arith; far = omega arith; back = omega arith }

tests_reset_example :
    let (answers, after) = duplicate_tests struck_set 1 neighbor (65000 ∷ 64000 ∷ []) in
    let (r, set') = duplicate_test after 1 neighbor 65000 in
    All (λ a. a ≡ too_old) answers
    × (r ≡ newest)
    × (find (key_of neighbor 1) set'.tree
        ≡ some (record { history = 1; current = 65000; too_old_count = 0; vtime = 100 }))
tests_reset_example =
    tests_reset bits16 1 neighbor struck_set struck_entry (65000 ∷ 64000 ∷ []) 65000
      struck_set-IsOfType struck_entry-IsEntry struck_entry_found refl (far_65000, (far_64000, tt))
      far_65000

seven_fits : 7 < modulus bits16
seven_fits = omega arith

add-IsDupset_example : IsDupset bits16 (duplicate_entry_add set16 1 neighbor 7 50 true).1
add-IsDupset_example = add-IsDupset set16 1 neighbor 7 50 bits16 set16-IsDupset seven_fits true

first_accepted : (duplicate_entry_add set16 1 neighbor 7 50 true).0 ≢ too_old
unfolding duplicate_entry_add find
first_accepted e = cc

add_replay_example :
    let set' = (duplicate_entry_add set16 1 neighbor 7 50 true).1 in
    let r' = (duplicate_entry_add set' 1 neighbor 7 60 true).0 in (r' ≡ current) ⊎ (r' ≡ duplicate)
add_replay_example =
    add_replay set16 1 neighbor 7 50 bits16 set16-IsDupset seven_fits true true 60 first_accepted

-- Another message of the same originator with a newer number, one of another type, and a question
-- for a newer number.
abbrev calls_between : List Call
calls_between = add 1 neighbor 20 50 true ∷ add 2 neighbor 9 50 false ∷ query 1 neighbor 21 ∷ []

calls_between-Between : All (Between bits16 1 neighbor 7 seven_fits) calls_between
unfolding same_key
calls_between-Between = (
  inr (refl, refl, omega arith, omega arith),
  (inl refl, (inr (refl, refl, omega arith, omega arith), tt)),
)

run_replay_example :
    let set' = run (duplicate_entry_add set16 1 neighbor 7 50 true).1 calls_between in
    let r = (duplicate_entry_add set' 1 neighbor 7 60 true).0 in (r ≡ current) ⊎ (r ≡ duplicate)
run_replay_example =
    run_replay bits16 1 neighbor 7 seven_fits set16 50 true set16-IsDupset first_accepted
      calls_between calls_between-Between 60 true
