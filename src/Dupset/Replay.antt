-- ===== src/Dupset/Replay.antt =====
-- Testing a sequence number of one entry again.
use olsrd.Base.{ℕ, ◌<◌, ◌≡◌, ◌≢◌, ◌⊎◌, Bool, true, arith}
use olsrd.Dupset.{DupsetType, too_old, duplicate, current, DuplicateEntry, DuplicateSet, test}
use olsrd.Dupset.Difference.{modulus, IsOfType}
use olsrd.Dupset.Window.{IsEntry, seen, test-verdict}
use olsrd.Dupset.Window.Seen.{test-IsEntry, seen-test}

module _ (set : DuplicateSet) (type : DupsetType) (e : DuplicateEntry) (s : ℕ)
    (of_type : IsOfType set type) (valid : IsEntry type e) (fits : s < modulus type) where
  pub seen_again :
      (flag : Bool)
      → seen (modulus type) e s ≡ true
      → ((test set e s flag).0 ≡ current) ⊎ ((test set e s flag).0 ≡ duplicate)
  seen_again flag known = rw (test-verdict set type e s of_type valid fits flag) (ground arith)

module _ (set : DuplicateSet) (type : DupsetType) (e : DuplicateEntry) (s : ℕ)
    (of_type : IsOfType set type) (valid : IsEntry type e) (fits : s < modulus type) where
  pub seen_accepted :
      (test set e s true).0 ≢ too_old → seen (modulus type) (test set e s true).1 s ≡ true
  seen_accepted accepted = ground (arith, seen-test set type e s of_type valid fits accepted s fits)

  -- A number that was accepted is recognised when it comes again: the next test of it answers
  -- `current` or `duplicate`.
  pub test_replay :
      (flag : Bool)
      → (test set e s true).0 ≢ too_old
      → let again = (test set (test set e s true).1 s flag).0 in
        (again ≡ current) ⊎ (again ≡ duplicate)
  test_replay flag accepted =
      seen_again set type (test set e s true).1 s of_type
        (test-IsEntry set type e s of_type valid fits) fits flag (seen_accepted accepted)
