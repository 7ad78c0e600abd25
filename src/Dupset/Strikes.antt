-- ===== src/Dupset/Strikes.antt =====
-- A row of calls of `oonf_duplicate_test`, which calls `_test` without the set flag, with numbers that
-- are far behind the current one.
use olsrd.Base.{
  ℕ, ◌+◌, ◌<◌, ◌≤◌, ◌≡◌, refl, subst, suc, false, some, List, [], ◌∷◌, length, All, arith,
}
use olsrd.Common.Tree.{find, update, find-update, same_refl}
use olsrd.Common.Netaddr.{Netaddr}
use olsrd.Dupset.{
  DupsetType, DuplicateResult, too_old, newest, EntryKey, entry_key, DuplicateEntry, DuplicateSet,
  test_old, duplicate_test, maximum_too_old,
}
use olsrd.Dupset.Difference.{modulus, behind, IsOfType}
use olsrd.Dupset.Window.{IsEntry, old}
use olsrd.Dupset.Entries.{key_of}

-- A number that `_test` takes for an old one: at least 32 behind, and at most half way round.
pub record IsFarBehind (type : DupsetType) (current s : ℕ) : Type 0 where
  pub fits : s < modulus type
  pub far : 32 ≤ behind (modulus type) current s
  pub back : behind (modulus type) current s + behind (modulus type) current s ≤ modulus type

-- Calls of `oonf_duplicate_test` one after the other, with their answers.
pub duplicate_tests : DuplicateSet → ℕ → Netaddr → List ℕ → List DuplicateResult × DuplicateSet
duplicate_tests set msg_type originator [] = ([], set)
duplicate_tests set msg_type originator (s ∷ rest) =
    let (r, set') = duplicate_test set msg_type originator s in
    let (answers, after) = duplicate_tests set' msg_type originator rest in (r ∷ answers, after)

module _ (type : DupsetType) (msg_type : ℕ) (originator : Netaddr) where
  abbrev key : EntryKey
  key = key_of originator msg_type

  -- What a call does for a number far behind.
  tested :
      (set : DuplicateSet) (e : DuplicateEntry) (s : ℕ)
      → IsOfType set type
      → IsEntry type e
      → find key set.tree ≡ some e
      → IsFarBehind type e.current s
      → duplicate_test set msg_type originator s
        ≡ ((test_old e s).0, record set { tree = update key (test_old e s).1 set.tree })
  unfolding duplicate_test
  tested set e s of_type valid at behind_it =
      rw
        (
          at,
          duplicate_test,
          old set type e s of_type valid behind_it.fits false behind_it.far behind_it.back,
        )
        refl

  stored :
      (set : DuplicateSet) (e e' : DuplicateEntry)
      → find key set.tree ≡ some e
      → find key (update key e' set.tree) ≡ some e'
  stored set e e' at = rw (find-update key key e' set.tree, same_refl key, at) refl

  struck :
      (e : DuplicateEntry) (s : ℕ)
      → e.too_old_count < maximum_too_old
      → test_old e s ≡ (too_old, record e { too_old_count = e.too_old_count + 1 })
  unfolding test_old
  struck e s few = ground arith

  reset :
      (e : DuplicateEntry) (s : ℕ)
      → e.too_old_count ≡ maximum_too_old
      → test_old e s ≡ (newest, record e { history = 1; too_old_count = 0; current = s })
  unfolding test_old
  reset e s full = ground arith

  -- What stays true of a set in a row: the entry is `e` but for its counter.
  record IsStruck (e : DuplicateEntry) (n : ℕ) (set : DuplicateSet) : Type 0 where
    of_type : IsOfType set type
    valid : IsEntry type (record e { too_old_count = n })
    at : find key set.tree ≡ some (record e { too_old_count = n })

  strike :
      (e : DuplicateEntry) (n s : ℕ) (set : DuplicateSet)
      → IsStruck e n set
      → n < maximum_too_old
      → IsFarBehind type e.current s
      → ((duplicate_test set msg_type originator s).0 ≡ too_old)
        × IsStruck e (n + 1) (duplicate_test set msg_type originator s).1
  strike e n s set struck_n few here =
      let before : DuplicateEntry = record e { too_old_count = n } in
      rw (tested set before s struck_n.of_type struck_n.valid struck_n.at here, struck before s few)
        (
          refl,
          record {
            of_type = record {
              mask_is = struck_n.of_type.mask_is;
              limit_is = struck_n.of_type.limit_is;
              offset_is = struck_n.of_type.offset_is;
            };
            valid = record {
              in_range = struck_n.valid.in_range;
              marked = struck_n.valid.marked;
              strikes = omega arith;
            };
            at = stored set before (record e { too_old_count = n + 1 }) struck_n.at;
          },
        )

  row :
      (e : DuplicateEntry) (numbers : List ℕ) (n : ℕ) (set : DuplicateSet)
      → IsStruck e n set
      → n + length numbers ≤ maximum_too_old
      → All (IsFarBehind type e.current) numbers
      → let (answers, after) = duplicate_tests set msg_type originator numbers in
        All (λ r. r ≡ too_old) answers × IsStruck e (n + length numbers) after
  unfolding duplicate_tests
  row e [] n set known few far =
      let same : n ≡ n + 0 = omega arith in (tt, subst (λ k. IsStruck e k set) same known)
  row e (s ∷ rest) n set known few (here, others) =
      let (answer, next) = strike e n s set known (omega arith) here in
      let set' = (duplicate_test set msg_type originator s).1 in
      let (answers, last) = row e rest (n + 1) set' next (omega arith) others in
      let same : n + 1 + length rest ≡ n + suc (length rest) = omega arith in
      (
        (answer, answers),
        subst (λ k. IsStruck e k (duplicate_tests set' msg_type originator rest).1) same last,
      )

  -- `oonf_duplicate_test`, which calls `_test` without the set flag, does not leave a well-formed
  -- entry unchanged: calls in a row with numbers at least 32 behind its current one and at most half
  -- way round, eight of them or as many as its counter of too old numbers lacks to eight, answer
  -- `too_old`, and one more answers `newest` and makes its number the current one, with a history of
  -- nothing else. The timer of the entry stays.
  pub tests_reset :
      (set : DuplicateSet) (e : DuplicateEntry) (numbers : List ℕ) (s : ℕ)
      → IsOfType set type
      → IsEntry type e
      → find key set.tree ≡ some e
      → e.too_old_count + length numbers ≡ 8
      → All (IsFarBehind type e.current) numbers
      → IsFarBehind type e.current s
      → let (answers, after) = duplicate_tests set msg_type originator numbers in
        let (r, set') = duplicate_test after msg_type originator s in
        All (λ r. r ≡ too_old) answers
        × (r ≡ newest)
        × (find key set'.tree
            ≡ some (record { history = 1; current = s; too_old_count = 0; vtime = e.vtime }))
  tests_reset set e numbers s of_type valid at eight far here =
      let start : IsStruck e e.too_old_count set = record {
        of_type = of_type;
        valid = valid;
        at = at;
      } in
      let (answers, last) = row e numbers e.too_old_count set start (omega arith) far in
      let after = (duplicate_tests set msg_type originator numbers).1 in
      let full : DuplicateEntry = record e { too_old_count = e.too_old_count + length numbers } in
      rw (tested after full s last.of_type last.valid last.at here, reset full s (omega arith))
        (answers, refl, stored after full _ last.at)
