-- ===== src/Dupset/Window/Seen.antt =====
-- What an entry has seen after `_test` with the set flag.
use native.Mathlib.Decide.{dec_lt}
use olsrd.Base.{
  ℕ, ◌+◌, ◌-◌, ◌<◌, ◌≤◌, ◌≡◌, ◌≢◌, ap, true, ◌&&◌, ◌||◌, ltb, ◌==◌, arith, test_bit, inl, inr,
  test_bit-pow,
}
use olsrd.Dupset.{
  DupsetType, DuplicateResult, too_old, current, DuplicateEntry, DuplicateSet, test, test_old,
  test_window, test_ahead,
}
use olsrd.Dupset.Difference.{modulus, behind, IsOfType}
use olsrd.Dupset.Window.{seen, IsEntry, cleared, at_current, in_window, old, ahead, distance, turn}
use olsrd.Dupset.Window.Bits.{ahead_bits, window_bits, window_test}
use olsrd.Dupset.Window.Triangle.{Triangle, triangle}

module _ (type : DupsetType) (e : DuplicateEntry) (s : ℕ) (valid : IsEntry type e)
    (fits : s < modulus type) where
  abbrev m : ℕ
  m = modulus type

  abbrev b : ℕ
  b = behind m e.current s

  -- What an outcome of `_test` with the set flag leaves.
  pub record Updated (out : DuplicateResult × DuplicateEntry) : Type 0 where
    pub kept : IsEntry type out.1
    pub holds :
        (t : ℕ)
        → out.0 ≢ too_old
        → t < modulus type
        → seen m out.1 t ≡ (t == s || (seen m e t && ltb (behind m out.1.current t) 32))
    pub rejected : out.0 ≡ too_old → (out.1.history ≡ e.history) × (out.1.current ≡ e.current)

  tri : (t : ℕ) → t < modulus type → Triangle m e.current s t
  tri t ht = triangle type e.current s t valid.in_range fits ht

  Updated-current : b ≡ 0 → Updated (current, e)
  Updated-current h = record {
    kept = valid;
    holds = λ t ne ht. ground (arith, tri t ht, valid);
    rejected = λ x. cc;
  }

  Updated-window : 0 < b → b < 32 → Updated (test_window (cleared e) b true)
  unfolding test_window
  Updated-window h k = record {
    kept = ground (arith, valid, window_bits e.history b 0 k);
    holds = λ t ne ht. ground (
      arith,
      tri t ht,
      window_test e.history b k,
      window_bits e.history b (behind m e.current t) k,
    );
    rejected = ground arith;
  }

  Updated-old : 32 ≤ b → b + b ≤ m → Updated (test_old e s)
  unfolding test_old
  Updated-old h k = record {
    kept = ground (arith, valid, fits);
    holds = λ t ne ht. ground (arith, tri t ht, test_bit-pow 0 (behind m s t));
    rejected = ground arith;
  }

  holds_ahead :
      0 < behind m s e.current
      → m < b + b
      → (t : ℕ) → t < m
      → let e' = (test_ahead (cleared e) s (behind m s e.current) true).1 in
        seen m e' t ≡ (t == s || (seen m e t && ltb (behind m s t) 32))
  unfolding test_ahead
  holds_ahead h k t ht = elim (dec_lt (behind m s t) 32) [
    | no far ↦ ground (arith, tri t ht)
    | yes near ↦ elim (dec_lt (behind m s t) (behind m s e.current)) [
      | yes fresh ↦
          let outside = (tri t ht).between k fresh in
          ground
            (arith, tri t ht, ahead_bits e.history (behind m s e.current) (behind m s t) h near)
      | no older ↦
          let place : behind m s t - behind m s e.current ≡ behind m e.current t =
            omega (arith, (tri t ht).shifted k (omega arith)) in
          ground (
            arith,
            tri t ht,
            ap (test_bit e.history) place,
            (tri t ht).shifted k,
            ahead_bits e.history (behind m s e.current) (behind m s t) h near,
          )
    ]
  ]

  Updated-ahead :
      0 < behind m s e.current
      → m < b + b
      → Updated (test_ahead (cleared e) s (behind m s e.current) true)
  unfolding test_ahead
  Updated-ahead h k = record {
    kept = ground (arith, valid, fits, ahead_bits e.history (behind m s e.current) 0 h);
    holds = λ t ne ht. holds_ahead h k t ht;
    rejected = ground arith;
  }

module _ (set : DuplicateSet) (type : DupsetType) (e : DuplicateEntry) (s : ℕ)
    (of_type : IsOfType set type) (valid : IsEntry type e) (fits : s < modulus type) where
  pub test-Updated : Updated type e s valid fits (test set e s true)
  test-Updated = elim (distance (behind (modulus type) e.current s) (modulus type)) [
    | inl zero_behind ↦
        rw (at_current set type e s of_type valid fits true zero_behind)
          (Updated-current type e s valid fits zero_behind)
    | inr (inl (h, k)) ↦
        rw (in_window set type e s of_type valid fits true h k)
          (Updated-window type e s valid fits h k)
    | inr (inr (inl (h, k))) ↦
        rw (old set type e s of_type valid fits true h k) (Updated-old type e s valid fits h k)
    | inr (inr (inr (h, k))) ↦ rw (ahead set type e s of_type valid fits true h) (
        Updated-ahead type e s valid fits (omega (arith, turn type s e.current fits valid.in_range))
          h)
  ]

  -- `_test` with the set flag keeps the entry well formed: the current number in range and marked,
  -- and the counter of too old numbers within its limit.
  pub test-IsEntry : IsEntry type (test set e s true).1
  test-IsEntry = test-Updated.kept

  -- If `_test` with the set flag does not answer that the number is too old, then of the 32 numbers
  -- up to the new current one the entry has seen exactly the tested number and those it had seen
  -- before.
  pub seen-test :
      (test set e s true).0 ≢ too_old
      → (t : ℕ) → t < modulus type
      → let e' = (test set e s true).1 in
        seen (modulus type) e' t
        ≡ (t == s || (seen (modulus type) e t && ltb (behind (modulus type) e'.current t) 32))
  seen-test accepted t ht = test-Updated.holds t accepted ht

  -- If `_test` answers that the number is too old, the history and the current number stay.
  pub test-too_old :
      (test set e s true).0 ≡ too_old
      → ((test set e s true).1.history ≡ e.history) × ((test set e s true).1.current ≡ e.current)
  test-too_old = test-Updated.rejected
