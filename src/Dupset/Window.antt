-- ===== src/Dupset/Window.antt =====
-- The history of an entry as the set of sequence numbers that it has seen, out of the 32 up to the
-- current one.
mod Bits
pub mod Triangle
pub mod Seen
pub mod Kept
use native.Mathlib.Decide.{dec_lt}
use olsrd.Base.{
  ℕ, zero, suc, ◌+◌, ◌-◌, ◌%◌, ◌^◌, ◌<◌, ◌≤◌, ◌≡◌, ◌≢◌, refl, ap, ◌∙◌, Bool, true, false, ◌&&◌,
  ◌||◌, ltb, leb, ◌==◌, if◌then◌else◌, arith, test_bit, ◌⊎◌, inl, inr, Bool-cases, ℤ, pos, negsuc,
}
use olsrd.Dupset.{
  DupsetType, bits8, bits16, bits32, bits64, DuplicateResult, too_old, duplicate, new, current,
  newest, first, DuplicateEntry, DuplicateSet, test, test_diff, test_old, test_window, test_ahead,
  seqno_difference, maximum_too_old,
}
use olsrd.Dupset.Difference.{modulus, behind, nearest, IsOfType, seqno_difference-nearest}
use Bits.{ahead_bits, window_bits, window_test}

-- `t` is one of the last 32 numbers and its bit is set.
abbrev pub seen : ℕ → DuplicateEntry → ℕ → Bool
seen m e t = ltb (behind m e.current t) 32 && test_bit e.history (behind m e.current t)

-- The current number is marked, and the counter of old numbers is within its limit.
pub record IsEntry (type : DupsetType) (e : DuplicateEntry) : Type 0 where
  pub in_range : e.current < modulus type
  pub marked : test_bit e.history 0 ≡ true
  pub strikes : e.too_old_count ≤ maximum_too_old

-- What the answer should be: for a number `b` behind the current one.
abbrev pub verdict : ℕ → DuplicateEntry → ℕ → DuplicateResult
verdict m e s =
    let b = behind m e.current s in
    if b == 0
    then current
    else if ltb b 32
    then (if seen m e s then duplicate else new)
    else if ltb m (b + b)
    then newest
    else if e.too_old_count == maximum_too_old
    then newest
    else too_old

-- Two different numbers are on opposite ways round, and two equal ones are at distance 0.
record Turn (m s c : ℕ) : Type 0 where
  wide : 256 ≤ m
  round :
      (s ≡ c) × (behind m c s ≡ 0)
      ⊎ (s ≢ c) × (behind m s c + behind m c s ≡ m) × (0 < behind m c s) × (0 < behind m s c)

turn : (type : DupsetType) (s c : ℕ) → s < modulus type → c < modulus type → Turn (modulus type) s c
turn bits8 s c hs hc = record { wide = omega arith; round = ground arith }
turn bits16 s c hs hc = record { wide = omega arith; round = ground arith }
turn bits32 s c hs hc = record { wide = omega arith; round = ground arith }
turn bits64 s c hs hc = record { wide = omega arith; round = ground arith }

abbrev cleared : DuplicateEntry → DuplicateEntry
cleared e = record e { too_old_count = 0 }

diff-window :
    (e : DuplicateEntry) (s n : ℕ) (flag : Bool)
    → n < 31
    → test_diff e s flag (negsuc n) ≡ test_window (cleared e) (suc n) flag
unfolding test_diff
diff-window e s n flag h = ground arith

diff-old :
    (e : DuplicateEntry) (s n : ℕ) (flag : Bool)
    → 31 ≤ n
    → test_diff e s flag (negsuc n) ≡ test_old e s
unfolding test_diff
diff-old e s n flag h = ground arith

diff-ahead :
    (e : DuplicateEntry) (s n : ℕ) (flag : Bool)
    → 0 < n
    → test_diff e s flag (pos n) ≡ test_ahead (cleared e) s n flag
unfolding test_diff
diff-ahead e s n flag h = ground arith

-- Which part of `_test` answers, by how far the number is behind.
distance :
    (b m : ℕ) → (b ≡ 0) ⊎ ((0 < b) × (b < 32) ⊎ ((32 ≤ b) × (b + b ≤ m) ⊎ (m < b + b) × (32 ≤ b)))
distance b m = elim (dec_lt 0 b) [
  | no h ↦ inl (omega arith)
  | yes h ↦ elim (dec_lt b 32) [
    | yes k ↦ inr (inl (h, k))
    | no k ↦ elim (dec_lt m (b + b)) [
      | yes l ↦ inr (inr (inr (l, omega arith)))
      | no l ↦ inr (inr (inl (omega arith, omega arith)))
    ]
  ]
]

verdict-window :
    (e : DuplicateEntry) (n : ℕ) (flag : Bool)
    → n < 32
    → (test_window e n flag).0 ≡ (if test_bit e.history n then duplicate else new)
unfolding test_window
verdict-window e n flag h = ground (arith, window_test e.history n h)

verdict-old :
    (e : DuplicateEntry) (s : ℕ)
    → e.too_old_count ≤ maximum_too_old
    → (test_old e s).0 ≡ (if e.too_old_count == maximum_too_old then newest else too_old)
unfolding test_old
verdict-old e s h = ground arith

verdict-ahead : (e : DuplicateEntry) (s n : ℕ) (flag : Bool) → (test_ahead e s n flag).0 ≡ newest
unfolding test_ahead
verdict-ahead e s n flag = refl

module _ (set : DuplicateSet) (type : DupsetType) (e : DuplicateEntry) (s : ℕ)
    (of_type : IsOfType set type) (valid : IsEntry type e) (fits : s < modulus type)
    (flag : Bool) where
  abbrev b : ℕ
  b = behind (modulus type) e.current s

  facts : Turn (modulus type) s e.current
  facts = turn type s e.current fits valid.in_range

  at_current : b ≡ 0 → test set e s flag ≡ (current, e)
  unfolding test
  at_current h = ground (arith, facts)

  back : 0 < b → b + b ≤ modulus type → seqno_difference set s e.current ≡ negsuc (b - 1)
  back h k =
      ground
        (arith, facts, seqno_difference-nearest set type s e.current of_type fits valid.in_range)

  forth :
      modulus type < b + b
      → seqno_difference set s e.current ≡ pos (behind (modulus type) s e.current)
  forth h =
      ground
        (arith, facts, seqno_difference-nearest set type s e.current of_type fits valid.in_range)

  other : 0 < b → test set e s flag ≡ test_diff e s flag (seqno_difference set s e.current)
  unfolding test
  other h = let ne : (s == e.current) ≡ false = ground (arith, facts) in rw ne

  in_window : 0 < b → b < 32 → test set e s flag ≡ test_window (cleared e) b flag
  in_window h k =
      let n : suc (b - 1) ≡ b = omega arith in
      other h
      ∙ (ap (test_diff e s flag) (back h (omega (arith, facts)))
          ∙ (diff-window e s (b - 1) flag (omega arith)
              ∙ ap (λ n. test_window (cleared e) n flag) n))

  pub old : 32 ≤ b → b + b ≤ modulus type → test set e s flag ≡ test_old e s
  old h k =
      other (omega arith)
      ∙ (ap (test_diff e s flag) (back (omega arith) k) ∙ diff-old e s (b - 1) flag (omega arith))

  ahead :
      modulus type < b + b
      → test set e s flag ≡ test_ahead (cleared e) s (behind (modulus type) s e.current) flag
  ahead h =
      other (omega (arith, facts))
      ∙ (ap (test_diff e s flag) (forth h)
          ∙ diff-ahead e s (behind (modulus type) s e.current) flag (omega (arith, facts)))

  -- `_test` answers `verdict`.
  pub test-verdict : (test set e s flag).0 ≡ verdict (modulus type) e s
  test-verdict = elim (distance b (modulus type)) [
    | inl zero_behind ↦ rw (at_current zero_behind) (ground arith)
    | inr (inl (h, k)) ↦ rw (in_window h k) (ground (arith, verdict-window (cleared e) b flag k))
    | inr (inr (inl (h, k))) ↦ rw (old h k) (ground (arith, verdict-old e s valid.strikes))
    | inr (inr (inr (h, k))) ↦
        rw (ahead h)
          (ground (arith, verdict-ahead (cleared e) s (behind (modulus type) s e.current) flag))
  ]
