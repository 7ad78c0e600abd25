-- ===== src/Rfc5444/TimeTlv/Vector.antt =====
-- The lookup in a vector of times and hop limits.
use olsrd.Base.{ℕ, ◌%◌, ◌≤◌, ◌<◌, ◌≡◌, refl, List, [], ◌∷◌, ◌++◌, length, All, arith}
use olsrd.Rfc5444.TimeTlv.{scan_vector, timetlv_get_from_vector}

-- The bytes of (value, hop limit) pairs.
abbrev pub pair_bytes : List (ℕ × ℕ) → List ℕ
pair_bytes [] = []
pair_bytes ((value, limit) ∷ rest) = value ∷ limit ∷ pair_bytes rest

length-pair_bytes :
    (pairs : List (ℕ × ℕ)) (last : ℕ) → length (pair_bytes pairs ++ last ∷ []) % 2 ≡ 1
length-pair_bytes [] last = omega arith
length-pair_bytes ((value, limit) ∷ rest) last = omega (arith, length-pair_bytes rest last)

module _ (hopcount : ℕ) where
  scan_vector-hit :
      (before : List (ℕ × ℕ)) (value limit : ℕ) (after : List (ℕ × ℕ)) (last : ℕ)
      → All (λ p. p.1 < hopcount) before
      → hopcount ≤ limit
      → scan_vector hopcount (pair_bytes (before ++ (value, limit) ∷ after) ++ last ∷ []) ≡ value
  unfolding scan_vector
  scan_vector-hit [] value limit after last h reached = ground arith
  scan_vector-hit ((v, l) ∷ before) value limit after last h reached =
      ground (arith, scan_vector-hit before value limit after last h.1 reached)

  scan_vector-miss :
      (before : List (ℕ × ℕ)) (last : ℕ)
      → All (λ p. p.1 < hopcount) before
      → scan_vector hopcount (pair_bytes before ++ last ∷ []) ≡ last
  unfolding scan_vector
  scan_vector-miss [] last h = refl
  scan_vector-miss ((v, l) ∷ before) last h = ground (arith, scan_vector-miss before last h.1)

-- In a vector of (value, hop limit) pairs that ends with one more value, the lookup gives the value
-- of the first pair whose limit reaches the hop count.
pub timetlv_get_from_vector-hit :
    (hopcount : ℕ) (before : List (ℕ × ℕ)) (value limit : ℕ) (after : List (ℕ × ℕ)) (last : ℕ)
    → All (λ p. p.1 < hopcount) before
    → hopcount ≤ limit
    → timetlv_get_from_vector (pair_bytes (before ++ (value, limit) ∷ after) ++ last ∷ []) hopcount
      ≡ value
unfolding timetlv_get_from_vector
timetlv_get_from_vector-hit hopcount before value limit after last h reached = ground (
  arith,
  length-pair_bytes (before ++ (value, limit) ∷ after) last,
  scan_vector-hit hopcount before value limit after last h reached,
)

-- If no limit of such a vector reaches the hop count, the lookup gives the last value.
timetlv_get_from_vector-miss :
    (hopcount : ℕ) (pairs : List (ℕ × ℕ)) (last : ℕ)
    → All (λ p. p.1 < hopcount) pairs
    → timetlv_get_from_vector (pair_bytes pairs ++ last ∷ []) hopcount ≡ last
unfolding timetlv_get_from_vector
timetlv_get_from_vector-miss hopcount pairs last h =
    ground (arith, length-pair_bytes pairs last, scan_vector-miss hopcount pairs last h)
