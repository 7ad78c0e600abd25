-- ===== src/Dupset/Window/Bits.antt =====
-- What the operations of `_test` on the history do to its bits.
use native.Mathlib.Nat.{pow-le-pow_right}
use olsrd.Base.{
  ℕ, ◌-◌, ◌*◌, ◌%◌, ◌^◌, ◌<◌, ◌≤◌, ◌≡◌, ◌&&◌, ◌||◌, not, ltb, leb, ◌==◌, if◌then◌else◌, arith,
  test_bit, bit_and, bit_or, bit_and-pow, test_bit-or, test_bit-pow, test_bit-mod, test_bit-shift,
  pow-pos,
}

below_32 : {b : ℕ} → b < 32 → b ≤ 31
below_32 h = omega arith

mask_small : (b : ℕ) → b < 32 → 2 ^ b % 2 ^ 32 ≡ 2 ^ b
mask_small b h =
    let small : 2 ^ b ≤ 2 ^ 31 = pow-le-pow_right (omega arith) (below_32 h) in omega arith

pub window_test : (h b : ℕ) → b < 32 → not (bit_and h (2 ^ b % 2 ^ 32) == 0) ≡ test_bit h b
window_test h b lt = rw (mask_small b lt) (ground (arith, bit_and-pow h b, pow-pos b))

pub window_bits :
    (h b a : ℕ) → b < 32 → test_bit (bit_or h (2 ^ b % 2 ^ 32)) a ≡ (test_bit h a || b == a)
window_bits h b a lt = rw (mask_small b lt, test_bit-or, test_bit-pow)

pub ahead_bits :
    (h d a : ℕ)
    → 0 < d
    → a < 32
    → test_bit (if not (ltb d 32) then 1 else bit_or (h * 2 ^ d % 2 ^ 64) 1) a
      ≡ (a == 0 || (leb d a && test_bit h (a - d)))
ahead_bits h d a pos_d small = ground (
  arith,
  test_bit-pow 0 a,
  test_bit-or (h * 2 ^ d % 2 ^ 64) 1 a,
  test_bit-mod (h * 2 ^ d) 64 a,
  test_bit-shift h d a,
)
