-- ===== src/Base/Bits.antt =====
-- The bits of a number, and what `bit_and` and `bit_or` do to them. The libraries have no laws of
-- these at variables; they follow from the digit recursion that the native operations stand for.
use Prim.Native.Nat.{
  ℕ, zero, suc, ◌+◌, ◌-◌, ◌*◌, ◌/◌, ◌%◌, ◌^◌, ◌≤◌, ◌<◌, min, max, bit_and, bit_or, digits,
  bit_and-bitwise, bit_or-bitwise,
}
use mathlib.Core.Path.{◌≡◌, refl, ap, sym, ◌∙◌}
use mathlib.Core.Bool.{Bool, false, ◌&&◌, ◌||◌}
use native.Mathlib.Nat.{pow-suc, sub-zero, mul-one, mul_comm, div-div-eq-div-mul, div-add-mod}
use native.Mathlib.Omega.{arith}
use olsrd.Base.Tests.{◌==◌, ltb, leb, if◌then◌else◌}

-- The digit recursion needs no more fuel than its first number: what is left over changes nothing.
module _ (rest : ℕ → ℕ) (op : ℕ → ℕ → ℕ) where
  abbrev run : ℕ → ℕ → ℕ → ℕ
  run fuel a b = digits rest op fuel a b

  run-zero : (fuel b : ℕ) → run fuel 0 b ≡ rest b
  run-zero zero b = refl
  run-zero (suc fuel) b = refl

  spare_fuel : (a fuel spare b : ℕ) → a ≤ fuel → run (fuel + spare) a b ≡ run fuel a b
  spare_fuel zero fuel spare b enough = run-zero (fuel + spare) b ∙ sym (run-zero fuel b)
  spare_fuel (suc a) zero spare b enough = absurd (omega arith)
  spare_fuel (suc a) (suc fuel) spare b enough =
      let one_left : suc fuel + spare ≡ suc (fuel + spare) = omega arith in
      ap (λ f. run f (suc a) b) one_left
      ∙ ap (λ high. high * 2 + op (suc a % 2) (b % 2))
          (spare_fuel (suc a / 2) fuel spare (b / 2) (omega arith))

  lowest_digit :
      (a b : ℕ)
      → run (suc a) (suc a) b ≡ run (suc a / 2) (suc a / 2) (b / 2) * 2 + op (suc a % 2) (b % 2)
  lowest_digit a b =
      let h = suc a / 2 in
      let fits : h + (a - h) ≡ a = omega arith in
      ap (λ high. high * 2 + op (suc a % 2) (b % 2))
        (sym (ap (λ f. run f h (b / 2)) fits) ∙ spare_fuel h h (a - h) (b / 2) (omega arith))

pub bit_and_halves : (m n : ℕ) → bit_and m n ≡ min (m % 2) (n % 2) + 2 * bit_and (m / 2) (n / 2)
bit_and_halves zero n = omega (arith, bit_and-bitwise 0 n, bit_and-bitwise 0 (n / 2))
bit_and_halves (suc m) n =
    let whole = bit_and-bitwise (suc m) n ∙ lowest_digit (λ y. 0) min m n in
    omega (arith, whole, bit_and-bitwise (suc m / 2) (n / 2))

pub bit_or_halves : (m n : ℕ) → bit_or m n ≡ max (m % 2) (n % 2) + 2 * bit_or (m / 2) (n / 2)
bit_or_halves zero n = omega (arith, bit_or-bitwise 0 n, bit_or-bitwise 0 (n / 2))
bit_or_halves (suc m) n =
    let whole = bit_or-bitwise (suc m) n ∙ lowest_digit (λ y. y) max m n in
    omega (arith, whole, bit_or-bitwise (suc m / 2) (n / 2))

-- Bit `k` of `n`.
abbrev pub test_bit : ℕ → ℕ → Bool
test_bit n zero = n % 2 == 1
test_bit n (suc k) = test_bit (n / 2) k

pub zero-test_bit : (k : ℕ) → test_bit 0 k ≡ false
zero-test_bit zero = refl
zero-test_bit (suc k) = zero-test_bit k

half_of_double : (x r : ℕ) → r < 2 → ((x * 2 + r) / 2 ≡ x) × ((x * 2 + r) % 2 ≡ r)
half_of_double x r h = omega arith

pub test_bit-and : (a b k : ℕ) → test_bit (bit_and a b) k ≡ (test_bit a k && test_bit b k)
test_bit-and a b zero = ground (arith, bit_and_halves a b)
test_bit-and a b (suc k) =
    let e : bit_and a b / 2 ≡ bit_and (a / 2) (b / 2) = omega (arith, bit_and_halves a b) in
    rw e (test_bit-and (a / 2) (b / 2) k)

pub test_bit-or : (a b k : ℕ) → test_bit (bit_or a b) k ≡ (test_bit a k || test_bit b k)
test_bit-or a b zero = ground (arith, bit_or_halves a b)
test_bit-or a b (suc k) =
    let e : bit_or a b / 2 ≡ bit_or (a / 2) (b / 2) = omega (arith, bit_or_halves a b) in
    rw e (test_bit-or (a / 2) (b / 2) k)

double-pow : (k : ℕ) → (2 ^ suc k / 2 ≡ 2 ^ k) × (2 ^ suc k % 2 ≡ 0)
double-pow k = omega (arith, pow-suc 2 k)

-- A shifted bit: 2 ^ d has bit d and no other.
pub test_bit-pow : (d k : ℕ) → test_bit (2 ^ d) k ≡ (d == k)
test_bit-pow zero zero = refl
test_bit-pow zero (suc k) = ground (arith, zero-test_bit k)
test_bit-pow (suc d) zero = ground (arith, double-pow d)
test_bit-pow (suc d) (suc k) = rw ((double-pow d).0) (ground (arith, test_bit-pow d k))

none_left : (fuel a : ℕ) → digits (λ y. 0) min fuel a 0 ≡ 0
none_left zero a = refl
none_left (suc fuel) zero = refl
none_left (suc fuel) (suc a) = let lower = none_left fuel (suc a / 2) in omega arith

bit_and-zero : (a : ℕ) → bit_and a 0 ≡ 0
bit_and-zero a = bit_and-bitwise a 0 ∙ none_left a a

pub pow-pos : (k : ℕ) → 0 < 2 ^ k
pow-pos zero = omega arith
pow-pos (suc k) = omega (arith, pow-suc 2 k, pow-pos k)

half_mask : (k : ℕ) → (2 ^ suc k - 1) / 2 ≡ 2 ^ k - 1
half_mask k = omega (arith, pow-suc 2 k, pow-pos k)

mul-suc : (n d : ℕ) → n * 2 ^ suc d ≡ n * 2 ^ d * 2
mul-suc n d = omega (arith, ap (λ m. n * m) (pow-suc 2 d))

-- `x & (1 << k)` tests bit `k`.
pub bit_and-pow : (h k : ℕ) → bit_and h (2 ^ k) ≡ (if test_bit h k then 2 ^ k else 0)
bit_and-pow h zero = ground (arith, bit_and_halves h 1, bit_and-zero (h / 2))
bit_and-pow h (suc k) =
    ground (arith, bit_and_halves h (2 ^ suc k), double-pow k, bit_and-pow (h / 2) k, pow-suc 2 k)

mod-double : (n p : ℕ) → n % (p * 2) ≡ n / 2 % p * 2 + n % 2
mod-double n p =
    let whole : 2 * p * (n / 2 / p) + n % (2 * p) ≡ n =
      rw (div-div-eq-div-mul n 2 p) (div-add-mod n (2 * p)) in
    omega (arith, whole, div-add-mod (n / 2) p, ap (λ m. n % m) (mul_comm p 2))

-- `x & (2 ^ k - 1)` keeps the lowest `k` bits.
pub bit_and-mask : (h k : ℕ) → bit_and h (2 ^ k - 1) ≡ h % 2 ^ k
bit_and-mask h zero = omega (arith, bit_and-zero h)
bit_and-mask h (suc k) = omega (
  arith,
  bit_and_halves h (2 ^ suc k - 1),
  ap (λ m. bit_and (h / 2) m) (half_mask k),
  bit_and-mask (h / 2) k,
  mod-double h (2 ^ k),
  ap (λ m. h % m) (pow-suc 2 k),
  pow-suc 2 k,
  pow-pos k,
)

pub test_bit-mod : (n w k : ℕ) → test_bit (n % 2 ^ w) k ≡ (ltb k w && test_bit n k)
test_bit-mod n zero k = ground (arith, zero-test_bit k)
test_bit-mod n (suc w) zero = ground (arith, mod-double n (2 ^ w), ap (λ m. n % m) (pow-suc 2 w))
test_bit-mod n (suc w) (suc k) =
    let e : n % 2 ^ suc w / 2 ≡ n / 2 % 2 ^ w =
      omega (arith, mod-double n (2 ^ w), ap (λ m. n % m) (pow-suc 2 w)) in
    rw e (ground (arith, test_bit-mod (n / 2) w k))

-- Bits of `x << d` before it is cut to the word.
pub test_bit-shift : (n d k : ℕ) → test_bit (n * 2 ^ d) k ≡ (leb d k && test_bit n (k - d))
test_bit-shift n zero k =
    ground (arith, ap (λ m. test_bit n m) (sub-zero k), ap (λ m. test_bit m k) (mul-one n))
test_bit-shift n (suc d) zero = ground (arith, mul-suc n d)
test_bit-shift n (suc d) (suc k) =
    let e : n * 2 ^ suc d / 2 ≡ n * 2 ^ d = omega (arith, mul-suc n d) in
    rw e (ground (arith, test_bit-shift n d k))
