-- ===== src/Common/Subnet/Bits.antt =====
-- The prefix test of netaddr.c compares the first bits of two addresses.
use native.Mathlib.Nat.{pow-suc, div-div-eq-div-mul, mul_comm}
use native.Mathlib.Decide.{dec_lt}
use olsrd.Base.{
  ℕ, zero, suc, ◌+◌, ◌-◌, ◌*◌, ◌/◌, ◌%◌, ◌^◌, ◌<◌, ◌≤◌, ◌≡◌, ◌∙◌, sym, ap, refl, subst, Bool, true,
  List, [], ◌∷◌, length, All, test_bit, arith, ◌↔◌,
}
use olsrd.Common.Netaddr.{Netaddr, same_family_iff}
use olsrd.Common.Subnet.{same_first, byte, binary_is_in_subnet, is_in_subnet}

-- The bits of an address in the order of the network: the highest bit of the first byte first.
abbrev pub bit : List ℕ → ℕ → Bool
bit xs i = test_bit (byte xs (i / 8)) (7 - i % 8)

-- Numbers with the same bits are the same.
same_bits :
    (w x y : ℕ) → x < 2 ^ w → y < 2 ^ w → ((k : ℕ) → k < w → test_bit x k ≡ test_bit y k) → x ≡ y
same_bits zero x y hx hy same = omega arith
same_bits (suc w) x y hx hy same =
    let p = pow-suc 2 w in
    let high =
      same_bits w (x / 2) (y / 2) (omega arith) (omega arith) (λ k h. same (suc k) (omega arith)) in
    let low = same 0 (omega arith) in ground arith

test_bit-div : (s x k : ℕ) → test_bit (x / 2 ^ s) k ≡ test_bit x (s + k)
test_bit-div zero x k =
    let whole : x / 2 ^ 0 ≡ x = omega arith in
    let same : k ≡ 0 + k = omega arith in ap (λ m. test_bit m k) whole ∙ ap (λ i. test_bit x i) same
test_bit-div (suc s) x k =
    let halves : x / 2 ^ suc s ≡ x / 2 / 2 ^ s =
      ap (λ m. x / m) (pow-suc 2 s ∙ mul_comm (2 ^ s) 2) ∙ sym (div-div-eq-div-mul x 2 (2 ^ s)) in
    let next : suc (s + k) ≡ suc s + k = omega arith in
    ap (λ m. test_bit m k) halves ∙ (test_bit-div s (x / 2) k ∙ ap (λ i. test_bit x i) next)

byte-same :
    (n : ℕ) (xs ys : List ℕ) (j : ℕ) → same_first n xs ys ≡ true → j < n → byte xs j ≡ byte ys j
unfolding same_first
byte-same zero xs ys j h lt = absurd (omega arith)
byte-same (suc n) [] ys j h lt = absurd (ground arith)
byte-same (suc n) (x ∷ xs) [] j h lt = absurd (ground arith)
byte-same (suc n) (x ∷ xs) (y ∷ ys) zero h lt = ground arith
byte-same (suc n) (x ∷ xs) (y ∷ ys) (suc j) h lt = byte-same n xs ys j (ground arith) (omega arith)

same_first-byte :
    (n : ℕ) (xs ys : List ℕ)
    → n ≤ length xs
    → n ≤ length ys
    → ((j : ℕ) → j < n → byte xs j ≡ byte ys j)
    → same_first n xs ys ≡ true
unfolding same_first
same_first-byte zero xs ys hx hy same = refl
same_first-byte (suc n) [] ys hx hy same = absurd (omega arith)
same_first-byte (suc n) (x ∷ xs) [] hx hy same = absurd (omega arith)
same_first-byte (suc n) (x ∷ xs) (y ∷ ys) hx hy same =
    let head = same 0 (omega arith) in
    let tail =
      same_first-byte n xs ys (omega arith) (omega arith) (λ j h. same (suc j) (omega arith)) in
    ground arith

-- A buffer of bytes.
abbrev pub Bytes : List ℕ → Type 0
Bytes xs = All (λ x. x < 256) xs

byte-bounded : (xs : List ℕ) (j : ℕ) → Bytes xs → byte xs j < 256
byte-bounded [] j all = omega arith
byte-bounded (x ∷ xs) zero all = all.0
byte-bounded (x ∷ xs) (suc j) all = byte-bounded xs j all.1

div-bounded : (s b x : ℕ) → x < 2 ^ (s + b) → x / 2 ^ s < 2 ^ b
div-bounded zero b x lt =
    let same : b ≡ 0 + b = omega arith in let e = ap (λ i. 2 ^ i) same in omega arith
div-bounded (suc s) b x lt =
    let halves : x / 2 ^ suc s ≡ x / 2 / 2 ^ s =
      ap (λ m. x / m) (pow-suc 2 s ∙ mul_comm (2 ^ s) 2) ∙ sym (div-div-eq-div-mul x 2 (2 ^ s)) in
    let next : suc s + b ≡ suc (s + b) = omega arith in
    let e = ap (λ i. 2 ^ i) next ∙ pow-suc 2 (s + b) in
    let rest = div-bounded s b (x / 2) (omega arith) in omega arith

-- The highest `b` bits of two bytes are the same where the rest of their shifts are.
same_shifts :
    (b x y : ℕ)
    → b ≤ 8
    → x < 256
    → y < 256
    → ((k : ℕ) → 8 - b ≤ k → k < 8 → test_bit x k ≡ test_bit y k)
    → x / 2 ^ (8 - b) ≡ y / 2 ^ (8 - b)
same_shifts b x y hb hx hy same =
    let whole : 2 ^ (8 - b + b) ≡ 256 =
      ap (λ i. 2 ^ i) (let e : 8 - b + b ≡ 8 = omega arith in e) in
    same_bits b (x / 2 ^ (8 - b)) (y / 2 ^ (8 - b)) (div-bounded (8 - b) b x (omega arith))
      (div-bounded (8 - b) b y (omega arith))
      (λ k h.
        test_bit-div (8 - b) x k
        ∙ (same (8 - b + k) (omega arith) (omega arith) ∙ sym (test_bit-div (8 - b) y k)))

shifts-same : (s x y k : ℕ) → x / 2 ^ s ≡ y / 2 ^ s → s ≤ k → test_bit x k ≡ test_bit y k
shifts-same s x y k h le =
    let at : s + (k - s) ≡ k = omega arith in
    sym (ap (λ i. test_bit x i) at)
    ∙ (sym (test_bit-div s x (k - s))
        ∙ (ap (λ m. test_bit m (k - s)) h ∙ (test_bit-div s y (k - s) ∙ ap (λ i. test_bit y i) at)))

-- The first `p` bits are the same.
abbrev pub Agree : List ℕ → List ℕ → ℕ → Type 0
Agree xs ys p = (i : ℕ) → i < p → bit xs i ≡ bit ys i

module _ (subnet : Netaddr) (ys : List ℕ) where
  abbrev xs : List ℕ
  xs = subnet.addr

  abbrev p : ℕ
  p = subnet.prefix_len

  Agree-in_subnet : binary_is_in_subnet subnet ys ≡ true → Agree xs ys p
  unfolding binary_is_in_subnet
  Agree-in_subnet h i lt =
      let first : same_first (p / 8) xs ys ≡ true = ground arith in
      elim (dec_lt (i / 8) (p / 8)) [
        | yes before ↦
            ap (λ b. test_bit b (7 - i % 8)) (byte-same (p / 8) xs ys (i / 8) first before)
        | no there ↦
            let last : i / 8 ≡ p / 8 = omega arith in
            let shifts : byte xs (p / 8) / 2 ^ (8 - p % 8) ≡ byte ys (p / 8) / 2 ^ (8 - p % 8) =
              ground arith in
            subst (λ j. test_bit (byte xs j) (7 - i % 8) ≡ test_bit (byte ys j) (7 - i % 8))
              (sym last)
              (shifts-same (8 - p % 8) (byte xs (p / 8)) (byte ys (p / 8)) (7 - i % 8) shifts
                (omega arith))
      ]

  Agree-byte :
      Agree xs ys p
      → (j k : ℕ) → 8 * j + 8 ≤ p + k
      → k < 8
      → test_bit (byte xs j) k ≡ test_bit (byte ys j) k
  Agree-byte agree j k le hk =
      let i = 8 * j + (7 - k) in
      let in_byte : i / 8 ≡ j = omega arith in
      let in_bit : 7 - i % 8 ≡ k = omega arith in
      subst (λ b. test_bit (byte xs j) b ≡ test_bit (byte ys j) b) in_bit
        (subst (λ b. test_bit (byte xs b) (7 - i % 8) ≡ test_bit (byte ys b) (7 - i % 8)) in_byte
          (agree i (omega arith)))

  in_subnet-Agree :
      Bytes xs
      → Bytes ys
      → p ≤ 8 * length xs
      → p ≤ 8 * length ys
      → Agree xs ys p
      → binary_is_in_subnet subnet ys ≡ true
  unfolding binary_is_in_subnet
  in_subnet-Agree bx by lx ly agree =
      let at : (j k : ℕ)
          → 8 * j + 8 ≤ p + k
          → k < 8
          → test_bit (byte xs j) k ≡ test_bit (byte ys j) k =
        Agree-byte agree in
      let first : same_first (p / 8) xs ys ≡ true =
        same_first-byte (p / 8) xs ys (omega arith) (omega arith) (λ j h.
          same_bits 8 (byte xs j) (byte ys j) (byte-bounded xs j bx) (byte-bounded ys j by)
            (λ k hk. at j k (omega arith) hk)) in
      let shifts : byte xs (p / 8) / 2 ^ (8 - p % 8) ≡ byte ys (p / 8) / 2 ^ (8 - p % 8) =
        same_shifts (p % 8) (byte xs (p / 8)) (byte ys (p / 8)) (omega arith)
          (byte-bounded xs (p / 8) bx) (byte-bounded ys (p / 8) by)
          (λ k low hk. at (p / 8) k (omega arith) hk) in
      ground arith

-- An address is in a subnet exactly if the family is the same and so are the bits up to the prefix
-- length, for two buffers of bytes that are at least that long.
pub is_in_subnet_lem :
    (subnet addr : Netaddr)
    → Bytes subnet.addr
    → Bytes addr.addr
    → subnet.prefix_len ≤ 8 * length subnet.addr
    → subnet.prefix_len ≤ 8 * length addr.addr
    → (is_in_subnet subnet addr ≡ true)
      ↔ (subnet.family ≡ addr.family) × Agree subnet.addr addr.addr subnet.prefix_len
unfolding is_in_subnet
is_in_subnet_lem subnet addr bx by lx ly = (
  λ h. (
    ground (arith, same_family_iff subnet.family addr.family),
    Agree-in_subnet subnet addr.addr (ground arith),
  ),
  λ both.
      let inside = in_subnet-Agree subnet addr.addr bx by lx ly both.1 in
      let family = (same_family_iff subnet.family addr.family).1 both.0 in ground arith,
)
