-- ===== src/Common/Subnet.antt =====
-- Network prefixes: netaddr_is_in_subnet of src-api/common/netaddr.c.
pub mod Bits
use olsrd.Base.{
  ℕ, zero, suc, ◌-◌, ◌/◌, ◌%◌, ◌^◌, Bool, true, false, not, ◌&&◌, ◌==◌, if◌then◌else◌, List, [],
  ◌∷◌,
}
use olsrd.Common.Netaddr.{Netaddr, same_family}

-- `memcmp(a, b, n) == 0` on two buffers of at least n bytes.
unfoldable pub same_first : ℕ → List ℕ → List ℕ → Bool
same_first zero xs ys = true
same_first (suc n) [] ys = false
same_first (suc n) (x ∷ xs) [] = false
same_first (suc n) (x ∷ xs) (y ∷ ys) = x == y && same_first n xs ys

-- `a[i]`; no caller reads past the 16 bytes.
abbrev pub byte : List ℕ → ℕ → ℕ
byte [] i = 0
byte (x ∷ xs) zero = x
byte (x ∷ xs) (suc i) = byte xs i

-- `_binary_is_in_subnet`
unfoldable pub binary_is_in_subnet : Netaddr → List ℕ → Bool
binary_is_in_subnet subnet bin =
    let byte_length = subnet.prefix_len / 8 in
    let bit_length = subnet.prefix_len % 8 in
    if not (same_first byte_length subnet.addr bin)
    then false
    else if not (bit_length == 0)
    then byte subnet.addr byte_length / 2 ^ (8 - bit_length)
      == byte bin byte_length / 2 ^ (8 - bit_length)
    else true

-- `netaddr_is_in_subnet`
unfoldable pub is_in_subnet : Netaddr → Netaddr → Bool
is_in_subnet subnet addr =
    if not (same_family subnet.family addr.family)
    then false
    else binary_is_in_subnet subnet addr.addr
