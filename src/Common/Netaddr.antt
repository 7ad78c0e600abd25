-- ===== src/Common/Netaddr.antt =====
-- Network addresses: src-api/common/netaddr.c and netaddr.h. A `struct netaddr` is 16 bytes of
-- address, the address family and the prefix length.
use olsrd.Base.{ℕ, Bool, true, false, ◌&&◌, ◌==◌, ◌≡◌, refl, ◌↔◌, List, [], ◌∷◌, arith}
use olsrd.Common.Tree.{Key}

-- The address families are the system's numbers, but for AF_MAC48 and AF_EUI64, which netaddr.h
-- puts behind AF_MAX.
pub data Family : Type 0 where
  unspec inet inet6 mac48 eui64 : Family
  other : ℕ → Family

unfoldable pub same_family : Family → Family → Bool
same_family unspec unspec = true
same_family inet inet = true
same_family inet6 inet6 = true
same_family mac48 mac48 = true
same_family eui64 eui64 = true
same_family (other a) (other b) = a == b
same_family _ _ = false

pub record Netaddr : Type 0 where
  pub addr : List ℕ
  pub family : Family
  pub prefix_len : ℕ

-- `memcmp(a, b, n) == 0` on two buffers of n bytes.
unfoldable pub same_bytes : List ℕ → List ℕ → Bool
same_bytes [] [] = true
same_bytes [] (y ∷ ys) = false
same_bytes (x ∷ xs) [] = false
same_bytes (x ∷ xs) (y ∷ ys) = x == y && same_bytes xs ys

-- `netaddr_cmp(a, b) == 0`
unfoldable pub netaddr_same : Netaddr → Netaddr → Bool
netaddr_same a b =
    same_bytes a.addr b.addr && (same_family a.family b.family && a.prefix_len == b.prefix_len)

same_bytes_iff : (xs ys : List ℕ) → (same_bytes xs ys ≡ true) ↔ (xs ≡ ys)
unfolding same_bytes
same_bytes_iff [] [] = (λ h. refl, λ h. refl)
same_bytes_iff [] (y ∷ ys) = ground arith
same_bytes_iff (x ∷ xs) [] = ground arith
same_bytes_iff (x ∷ xs) (y ∷ ys) = ground (arith, same_bytes_iff xs ys)

pub same_family_iff : (a b : Family) → (same_family a b ≡ true) ↔ (a ≡ b)
unfolding same_family
same_family_iff a b = ground arith

pub netaddr_same_iff : (a b : Netaddr) → (netaddr_same a b ≡ true) ↔ (a ≡ b)
unfolding netaddr_same
netaddr_same_iff a b =
    ground (arith, same_bytes_iff a.addr b.addr, same_family_iff a.family b.family)

instance abbrev pub netaddr_key : Key Netaddr
netaddr_key = record { same = netaddr_same; same_iff = netaddr_same_iff }
