-- ===== src/Common/Acl.antt =====
-- Access control lists of network prefixes: src-api/common/netaddr_acl.c and netaddr_acl.h.
use olsrd.Base.{
  ℕ, zero, suc, ◌≡◌, refl, Bool, true, false, not, ◌&&◌, if◌then◌else◌, List, [], ◌∷◌, some,
  get_elem?, arith, ◌↔◌, Bool-cases, inl, inr, ◌⊎◌,
}
use olsrd.Common.Netaddr.{Netaddr}
use olsrd.Common.Subnet.{is_in_subnet}

-- `struct netaddr_acl`, its arrays with their lengths.
pub record NetaddrAcl : Type 0 where
  pub accept : List Netaddr
  pub reject : List Netaddr
  pub reject_first : Bool
  pub accept_default : Bool

-- `netaddr_acl_add`
abbrev pub acl_add : NetaddrAcl
acl_add = record { accept = []; reject = []; reject_first = false; accept_default = false }

-- `_is_in_array`
unfoldable pub is_in_array : List Netaddr → Netaddr → Bool
is_in_array [] addr = false
is_in_array (subnet ∷ array) addr =
    if is_in_subnet subnet addr then true else is_in_array array addr

-- `netaddr_acl_check_accept`
unfoldable pub check_accept : NetaddrAcl → Netaddr → Bool
check_accept acl addr =
    if acl.reject_first && is_in_array acl.reject addr
    then false
    else if is_in_array acl.accept addr
    then true
    else if not acl.reject_first && is_in_array acl.reject addr
    then false
    else acl.accept_default

-- One of the prefixes has the address.
abbrev pub Listed : List Netaddr → Netaddr → Type 0
Listed array addr =
    (i : ℕ) × (subnet : Netaddr) × (get_elem? array i ≡ some subnet)
    × (is_in_subnet subnet addr ≡ true)

Listed-is_in_array :
    (array : List Netaddr) (addr : Netaddr) → is_in_array array addr ≡ true → Listed array addr
unfolding is_in_array
Listed-is_in_array [] addr h = absurd (ground arith)
Listed-is_in_array (subnet ∷ array) addr h = elim (Bool-cases (is_in_subnet subnet addr)) [
  | inl here ↦ (0, subnet, refl, here)
  | inr there ↦
      let (i, s, found, inside) = Listed-is_in_array array addr (ground arith) in
      (suc i, s, found, inside)
]

is_in_array-Listed :
    (array : List Netaddr) (addr subnet : Netaddr) (i : ℕ)
    → get_elem? array i ≡ some subnet
    → is_in_subnet subnet addr ≡ true
    → is_in_array array addr ≡ true
unfolding is_in_array
is_in_array-Listed [] addr subnet i found inside = absurd (ground arith)
is_in_array-Listed (s ∷ array) addr subnet zero found inside = grind arith
is_in_array-Listed (s ∷ array) addr subnet (suc i) found inside =
    let rest = is_in_array-Listed array addr subnet i found inside in ground arith

-- The test finds exactly the addresses of the prefixes.
is_in_array_lem :
    (array : List Netaddr) (addr : Netaddr) → (is_in_array array addr ≡ true) ↔ Listed array addr
is_in_array_lem array addr = (
  Listed-is_in_array array addr,
  λ (i, subnet, found, inside). is_in_array-Listed array addr subnet i found inside,
)

not-Listed :
    (array : List Netaddr) (addr : Netaddr) → is_in_array array addr ≡ false → ¬ Listed array addr
not-Listed array addr h listed =
    let yes = (is_in_array_lem array addr).1 listed in absurd (ground arith)

not_found :
    (array : List Netaddr) (addr : Netaddr) → ¬ Listed array addr → is_in_array array addr ≡ false
not_found array addr none_listed = elim (Bool-cases (is_in_array array addr)) [
  | inl h ↦ absurd (none_listed (Listed-is_in_array array addr h))
  | inr h ↦ h
]

-- An address is accepted if and only if an accepted prefix has it, and no rejected one where those come
-- first, or no prefix has it and the default is to accept.
pub check_accept_lem :
    (acl : NetaddrAcl) (addr : Netaddr)
    → (check_accept acl addr ≡ true)
      ↔ Listed acl.accept addr × ((acl.reject_first ≡ false) ⊎ ¬ Listed acl.reject addr)
        ⊎ (¬ Listed acl.accept addr) × (¬ Listed acl.reject addr) × (acl.accept_default ≡ true)
unfolding check_accept
check_accept_lem acl addr = (
  λ h. elim (Bool-cases (is_in_array acl.accept addr)) [
    | inl a ↦ elim (Bool-cases (is_in_array acl.reject addr)) [
      | inl r ↦ inl (Listed-is_in_array acl.accept addr a, inl (ground arith))
      | inr r ↦ inl (Listed-is_in_array acl.accept addr a, inr (not-Listed acl.reject addr r))
    ]
    | inr a ↦
        let r : is_in_array acl.reject addr ≡ false = ground arith in
        inr (not-Listed acl.accept addr a, not-Listed acl.reject addr r, ground arith)
  ],
  λ both. elim both [
    | inl (a, inl r) ↦ let yes = (is_in_array_lem acl.accept addr).1 a in ground arith
    | inl (a, inr r) ↦
        let yes = (is_in_array_lem acl.accept addr).1 a in
        let no = not_found acl.reject addr r in ground arith
    | inr (a, r, d) ↦
        let no = not_found acl.accept addr a in
        let never = not_found acl.reject addr r in ground arith
  ],
)
