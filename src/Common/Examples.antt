-- ===== src/Common/Examples.antt =====
-- Examples that the theorems about network addresses apply to.
use olsrd.Base.{ℕ, List, [], ◌∷◌, ◌≡◌, ◌↔◌, true, false, ◌⊎◌, arith}
use olsrd.Common.Netaddr.{Netaddr, inet}
use olsrd.Common.Acl.{NetaddrAcl, Listed, check_accept, check_accept_lem}
use olsrd.Common.Subnet.{is_in_subnet}
use olsrd.Common.Subnet.Bits.{Agree, is_in_subnet_lem}

abbrev rest : List ℕ
rest = 0 ∷ 0 ∷ 0 ∷ 0 ∷ 0 ∷ 0 ∷ 0 ∷ 0 ∷ 0 ∷ 0 ∷ 0 ∷ 0 ∷ []

abbrev block : Netaddr
block = record { addr = 172 ∷ 16 ∷ 0 ∷ 0 ∷ rest; family = inet; prefix_len = 12 }

abbrev machine : Netaddr
machine = record { addr = 172 ∷ 31 ∷ 200 ∷ 7 ∷ rest; family = inet; prefix_len = 32 }

abbrev outside : Netaddr
outside = record { addr = 172 ∷ 32 ∷ 0 ∷ 1 ∷ rest; family = inet; prefix_len = 32 }

is_in_subnet_lem_example :
    (is_in_subnet block machine ≡ true)
    ↔ (block.family ≡ machine.family) × Agree block.addr machine.addr 12
is_in_subnet_lem_example =
    is_in_subnet_lem block machine (omega arith) (omega arith) (omega arith) (omega arith)

abbrev private_only : NetaddrAcl
private_only = record {
  accept = block ∷ [];
  reject = machine ∷ [];
  reject_first = true;
  accept_default = false;
}

check_accept_lem_example :
    (check_accept private_only outside ≡ true)
    ↔ Listed private_only.accept outside
        × ((private_only.reject_first ≡ false) ⊎ ¬ Listed private_only.reject outside)
      ⊎ (¬ Listed private_only.accept outside)
        × (¬ Listed private_only.reject outside)
        × (private_only.accept_default ≡ true)
check_accept_lem_example = check_accept_lem private_only outside
