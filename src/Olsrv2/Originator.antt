-- ===== src/Olsrv2/Originator.antt =====
-- The originators of the own node: src-plugins/olsrv2/olsrv2/olsrv2_originator.c, without the
-- notification of NHDP. The originator set holds the validity time that each timer was last set to.
use olsrd.Base.{
  ℕ, ◌≡◌, ap, subst, refl, Bool, true, false, not, ◌&&◌, ◌||◌, if◌then◌else◌, Option, none, some,
  is_some, List, arith, Bool-cases, inl, inr,
}
use olsrd.Common.Tree.{find, insert, update, remove, find-insert, find-update, find-remove}
use olsrd.Common.Netaddr.{
  Netaddr, unspec, inet, inet6, same_family, netaddr_same, netaddr_same_iff, netaddr_key,
}

-- `_originator_v4`, `_originator_v6` and `_originator_set_tree`
pub record Originators : Type 0 where
  pub originator_v4 : Netaddr
  pub originator_v6 : Netaddr
  pub former : List (Netaddr × ℕ)

-- `olsrv2_originator_is_local`
pub is_local : Originators → Netaddr → Bool
is_local s addr =
    if netaddr_same s.originator_v4 addr
    then true
    else if netaddr_same s.originator_v6 addr
    then true
    else is_some (find addr s.former)

-- `_remember_removed_originator`, where `memory` says whether the allocator has an entry.
remember_removed_originator : Bool → Netaddr → ℕ → List (Netaddr × ℕ) → List (Netaddr × ℕ)
remember_removed_originator memory originator vtime former = elim (find originator former) [
  | some _ ↦ update originator vtime former
  | none ↦ if memory then insert originator vtime former else former
]

-- `_set_originator`: the originator set.
set_originator : Bool → ℕ → Netaddr → Netaddr → List (Netaddr × ℕ) → List (Netaddr × ℕ)
set_originator memory validity setting new_originator former = remove new_originator (
    if same_family setting.family unspec
    then former
    else remember_removed_originator memory setting validity former)

-- `olsrv2_originator_set`, with the validity time of old originators.
pub originator_set : Bool → ℕ → Netaddr → Originators → Originators
originator_set memory validity originator s =
    if same_family originator.family inet
    then record s {
      originator_v4 = originator;
      former = set_originator memory validity s.originator_v4 originator s.former;
    }
    else if same_family originator.family inet6
    then record s {
      originator_v6 = originator;
      former = set_originator memory validity s.originator_v6 originator s.former;
    }
    else s

remembered :
    (originator addr : Netaddr) (vtime : ℕ) (former : List (Netaddr × ℕ)) (found : Option ℕ)
    → find originator former ≡ found
    → is_some (find addr (remember_removed_originator true originator vtime former))
      ≡ (netaddr_same originator addr || is_some (find addr former))
unfolding remember_removed_originator
remembered originator addr vtime former none at =
    let added = find-insert originator addr vtime former at in
    rw (remember_removed_originator, at, added) (ground arith)
remembered originator addr vtime former (some v) at =
    let written = find-update originator addr vtime former in
    elim (Bool-cases (netaddr_same originator addr)) [
      | inl h ↦
          let here : find addr former ≡ some v =
            subst (λ x. find x former ≡ some v) ((netaddr_same_iff originator addr).0 h) at in
          rw (remember_removed_originator, at, written, h, here) refl
      | inr h ↦ rw (remember_removed_originator, at, written, h) refl
    ]

-- The set after a change: what was in it and the old originator, without the new one.
set_originator_has :
    (validity : ℕ) (setting new_originator addr : Netaddr) (former : List (Netaddr × ℕ))
    → same_family addr.family unspec ≡ false
    → is_some (find addr (set_originator true validity setting new_originator former)) ≡ (
        not (netaddr_same new_originator addr)
        && (netaddr_same setting addr || is_some (find addr former)))
unfolding set_originator
set_originator_has validity setting new_originator addr former specified =
    elim (Bool-cases (same_family setting.family unspec)) [
      | inl h ↦
          let gone = find-remove new_originator addr former in
          let other : netaddr_same setting addr ≡ false =
            elim (Bool-cases (netaddr_same setting addr)) [
              | inl e ↦ absurd (
                  let at =
                    ap (λ x. same_family x.family unspec) ((netaddr_same_iff setting addr).0 e) in
                  ground arith)
              | inr e ↦ e
            ] in
          rw (h, gone, other) (ground arith)
      | inr h ↦
          let kept = remember_removed_originator true setting validity former in
          let gone = find-remove new_originator addr kept in
          let has = remembered setting addr validity former (find setting former) refl in
          elim (Bool-cases (netaddr_same new_originator addr)) [
            | inl e ↦ rw (h, gone, e) refl
            | inr e ↦ rw (h, gone, e) has
          ]
    ]

-- While there is memory, a new originator of IPv4 or IPv6 makes itself local and changes nothing for
-- any other specified address: what was local, the old originator among it, still is.
pub originator_set_local :
    (validity : ℕ) (originator : Netaddr) (s : Originators)
    → same_family originator.family inet || same_family originator.family inet6 ≡ true
    → (addr : Netaddr) → same_family addr.family unspec ≡ false
    → is_local (originator_set true validity originator s) addr
      ≡ (netaddr_same originator addr || is_local s addr)
unfolding is_local originator_set
originator_set_local validity originator s known addr specified =
    let v4 = set_originator_has validity s.originator_v4 originator addr s.former specified in
    let v6 = set_originator_has validity s.originator_v6 originator addr s.former specified in
    elim (Bool-cases (same_family originator.family inet)) [
      | inl h ↦ rw (h, v4) (ground arith)
      | inr h ↦
          let second : same_family originator.family inet6 ≡ true = ground arith in
          rw (h, second, v6) (ground arith)
    ]
