-- ===== src/Nhdp/Mpr/Flooding/Covered.antt =====
-- The sets of the neighbour graph for flooding: where their elements come from, and how many there are.
use olsrd.Base.{
  is_some, All-map, In, here, there, ℕ, suc, ◌+◌, ◌≡◌, ◌≤◌, ◌<◌, subst, refl, Bool, true, false,
  not, ◌||◌, ◌==◌, length, All, none, some, List, [], ◌∷◌, arith, Bool-cases, inl, inr,
}
use olsrd.Common.Tree.{find}
use olsrd.Common.Tree.Count.{IsTree}
use olsrd.Common.Netaddr.{Netaddr, netaddr_key, netaddr_same, netaddr_same_iff}
use olsrd.Nhdp.Mpr.{
  metric_infinite, N1Node, NeighborGraphInterface, add_addr_node_to_set, add_n1_node_to_set,
  possible_mprs, unique_of, collect_n, add_to_n,
}
use olsrd.Nhdp.Mpr.Flooding.{
  FloodingLink, api_interface, is_allowed_2hop_tuple, is_allowed_link_tuple, add_to_n1,
  calculate_n1, add_2hops, calculate_n2,
}

module _ {ℓ} {L : Type ℓ} (methods : NeighborGraphInterface L) where
  -- A node of the list has a two-hop path to the address.
  abbrev pub has_relay : List (N1Node L) → Netaddr → Bool
  has_relay [] y = false
  has_relay (x ∷ rest) y = not (methods.calculate_d2_x_y x y == metric_infinite) || has_relay rest y

  possible_some :
      (nodes : List (N1Node L)) (y : Netaddr)
      → has_relay nodes y ≡ true
      → 0 < length (possible_mprs methods nodes y)
  unfolding possible_mprs
  possible_some [] y h = absurd (ground arith)
  possible_some (x ∷ rest) y h = let r = possible_some rest y in ground arith

  pub has_relay-In :
      (x : N1Node L) (y : Netaddr) (nodes : List (N1Node L))
      → In x nodes
      → methods.calculate_d2_x_y x y == metric_infinite ≡ false
      → has_relay nodes y ≡ true
  has_relay-In x y nodes here h = ground arith
  has_relay-In x y (z ∷ nodes) (there more) h =
      let r = has_relay-In x y nodes more h in ground arith

  unique_step :
      (possible : List (N1Node L))
      → 0 < length possible
      → (set_n1 : List (N1Node L)) (rest : List Netaddr) (set_mpr : List (N1Node L))
      → ((m : List (N1Node L)) → is_some (unique_of methods set_n1 rest m) ≡ true)
      → is_some (elim possible [
        | [] ↦ none
        | node ∷ [] ↦ unique_of methods set_n1 rest (add_n1_node_to_set methods node set_mpr)
        | node ∷ second ∷ more ↦ unique_of methods set_n1 rest set_mpr
      ])
        ≡ true
  unique_step [] some_ set_n1 rest set_mpr later = absurd (omega arith)
  unique_step (node ∷ []) some_ set_n1 rest set_mpr later =
      later (add_n1_node_to_set methods node set_mpr)
  unique_step (node ∷ (second ∷ more)) some_ set_n1 rest set_mpr later = later set_mpr

  -- The assertion holds.
  pub unique_returns :
      (set_n1 : List (N1Node L)) (set_n : List Netaddr) (set_mpr : List (N1Node L))
      → All (λ y. has_relay set_n1 y ≡ true) set_n
      → is_some (unique_of methods set_n1 set_n set_mpr) ≡ true
  unfolding unique_of
  unique_returns set_n1 [] set_mpr all = refl
  unique_returns set_n1 (y ∷ rest) set_mpr all =
      unique_step (possible_mprs methods set_n1 y) (possible_some set_n1 y all.0) set_n1 rest
        set_mpr (λ m. unique_returns set_n1 rest m all.1)

  All-add_addr {κ} :
      (P : Netaddr → Type κ) (y : Netaddr) (set : List Netaddr)
      → P y
      → All P set
      → All P (add_addr_node_to_set methods y set)
  unfolding add_addr_node_to_set
  All-add_addr P y [] p all = (p, tt)
  All-add_addr P y (z ∷ rest) p all = elim (Bool-cases (netaddr_same z y)) [
    | inl h ↦ rw h all
    | inr h ↦ elim (Bool-cases (methods.less y z)) [
      | inl l ↦ rw (h, l) (p, all)
      | inr l ↦ rw (h, l) (all.0, All-add_addr P y rest p all.1)
    ]
  ]

  pub All-collect_n {κ} :
      (P : Netaddr → Type κ) (set_n1 : List (N1Node L)) (set_n2 set_n : List Netaddr)
      → All P set_n2
      → All P set_n
      → All P (collect_n methods set_n1 set_n2 set_n)
  unfolding collect_n
  All-collect_n P set_n1 [] set_n all so_far = so_far
  All-collect_n P set_n1 (y ∷ rest) set_n all so_far =
      elim (Bool-cases (add_to_n methods set_n1 y)) [
        | inl h ↦ rw h (
            All-collect_n P set_n1 rest (add_addr_node_to_set methods y set_n) all.1
              (All-add_addr P y set_n all.0 so_far))
        | inr h ↦ rw h (All-collect_n P set_n1 rest set_n all.1 so_far)
      ]

-- An entry of a tree is found under its key.
pub found_entries : (t : List (Netaddr × ℕ)) → IsTree t → All (λ e. find e.0 t ≡ some e.1) t
unfolding find
found_entries [] tree = tt
found_entries ((a, v) ∷ t) tree =
    let rest = found_entries t tree.1 in
    (
      rw ((netaddr_same_iff a a).1 refl) refl,
      All-map
          (λ e found. elim (Bool-cases (netaddr_same a e.0)) [
            | inl h ↦
                let at = (netaddr_same_iff a e.0).0 h in
                let absent : find e.0 t ≡ none = subst (λ x. find x t ≡ none) at tree.0 in
                absurd (ground arith)
            | inr h ↦ rw h found
          ])
          t rest,
    )

module _ (less : Netaddr → Netaddr → Bool) (current_interface : ℕ) where
  All-add_to_n1 {κ} :
      (P : N1Node FloodingLink → Type κ) (node : N1Node FloodingLink)
      (set : List (N1Node FloodingLink))
      → P node
      → All P set
      → All P (add_to_n1 less current_interface node set)
  unfolding add_to_n1
  All-add_to_n1 P node [] p all = (p, tt)
  All-add_to_n1 P node (z ∷ rest) p all = elim (Bool-cases (netaddr_same z.addr node.addr)) [
    | inl h ↦ rw h (all.0, (p, all.1))
    | inr h ↦ elim (Bool-cases (less node.addr z.addr)) [
      | inl l ↦ rw (h, l) (p, all)
      | inr l ↦ rw (h, l) (all.0, All-add_to_n1 P node rest p all.1)
    ]
  ]

  pub All-calculate_n1 {κ} :
      (P : N1Node FloodingLink → Type κ) (links : List FloodingLink)
      (set_n1 : List (N1Node FloodingLink))
      → All (λ lnk. P (record { addr = lnk.originator; link = lnk })) links
      → All P set_n1
      → All P (calculate_n1 less current_interface links set_n1)
  unfolding calculate_n1
  All-calculate_n1 P [] set_n1 all so_far = so_far
  All-calculate_n1 P (lnk ∷ rest) set_n1 all so_far =
      elim (Bool-cases (is_allowed_link_tuple current_interface lnk)) [
        | inl h ↦ rw h (
            All-calculate_n1 P rest
              (add_to_n1 less current_interface (record { addr = lnk.originator; link = lnk })
                set_n1)
              all.1
              (All-add_to_n1 P (record { addr = lnk.originator; link = lnk }) set_n1 all.0 so_far))
        | inr h ↦ rw h (All-calculate_n1 P rest set_n1 all.1 so_far)
      ]

  All-add_2hops {κ} :
      (P : Netaddr → Type κ) (lnk : FloodingLink) (entries : List (Netaddr × ℕ))
      (set_n2 : List Netaddr)
      → All (λ e. is_allowed_2hop_tuple current_interface lnk e.1 ≡ true → P e.0) entries
      → All P set_n2
      → All P (add_2hops less current_interface lnk entries set_n2)
  unfolding add_2hops
  All-add_2hops P lnk [] set_n2 all so_far = so_far
  All-add_2hops P lnk ((y, m) ∷ rest) set_n2 all so_far =
      elim (Bool-cases (is_allowed_2hop_tuple current_interface lnk m)) [
        | inl h ↦ rw h (
            All-add_2hops P lnk rest (add_addr_node_to_set (api_interface less) y set_n2) all.1
              (All-add_addr (api_interface less) P y set_n2 (all.0 h) so_far))
        | inr h ↦ rw h (All-add_2hops P lnk rest set_n2 all.1 so_far)
      ]

  pub All-calculate_n2 {κ} :
      (P : Netaddr → Type κ) (nodes : List (N1Node FloodingLink)) (set_n2 : List Netaddr)
      → All
          (λ x.
            All
              (λ e. is_allowed_2hop_tuple current_interface x.link e.1 ≡ true → P e.0)
              x.link.two_hop)
          nodes
      → All P set_n2
      → All P (calculate_n2 less current_interface nodes set_n2)
  unfolding calculate_n2
  All-calculate_n2 P [] set_n2 all so_far = so_far
  All-calculate_n2 P (x ∷ rest) set_n2 all so_far =
      All-calculate_n2 P rest (add_2hops less current_interface x.link x.link.two_hop set_n2) all.1
        (All-add_2hops P x.link x.link.two_hop set_n2 all.0 so_far)

  length-add_to_n1 :
      (node : N1Node FloodingLink) (set : List (N1Node FloodingLink))
      → length (add_to_n1 less current_interface node set) ≤ suc (length set)
  unfolding add_to_n1
  length-add_to_n1 node [] = omega arith
  length-add_to_n1 node (z ∷ rest) = let r = length-add_to_n1 node rest in ground arith

  pub length-calculate_n1 :
      (links : List FloodingLink) (set_n1 : List (N1Node FloodingLink))
      → length (calculate_n1 less current_interface links set_n1) ≤ length links + length set_n1
  unfolding calculate_n1
  length-calculate_n1 [] set_n1 = omega arith
  length-calculate_n1 (lnk ∷ rest) set_n1 =
      let node : N1Node FloodingLink = record { addr = lnk.originator; link = lnk } in
      let skipped = length-calculate_n1 rest set_n1 in
      let taken = length-calculate_n1 rest (add_to_n1 less current_interface node set_n1) in
      let one_more = length-add_to_n1 node set_n1 in ground arith
