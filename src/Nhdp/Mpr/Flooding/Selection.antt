-- ===== src/Nhdp/Mpr/Flooding/Selection.antt =====
-- The selection of relays for flooding returns: the assertion of `_process_unique_mprs` holds, for each
-- address of N is behind a node of N1, and the loop ends.
use olsrd.Base.{
  is_some, All-map, In-All, All-In, In, ℕ, ◌≡◌, ◌<◌, refl, Bool, true, ◌==◌, length, All, Option,
  none, some, List, [], ◌∷◌, arith,
}
use olsrd.Common.Tree.Count.{IsTree}
use olsrd.Common.Netaddr.{Netaddr, netaddr_key}
use olsrd.Nhdp.Mpr.{
  N1Node, NeighborGraph, possible_mprs, unique_of, process_will_always, process_unique_mprs,
  calculate_n, n1_subset, is_in_set, willingness_always, process_remaining, calculate_mpr_rfc7181,
}
use olsrd.Nhdp.Mpr.Rounds.{process_remaining_ends, selectable-le}
use olsrd.Nhdp.Mpr.Relays.{
  is_relay_in, is_unique_in, always_of-has, process_remaining_keeps, unique_of-keeps, unique_of-has,
}
use olsrd.Nhdp.Mpr.Flooding.{
  FloodingLink, api_interface, calculate_d2_x_y, calculate_n1, calculate_n2,
  calculate_neighbor_graph_flooding,
}
use olsrd.Nhdp.Mpr.Flooding.Covered.{
  has_relay, has_relay-In, unique_returns, All-collect_n, found_entries, All-calculate_n1,
  All-calculate_n2, length-calculate_n1,
}

module _ (less : Netaddr → Netaddr → Bool) (current_interface : ℕ) (links : List FloodingLink)
    (trees : All (λ lnk. IsTree lnk.two_hop) links) where
  abbrev graph : NeighborGraph FloodingLink
  graph = calculate_neighbor_graph_flooding less current_interface links

  abbrev nodes : List (N1Node FloodingLink)
  nodes = calculate_n1 less current_interface links []

  -- The addresses of N2 are behind nodes of N1.
  behind_nodes :
      All
        (λ y. has_relay (api_interface less) nodes y ≡ true)
        (calculate_n2 less current_interface nodes [])
  unfolding calculate_d2_x_y
  behind_nodes =
      let node_trees =
        All-calculate_n1 less current_interface (λ x. IsTree x.link.two_hop) links [] trees tt in
      All-calculate_n2 less current_interface (λ y. has_relay (api_interface less) nodes y ≡ true)
        nodes []
        (In-All nodes (λ x member.
          let tree = All-In (λ x. IsTree x.link.two_hop) node_trees member in
          All-map
            (λ e found allowed.
              let metric : calculate_d2_x_y x e.0 ≡ e.1 = rw (found, calculate_d2_x_y) refl in
              has_relay-In (api_interface less) x e.0 nodes member (rw metric (ground arith)))
            x.link.two_hop (found_entries x.link.two_hop tree)))
        tt

  abbrev prepared : NeighborGraph FloodingLink
  prepared = process_will_always (api_interface less) (calculate_n (api_interface less) graph)

  loop_returns :
      (fuel : ℕ) (set_mpr : List (N1Node FloodingLink))
      → length links < fuel
      → is_some
          (process_remaining (api_interface less) fuel (record prepared { set_mpr = set_mpr }))
        ≡ true
  unfolding n1_subset calculate_n process_will_always calculate_neighbor_graph_flooding
  loop_returns fuel set_mpr enough =
      let ready : NeighborGraph FloodingLink = record prepared { set_mpr = set_mpr } in
      let few = selectable-le (api_interface less) ready nodes in
      let all = length-calculate_n1 less current_interface links [] in
      process_remaining_ends (api_interface less) fuel ready (omega arith)

  selected_returns :
      (fuel : ℕ) (found : Option (List (N1Node FloodingLink)))
      → length links < fuel
      → is_some found ≡ true
      → is_some
          (elim (elim found as (λ _. Option (NeighborGraph FloodingLink)) [
            | none ↦ none
            | some set_mpr ↦ some (record prepared { set_mpr = set_mpr })
          ]) [ none ↦ none | some selected ↦ process_remaining (api_interface less) fuel selected ])
        ≡ true
  selected_returns fuel none enough h = absurd (ground arith)
  selected_returns fuel (some set_mpr) enough h = loop_returns fuel set_mpr enough

  loop_keeps :
      (fuel : ℕ) (set_mpr : List (N1Node FloodingLink)) (z : Netaddr)
      → length links < fuel
      → is_in_set (api_interface less) set_mpr z ≡ true
      → is_relay_in
          (api_interface less)
          z
          (process_remaining (api_interface less) fuel (record prepared { set_mpr = set_mpr }))
        ≡ true
  unfolding n1_subset calculate_n process_will_always calculate_neighbor_graph_flooding
  loop_keeps fuel set_mpr z enough relay =
      let ready : NeighborGraph FloodingLink = record prepared { set_mpr = set_mpr } in
      let few = selectable-le (api_interface less) ready nodes in
      let all = length-calculate_n1 less current_interface links [] in
      process_remaining_keeps (api_interface less) fuel ready z (omega arith) relay

  selected_keeps :
      (fuel : ℕ) (found : Option (List (N1Node FloodingLink))) (z : Netaddr)
      → length links < fuel
      → is_unique_in (api_interface less) z found ≡ true
      → is_relay_in
          (api_interface less)
          z
          (elim (elim found as (λ _. Option (NeighborGraph FloodingLink)) [
            | none ↦ none
            | some set_mpr ↦ some (record prepared { set_mpr = set_mpr })
          ]) [ none ↦ none | some selected ↦ process_remaining (api_interface less) fuel selected ])
        ≡ true
  selected_keeps fuel none z enough h = absurd (ground arith)
  selected_keeps fuel (some set_mpr) z enough h = loop_keeps fuel set_mpr z enough h

  addresses_covered : All (λ y. has_relay (api_interface less) nodes y ≡ true) prepared.set_n
  unfolding calculate_n process_will_always calculate_neighbor_graph_flooding
  addresses_covered =
      All-collect_n (api_interface less) (λ y. has_relay (api_interface less) nodes y ≡ true) nodes
        (calculate_n2 less current_interface nodes []) [] behind_nodes tt

  unique_found :
      is_some (unique_of (api_interface less) nodes prepared.set_n prepared.set_mpr) ≡ true
  unique_found =
      unique_returns (api_interface less) nodes prepared.set_n prepared.set_mpr addresses_covered

  -- A node that always wants to be a relay, or that alone reaches an address of N.
  pub data IsRequired (x : N1Node FloodingLink) : Type 0 where
    always :
        In x graph.set_n1 → x.link.flooding_willingness == willingness_always ≡ true → IsRequired x
    alone :
        (y : Netaddr)
        → In y (calculate_n (api_interface less) graph).set_n
        → possible_mprs (api_interface less) graph.set_n1 y ≡ x ∷ []
        → IsRequired x

  required_found :
      (x : N1Node FloodingLink)
      → IsRequired x
      → is_unique_in
          (api_interface less)
          x.addr
          (unique_of (api_interface less) nodes prepared.set_n prepared.set_mpr)
        ≡ true
  unfolding calculate_n process_will_always calculate_neighbor_graph_flooding
  required_found x (always member will) =
      unique_of-keeps (api_interface less) nodes prepared.set_n prepared.set_mpr x.addr unique_found
        (always_of-has (api_interface less) x nodes [] member will)
  required_found x (alone y member only) =
      unique_of-has (api_interface less) nodes x y prepared.set_n prepared.set_mpr member only
        unique_found

  -- If no link has an address twice in its tree of two-hop addresses, the selection of relays for
  -- flooding with more fuel than links returns, and its assertion holds.
  pub selection_returns :
      (fuel : ℕ)
      → length links < fuel
      → is_some (calculate_mpr_rfc7181 (api_interface less) fuel graph) ≡ true
  unfolding calculate_mpr_rfc7181 calculate_n process_will_always process_unique_mprs
      calculate_neighbor_graph_flooding
  selection_returns fuel enough = selected_returns fuel _ enough unique_found

  -- If no link has an address twice in its tree of two-hop addresses, the selection of relays for
  -- flooding with more fuel than links returns with each node among the relays that always wants to be
  -- one, and each that alone reaches an address of N.
  pub selection_relays :
      (fuel : ℕ)
      → length links < fuel
      → (x : N1Node FloodingLink) → IsRequired x
      → is_relay_in
          (api_interface less)
          x.addr
          (calculate_mpr_rfc7181 (api_interface less) fuel graph)
        ≡ true
  unfolding calculate_mpr_rfc7181 calculate_n process_will_always process_unique_mprs
      calculate_neighbor_graph_flooding
  selection_relays fuel enough x required =
      selected_keeps fuel _ x.addr enough (required_found x required)
