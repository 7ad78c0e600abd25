-- ===== src/Nhdp/Mpr/Examples.antt =====
-- Examples that the theorems about the selection of relays apply to.
use olsrd.Base.{
  is_some, All, In, here, there, subst, sym, ℕ, ◌≡◌, refl, Bool, true, List, [], ◌∷◌, arith, ltb,
}
use olsrd.Common.Tree.{find}
use olsrd.Common.Tree.Count.{IsTree}
use olsrd.Common.Netaddr.{Netaddr, netaddr_key, inet, same_family, same_bytes, netaddr_same}
use olsrd.Nhdp.Mpr.{
  N1Node, calculate_mpr_rfc7181, calculate_n, collect_n, add_to_n, is_reduced, add_addr_node_to_set,
  possible_mprs,
}
use olsrd.Nhdp.Mpr.Relays.{is_relay_in}
use olsrd.Nhdp.Mpr.Flooding.{
  FloodingLink, api_interface, calculate_d2_x_y, calculate_d_x_y, is_listed,
  calculate_d1_x_of_n2_addr, add_to_n1, calculate_n1, add_2hops, calculate_n2,
  calculate_neighbor_graph_flooding,
}
use olsrd.Nhdp.Mpr.Flooding.Selection.{IsRequired, alone, selection_returns, selection_relays}

abbrev host_addr : ℕ → Netaddr
host_addr i = record {
  addr = 10 ∷ 0 ∷ 0 ∷ i ∷ 0 ∷ 0 ∷ 0 ∷ 0 ∷ 0 ∷ 0 ∷ 0 ∷ 0 ∷ 0 ∷ 0 ∷ 0 ∷ 0 ∷ [];
  family = inet;
  prefix_len = 32;
}

-- The order of the last byte in use.
abbrev fourth : List ℕ → ℕ
fourth (a ∷ (b ∷ (c ∷ (d ∷ rest)))) = d
fourth _ = 0

abbrev host_less : Netaddr → Netaddr → Bool
host_less a b = ltb (fourth a.addr) (fourth b.addr)

abbrev link_to : ℕ → List (Netaddr × ℕ) → FloodingLink
link_to i two_hop = record {
  local_if = 1;
  is_symmetric = true;
  metric_out = 10;
  two_hop = two_hop;
  originator = host_addr i;
  flooding_willingness = 7;
  neigh_addresses = host_addr i ∷ [];
}

-- Two neighbours, the second of which alone reaches the address 4.
abbrev two_neighbors : List FloodingLink
two_neighbors =
    link_to 1 ((host_addr 3, 5) ∷ []) ∷ link_to 2 ((host_addr 3, 6) ∷ (host_addr 4, 7) ∷ []) ∷ []

two_neighbors_trees : All (λ lnk. IsTree lnk.two_hop) two_neighbors
unfolding find same_family same_bytes netaddr_same
two_neighbors_trees = ((refl, tt), ((refl, (refl, tt)), tt))

selection_returns_example :
    is_some (
      calculate_mpr_rfc7181
        (api_interface host_less)
        3
        (calculate_neighbor_graph_flooding host_less 1 two_neighbors))
    ≡ true
selection_returns_example =
    selection_returns host_less 1 two_neighbors two_neighbors_trees 3 (omega arith)

abbrev second_node : N1Node FloodingLink
second_node = record {
  addr = host_addr 2;
  link = link_to 2 ((host_addr 3, 6) ∷ (host_addr 4, 7) ∷ []);
}

nodes_of_n :
    (calculate_n
      (api_interface host_less)
      (calculate_neighbor_graph_flooding host_less 1 two_neighbors)).set_n
    ≡ host_addr 3 ∷ host_addr 4 ∷ []
unfolding calculate_neighbor_graph_flooding calculate_n collect_n add_to_n is_reduced
    add_addr_node_to_set calculate_d2_x_y calculate_d_x_y is_listed calculate_d1_x_of_n2_addr
    add_to_n1 calculate_n1 add_2hops calculate_n2 find same_family same_bytes netaddr_same
nodes_of_n = refl

only_second :
    possible_mprs
      (api_interface host_less)
      (calculate_neighbor_graph_flooding host_less 1 two_neighbors).set_n1
      (host_addr 4)
    ≡ second_node ∷ []
unfolding calculate_neighbor_graph_flooding possible_mprs calculate_d2_x_y add_to_n1 calculate_n1
    find same_family same_bytes netaddr_same
only_second = refl

second-IsRequired : IsRequired host_less 1 two_neighbors two_neighbors_trees second_node
second-IsRequired =
    alone (host_addr 4) (subst (In (host_addr 4)) (sym nodes_of_n) (there here)) only_second

selection_relays_example :
    is_relay_in (api_interface host_less) (host_addr 2) (
      calculate_mpr_rfc7181
        (api_interface host_less)
        3
        (calculate_neighbor_graph_flooding host_less 1 two_neighbors))
    ≡ true
selection_relays_example =
    selection_relays host_less 1 two_neighbors two_neighbors_trees 3 (omega arith) second_node
      second-IsRequired
