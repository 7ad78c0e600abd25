-- ===== src/Nhdp/Mpr/Flooding.antt =====
-- The neighbour graph for flooding: src-plugins/nhdp/mpr/neighbor-graph-flooding.c. Links come with the
-- data of their neighbour and the metrics of the flooding domain.
pub mod Covered
pub mod Selection
use olsrd.Base.{
  ℕ, ◌+◌, ◌%◌, ◌^◌, Bool, true, false, not, ◌&&◌, ◌==◌, ltb, if◌then◌else◌, Option, none, some,
  List, [], ◌∷◌,
}
use olsrd.Common.Tree.{find}
use olsrd.Common.Netaddr.{Netaddr, netaddr_key, netaddr_same}
use olsrd.Nhdp.Mpr.{
  metric_infinite, N1Node, NeighborGraphInterface, NeighborGraph, add_addr_node_to_set,
}

-- `struct nhdp_link` with its neighbour. The tree `_2hop` holds the metrics to its addresses.
pub record FloodingLink : Type 0 where
  pub local_if : ℕ
  pub is_symmetric : Bool
  pub metric_out : ℕ
  pub two_hop : List (Netaddr × ℕ)
  pub originator : Netaddr
  pub flooding_willingness : ℕ
  pub neigh_addresses : List Netaddr

-- `_is_reachable_link_tuple`
abbrev pub is_reachable_link_tuple : ℕ → FloodingLink → Bool
is_reachable_link_tuple current_interface lnk =
    lnk.local_if == current_interface && not (lnk.metric_out == metric_infinite) && lnk.is_symmetric

-- `_is_allowed_link_tuple`
abbrev pub is_allowed_link_tuple : ℕ → FloodingLink → Bool
is_allowed_link_tuple current_interface lnk =
    is_reachable_link_tuple current_interface lnk && ltb 0 lnk.flooding_willingness

-- `_is_allowed_2hop_tuple` for an entry of the link.
abbrev pub is_allowed_2hop_tuple : ℕ → FloodingLink → ℕ → Bool
is_allowed_2hop_tuple current_interface lnk metric_out =
    lnk.local_if == current_interface && not (metric_out == metric_infinite)

-- `_calculate_d1_x`
abbrev pub calculate_d1_x : N1Node FloodingLink → ℕ
calculate_d1_x x = x.link.metric_out

-- `_calculate_d2_x_y`
unfoldable pub calculate_d2_x_y : N1Node FloodingLink → Netaddr → ℕ
calculate_d2_x_y x y = elim (find y x.link.two_hop) [
  | none ↦ metric_infinite
  | some metric_out ↦ metric_out
]

-- `_calculate_d_x_y`
unfoldable pub calculate_d_x_y : N1Node FloodingLink → Netaddr → ℕ
calculate_d_x_y x y = (calculate_d1_x x + calculate_d2_x_y x y) % 2 ^ 32

-- `avl_find_element` in the addresses of a neighbour.
unfoldable pub is_listed : List Netaddr → Netaddr → Bool
is_listed [] addr = false
is_listed (a ∷ rest) addr = if netaddr_same a addr then true else is_listed rest addr

-- `_calculate_d1_x_of_n2_addr`
unfoldable pub calculate_d1_x_of_n2_addr : List (N1Node FloodingLink) → Netaddr → ℕ
calculate_d1_x_of_n2_addr [] addr = metric_infinite
calculate_d1_x_of_n2_addr (node ∷ rest) addr =
    if is_listed node.link.neigh_addresses addr
    then node.link.metric_out
    else calculate_d1_x_of_n2_addr rest addr

-- `_api_interface` and `_get_willingness_n1`
abbrev pub api_interface : (Netaddr → Netaddr → Bool) → NeighborGraphInterface FloodingLink
api_interface less = record {
  calculate_d1_x_of_n2_addr = calculate_d1_x_of_n2_addr;
  calculate_d_x_y = calculate_d_x_y;
  calculate_d2_x_y = calculate_d2_x_y;
  get_willingness_n1 = λ node. node.link.flooding_willingness;
  less = less;
}

module _ (less : Netaddr → Netaddr → Bool) (current_interface : ℕ) where
  -- `mpr_add_n1_node_to_set` into the set N1, which takes duplicates: behind the first equal address.
  unfoldable pub add_to_n1 :
      N1Node FloodingLink → List (N1Node FloodingLink) → List (N1Node FloodingLink)
  add_to_n1 node [] = node ∷ []
  add_to_n1 node (first ∷ rest) =
      if netaddr_same first.addr node.addr
      then first ∷ node ∷ rest
      else if less node.addr first.addr
      then node ∷ first ∷ rest
      else first ∷ add_to_n1 node rest

  -- `_calculate_n1` over the links
  unfoldable pub calculate_n1 :
      List FloodingLink → List (N1Node FloodingLink) → List (N1Node FloodingLink)
  calculate_n1 [] set_n1 = set_n1
  calculate_n1 (lnk ∷ rest) set_n1 = calculate_n1 rest (
      if is_allowed_link_tuple current_interface lnk
      then add_to_n1 (record { addr = lnk.originator; link = lnk }) set_n1
      else set_n1)

  -- `_calculate_n2`: the two-hop addresses of one node.
  unfoldable pub add_2hops : FloodingLink → List (Netaddr × ℕ) → List Netaddr → List Netaddr
  add_2hops lnk [] set_n2 = set_n2
  add_2hops lnk ((twohop_addr, metric_out) ∷ rest) set_n2 = add_2hops lnk rest (
      if is_allowed_2hop_tuple current_interface lnk metric_out
      then add_addr_node_to_set (api_interface less) twohop_addr set_n2
      else set_n2)

  -- `_calculate_n2` over N1
  unfoldable pub calculate_n2 : List (N1Node FloodingLink) → List Netaddr → List Netaddr
  calculate_n2 [] set_n2 = set_n2
  calculate_n2 (n1_neigh ∷ rest) set_n2 =
      calculate_n2 rest (add_2hops n1_neigh.link n1_neigh.link.two_hop set_n2)

  -- `mpr_calculate_neighbor_graph_flooding`
  unfoldable pub calculate_neighbor_graph_flooding : List FloodingLink → NeighborGraph FloodingLink
  calculate_neighbor_graph_flooding links =
      let set_n1 = calculate_n1 links [] in
      record {
        set_n1 = set_n1;
        set_n2 = calculate_n2 set_n1 [];
        set_n = [];
        set_mpr = [];
        set_mpr_candidates = [];
      }
