-- ===== src/Nhdp/Mpr.antt =====
-- The selection of multipoint relays: src-plugins/nhdp/mpr/selection-rfc7181.c and neighbor-graph.c,
-- with the flooding graph of neighbor-graph-flooding.c in Nhdp.Mpr.Flooding.
pub mod Rounds
pub mod Relays
pub mod Flooding
mod Examples
use olsrd.Base.{
  ℕ, zero, suc, ◌+◌, Bool, true, false, not, ◌&&◌, ◌||◌, ◌==◌, ltb, leb, length, if◌then◌else◌,
  Option, none, some, List, [], ◌∷◌,
}
use olsrd.Common.Tree.Count.{one}
use olsrd.Common.Netaddr.{Netaddr, netaddr_same}

-- RFC7181_METRIC_INFINITE and RFC7181_WILLINGNESS_ALWAYS
abbrev pub metric_infinite : ℕ
metric_infinite = 0xffffff

abbrev pub willingness_always : ℕ
willingness_always = 15

-- `struct n1_node`: the originator of the neighbour, and the link with the data of the neighbour.
pub record N1Node {ℓ} (L : Type ℓ) : Type ℓ where
  pub addr : Netaddr
  pub link : L

-- `struct neighbor_graph_interface` without the test of links, and `avl_comp_netaddr` as whether the
-- first address is less.
pub record NeighborGraphInterface {ℓ} (L : Type ℓ) : Type ℓ where
  pub calculate_d1_x_of_n2_addr : List (N1Node L) → Netaddr → ℕ
  pub calculate_d_x_y : N1Node L → Netaddr → ℕ
  pub calculate_d2_x_y : N1Node L → Netaddr → ℕ
  pub get_willingness_n1 : N1Node L → ℕ
  pub less : Netaddr → Netaddr → Bool

-- `struct neighbor_graph`
pub record NeighborGraph {ℓ} (L : Type ℓ) : Type ℓ where
  pub set_n1 : List (N1Node L)
  pub set_n2 : List Netaddr
  pub set_n : List Netaddr
  pub set_mpr : List (N1Node L)
  pub set_mpr_candidates : List (N1Node L)

module _ {ℓ} {L : Type ℓ} (methods : NeighborGraphInterface L) where
  -- `mpr_add_n1_node_to_set`, into a tree without duplicates
  unfoldable pub add_n1_node_to_set : N1Node L → List (N1Node L) → List (N1Node L)
  add_n1_node_to_set node [] = node ∷ []
  add_n1_node_to_set node (first ∷ rest) =
      if netaddr_same first.addr node.addr
      then first ∷ rest
      else if methods.less node.addr first.addr
      then node ∷ first ∷ rest
      else first ∷ add_n1_node_to_set node rest

  -- `mpr_add_addr_node_to_set`
  unfoldable pub add_addr_node_to_set : Netaddr → List Netaddr → List Netaddr
  add_addr_node_to_set addr [] = addr ∷ []
  add_addr_node_to_set addr (first ∷ rest) =
      if netaddr_same first addr
      then first ∷ rest
      else if methods.less addr first
      then addr ∷ first ∷ rest
      else first ∷ add_addr_node_to_set addr rest

  -- The lookup of `mpr_is_mpr`.
  unfoldable pub is_in_set : List (N1Node L) → Netaddr → Bool
  is_in_set [] addr = false
  is_in_set (node ∷ rest) addr = netaddr_same node.addr addr || is_in_set rest addr

  -- `mpr_is_mpr`
  unfoldable pub is_mpr : NeighborGraph L → Netaddr → Bool
  is_mpr graph addr = is_in_set graph.set_mpr addr

  -- `mpr_calculate_minimal_d_z_y` from a minimum on
  unfoldable pub minimal_d_z_y : List (N1Node L) → Netaddr → ℕ → ℕ
  minimal_d_z_y [] y min_d_z_y = min_d_z_y
  minimal_d_z_y (z ∷ rest) y min_d_z_y = minimal_d_z_y rest y (
      if ltb (methods.calculate_d_x_y z y) min_d_z_y
      then methods.calculate_d_x_y z y
      else min_d_z_y)

  -- `_calculate_n`: an intermediate hop reduces the cost.
  unfoldable pub is_reduced : List (N1Node L) → Netaddr → ℕ → Bool
  is_reduced [] y d1_y = false
  is_reduced (x ∷ rest) y d1_y = ltb (methods.calculate_d_x_y x y) d1_y || is_reduced rest y d1_y

  -- `_calculate_n`: the test of one address.
  unfoldable pub add_to_n : List (N1Node L) → Netaddr → Bool
  add_to_n set_n1 y =
      let d1_y = methods.calculate_d1_x_of_n2_addr set_n1 y in
      if d1_y == metric_infinite then true else is_reduced set_n1 y d1_y

  unfoldable pub collect_n : List (N1Node L) → List Netaddr → List Netaddr → List Netaddr
  collect_n set_n1 [] set_n = set_n
  collect_n set_n1 (y ∷ rest) set_n =
      collect_n set_n1 rest (if add_to_n set_n1 y then add_addr_node_to_set y set_n else set_n)

  -- `_calculate_n`
  unfoldable pub calculate_n : NeighborGraph L → NeighborGraph L
  calculate_n graph = record graph { set_n = collect_n graph.set_n1 graph.set_n2 graph.set_n }

  -- `_calculate_r`: a relay reaches the address at the minimum.
  unfoldable pub already_covered : NeighborGraph L → List (N1Node L) → Netaddr → ℕ → Bool
  already_covered graph [] y min_d_z_y = false
  already_covered graph (z ∷ rest) y min_d_z_y =
      methods.calculate_d_x_y z y == min_d_z_y && is_mpr graph z.addr
      || already_covered graph rest y min_d_z_y

  -- `_calculate_r`: the address counts for the node.
  unfoldable pub counts_for : NeighborGraph L → N1Node L → Netaddr → Bool
  counts_for graph x y =
      let min_d_z_y = minimal_d_z_y graph.set_n1 y metric_infinite in
      not (ltb min_d_z_y (methods.calculate_d_x_y x y))
      && not (already_covered graph graph.set_n1 y min_d_z_y)

  unfoldable pub count_r : NeighborGraph L → N1Node L → List Netaddr → ℕ
  count_r graph x [] = 0
  count_r graph x (y ∷ rest) = one (counts_for graph x y) + count_r graph x rest

  -- `_calculate_r`. The count is below the size of the memory and does not wrap around.
  unfoldable pub calculate_r : NeighborGraph L → N1Node L → ℕ
  calculate_r graph x = if is_mpr graph x.addr then 0 else count_r graph x graph.set_n

  unfoldable pub always_of : List (N1Node L) → List (N1Node L) → List (N1Node L)
  always_of [] set_mpr = set_mpr
  always_of (node ∷ rest) set_mpr = always_of rest (
      if methods.get_willingness_n1 node == willingness_always
      then add_n1_node_to_set node set_mpr
      else set_mpr)

  -- `_process_will_always`
  unfoldable pub process_will_always : NeighborGraph L → NeighborGraph L
  process_will_always graph = record graph { set_mpr = always_of graph.set_n1 graph.set_mpr }

  -- `_process_unique_mprs`: the nodes with a two-hop path to the address, their number being
  -- `possible_mprs` and the last of them `possible_mpr_node`.
  unfoldable pub possible_mprs : List (N1Node L) → Netaddr → List (N1Node L)
  possible_mprs [] y = []
  possible_mprs (x ∷ rest) y =
      if methods.calculate_d2_x_y x y == metric_infinite
      then possible_mprs rest y
      else x ∷ possible_mprs rest y

  -- `_process_unique_mprs` for the addresses of N; `none` is the assertion that fails.
  unfoldable pub unique_of :
      List (N1Node L) → List Netaddr → List (N1Node L) → Option (List (N1Node L))
  unique_of set_n1 [] set_mpr = some set_mpr
  unique_of set_n1 (y ∷ rest) set_mpr = elim (possible_mprs set_n1 y) [
    | [] ↦ none
    | node ∷ [] ↦ unique_of set_n1 rest (add_n1_node_to_set node set_mpr)
    | node ∷ second ∷ more ↦ unique_of set_n1 rest set_mpr
  ]

  -- `_process_unique_mprs`
  unfoldable pub process_unique_mprs : NeighborGraph L → Option (NeighborGraph L)
  process_unique_mprs graph = elim (unique_of graph.set_n1 graph.set_n graph.set_mpr) [
    | none ↦ none
    | some set_mpr ↦ some (record graph { set_mpr = set_mpr })
  ]

  -- `_select_greatest_by_property`: one node. The state is `greatest_prop`, where there is a
  -- `greatest_prop_node`, and the candidates so far.
  unfoldable pub select_node :
      NeighborGraph L
      → (N1Node L → ℕ)
      → N1Node L
      → Option ℕ × List (N1Node L)
      → Option ℕ × List (N1Node L)
  select_node graph get_property node (none, candidates) =
      if ltb 0 (calculate_r graph node)
      then (some (get_property node), add_n1_node_to_set node [])
      else (none, candidates)
  select_node graph get_property node (some greatest_prop, candidates) =
      if ltb 0 (calculate_r graph node)
      then (if ltb greatest_prop (get_property node)
          then (some (get_property node), add_n1_node_to_set node [])
          else if get_property node == greatest_prop
          then (some greatest_prop, add_n1_node_to_set node candidates)
          else (some greatest_prop, candidates))
      else (some greatest_prop, candidates)

  unfoldable pub select_from :
      NeighborGraph L
      → (N1Node L → ℕ)
      → List (N1Node L)
      → Option ℕ × List (N1Node L)
      → Option ℕ × List (N1Node L)
  select_from graph get_property [] state = state
  select_from graph get_property (node ∷ rest) state =
      select_from graph get_property rest (select_node graph get_property node state)

  -- The copy of the temporary candidates.
  unfoldable pub copy_set : List (N1Node L) → List (N1Node L) → List (N1Node L)
  copy_set [] set = set
  copy_set (node ∷ rest) set = copy_set rest (add_n1_node_to_set node set)

  -- `_select_greatest_by_property`: the candidates where there are any, and else all of N1.
  unfoldable pub n1_subset : NeighborGraph L → List (N1Node L)
  n1_subset graph = elim graph.set_mpr_candidates [ [] ↦ graph.set_n1 | node ∷ rest ↦ node ∷ rest ]

  -- `_select_greatest_by_property`
  unfoldable pub select_greatest_by_property :
      (NeighborGraph L → N1Node L → ℕ) → NeighborGraph L → NeighborGraph L
  select_greatest_by_property get_property graph = record graph {
    set_mpr_candidates =
        copy_set (select_from graph (get_property graph) (n1_subset graph) (none, [])).1 [];
  }

  -- `_process_remaining`: the candidates of one round.
  unfoldable pub select_candidates : NeighborGraph L → NeighborGraph L
  select_candidates graph =
      let chosen = select_greatest_by_property (λ _ node. methods.get_willingness_n1 node) graph in
      if ltb 1 (length chosen.set_mpr_candidates)
      then select_greatest_by_property calculate_r chosen
      else chosen

  -- `_process_remaining` with fuel; `none` says that the fuel ran out.
  unfoldable pub process_remaining : ℕ → NeighborGraph L → Option (NeighborGraph L)
  process_remaining zero graph = none
  process_remaining (suc fuel) graph =
      let chosen = select_candidates graph in
      elim chosen.set_mpr_candidates [
        | [] ↦ some chosen
        | node ∷ [] ↦ some (record chosen { set_mpr = add_n1_node_to_set node chosen.set_mpr })
        | node ∷ second ∷ more ↦
            process_remaining fuel
              (record chosen { set_mpr = add_n1_node_to_set node chosen.set_mpr })
      ]

  -- `mpr_calculate_mpr_rfc7181`
  unfoldable pub calculate_mpr_rfc7181 : ℕ → NeighborGraph L → Option (NeighborGraph L)
  calculate_mpr_rfc7181 fuel graph =
      elim (process_unique_mprs (process_will_always (calculate_n graph))) [
        | none ↦ none
        | some selected ↦ process_remaining fuel selected
      ]
