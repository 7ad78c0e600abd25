-- ===== src/Olsrv2/Update.antt =====
-- An update of the routes of a domain: `olsrv2_routing_force_update` of
-- src-plugins/olsrv2/olsrv2/olsrv2_routing.c, once the rate limitation lets it run, with the
-- preparation of the targets, the split of the runs and the routes of NHDP.
pub mod Returns
use olsrd.Base.{
  ℕ, zero, suc, ◌+◌, ◌%◌, ◌^◌, Bool, true, false, not, ◌&&◌, ◌||◌, ◌==◌, ltb, if◌then◌else◌, Option,
  none, some, List, [], ◌∷◌,
}
use olsrd.Common.Acl.{check_accept}
use olsrd.Common.Netaddr.{Netaddr, Family, inet, inet6, netaddr_same, same_family}
use olsrd.Olsrv2.Originator.{Originators, is_local}
use olsrd.Olsrv2.Routing.{
  metric_max, metric_infinite_path, OsRouteKey, LocalNode, RoutingNeighbor, RoutingTree, PathResult,
  unspecified, update_routing_entry,
}
use olsrd.Olsrv2.Dijkstra.{
  DijkstraNode, TargetKind, node_target, endpoint_target, Topology, Run, Flags,
}
use olsrd.Olsrv2.Search.{run_dijkstra}
use olsrd.Olsrv2.Kernel.{
  RoutingDomain, RoutingFilter, KernelRequest, prepare_routes, process_dijkstra_result,
  process_kernel_queue,
}

-- `_prepare_nodes`: the `_dijkstra` of a node or of an endpoint, which is never local.
unfoldable pub prepare_node : Originators → Netaddr → TargetKind → DijkstraNode → DijkstraNode
prepare_node originators dst (node_target ss ss_attached edges attached) node = record node {
  first_hop = none;
  path_cost = metric_infinite_path;
  path_hops = 255;
  local = is_local originators dst;
  done = false;
}
prepare_node originators dst (endpoint_target count) node = record node {
  first_hop = none;
  path_cost = metric_infinite_path;
  path_hops = 255;
  done = false;
}

-- `_prepare_nodes`
unfoldable pub prepare_nodes : Originators → Topology → Run → Run
prepare_nodes originators topology run = record run {
  node = λ i.
      prepare_node originators (topology.target i).prefix.dst (topology.target i).kind (run.node i);
}

-- `_check_ssnode_split`: the number of source specific nodes of the family, that of all its nodes, and
-- whether a node of any family has a source specific prefix. A tree in memory has less than 2 ^ 32
-- elements.
unfoldable pub count_ssnodes : Topology → Family → List (Netaddr × ℕ) → ℕ × (ℕ × Bool)
count_ssnodes topology family [] = (0, (0, false))
count_ssnodes topology family ((originator, i) ∷ rest) =
    let counts = count_ssnodes topology family rest in
    elim (topology.target i).kind [
      | endpoint_target count ↦ counts
      | node_target ss ss_attached edges attached ↦
          let here = same_family (topology.target i).prefix.dst.family family in
          (
            (if here && ss then suc counts.0 else counts.0),
            ((if here then suc counts.1.0 else counts.1.0), ss_attached || counts.1.1),
          )
    ]

-- `_check_ssnode_split`
unfoldable pub check_ssnode_split : Topology → Family → Bool
check_ssnode_split topology family =
    let counts = count_ssnodes topology family topology.nodes in
    not (counts.0 == 0) && not (counts.0 == counts.1.0) && counts.1.1

-- A two-hop neighbour of a link with its metric, and `nhdp_db_2hop_is_lost`, which answers whether its
-- validity timer runs.
pub record TwoHopNeighbor : Type 0 where
  pub twohop_addr : Netaddr
  pub metric_out : ℕ
  pub vtime_is_active : Bool

abbrev pub nhdp_db_2hop_is_lost : TwoHopNeighbor → Bool
nhdp_db_2hop_is_lost l2hop = l2hop.vtime_is_active

-- A neighbour with its addresses and the two-hop neighbours of its links.
pub record NhdpNeighbor : Type 0 where
  pub neigh : RoutingNeighbor
  pub neigh_addresses : List Netaddr
  pub two_hops : List TwoHopNeighbor

-- `os_routing_init_sourcespec_prefix`
unfoldable pub init_sourcespec_prefix : Netaddr → OsRouteKey
init_sourcespec_prefix destination = record {
  dst = destination;
  src =
      if same_family destination.family inet
      then record unspecified { family = inet }
      else if same_family destination.family inet6
      then record unspecified { family = inet6 }
      else unspecified;
}

-- `_handle_nhdp_routes`: the addresses of a neighbour. `olsrv2_originator_get` has an address for
-- either family.
unfoldable pub neighbor_routes :
    LocalNode → RoutingNeighbor → List Netaddr → RoutingTree → RoutingTree
neighbor_routes self neigh [] routes = routes
neighbor_routes self neigh (addr ∷ rest) routes = neighbor_routes self neigh rest (
    if check_accept self.routable addr
    then update_routing_entry self (init_sourcespec_prefix addr)
        (record {
          first_hop = neigh;
          distance = 0;
          path_cost = neigh.metric_out;
          path_hops = 1;
          single_hop = true;
          last_originator =
              if same_family neigh.originator.family inet
                || same_family neigh.originator.family inet6
              then self.originator_get neigh.originator.family
              else unspecified;
        })
        routes
    else routes)

-- `_handle_nhdp_routes`: the two-hop neighbours of the links of a neighbour.
unfoldable pub twohop_routes :
    LocalNode → RoutingNeighbor → List TwoHopNeighbor → RoutingTree → RoutingTree
twohop_routes self neigh [] routes = routes
twohop_routes self neigh (l2hop ∷ rest) routes = twohop_routes self neigh rest (
    if nhdp_db_2hop_is_lost l2hop || ltb metric_max l2hop.metric_out
    then routes
    else update_routing_entry self (init_sourcespec_prefix l2hop.twohop_addr)
        (record {
          first_hop = neigh;
          distance = 0;
          path_cost = (l2hop.metric_out + neigh.metric_out) % 2 ^ 32;
          path_hops = 2;
          single_hop = false;
          last_originator = neigh.originator;
        })
        routes)

-- `_handle_nhdp_routes`
unfoldable pub handle_nhdp_routes : LocalNode → List NhdpNeighbor → RoutingTree → RoutingTree
handle_nhdp_routes self [] routes = routes
handle_nhdp_routes self (n ∷ rest) routes = handle_nhdp_routes self rest (
    if not n.neigh.is_symmetric || ltb metric_max n.neigh.metric_out
    then routes
    else twohop_routes self n.neigh n.two_hops
        (neighbor_routes self n.neigh n.neigh_addresses routes))

-- The next run, where there is a result.
unfoldable pub run_next : (Run → Option Run) → Option Run → Option Run
run_next next none = none
run_next next (some run) = next run

abbrev pub neighbors_of : List NhdpNeighbor → List RoutingNeighbor
neighbors_of [] = []
neighbors_of (n ∷ rest) = n.neigh ∷ neighbors_of rest

-- `olsrv2_routing_force_update`: the runs for a domain; `none` says that the fuel of a run ran out.
unfoldable pub run_all :
    ℕ → LocalNode → Originators → Topology → List RoutingNeighbor → Run → Option Run
run_all fuel self originators topology neighbors run =
    let splitv4 = check_ssnode_split topology inet in
    let splitv6 = check_ssnode_split topology inet6 in
    let first =
      run_next
        (run_dijkstra fuel self topology inet6 (record { use_non_ss = true; use_ss = not splitv6 })
          neighbors)
        (run_dijkstra fuel self topology inet (record { use_non_ss = true; use_ss = not splitv4 })
          neighbors (prepare_nodes originators topology run)) in
    let only_ss : Flags = record { use_non_ss = false; use_ss = true } in
    let prepared : Option Run =
      if splitv4 || splitv6
      then run_next (λ r. some (prepare_nodes originators topology r)) first
      else first in
    let second : Option Run =
      if splitv4
      then run_next (run_dijkstra fuel self topology inet only_ss neighbors) prepared
      else prepared in
    if splitv6
    then run_next (run_dijkstra fuel self topology inet6 only_ss neighbors) second
    else second

-- `olsrv2_routing_force_update` where there is one domain: the state afterwards, and the requests to the kernel.
unfoldable pub force_update :
    ℕ
    → LocalNode
    → Originators
    → Topology
    → List NhdpNeighbor
    → RoutingDomain
    → List RoutingFilter
    → Run
    → Option (Run × List KernelRequest)
force_update fuel self originators topology neighbors domain filters run =
    elim (run_all fuel self originators topology (neighbors_of neighbors)
      (record run { routes = prepare_routes run.routes })) [
        | none ↦ none
        | some after ↦
            let result =
              process_dijkstra_result self domain filters
                (handle_nhdp_routes self neighbors after.routes) [] in
            let sent = process_kernel_queue result.1 result.0 in
            some (record after { routes = sent.0 }, sent.1)
      ]
