-- ===== src/Olsrv2/Search.antt =====
-- A run of the shortest path calculation: `_run_dijkstra` of
-- src-plugins/olsrv2/olsrv2/olsrv2_routing.c with what it calls.
pub mod Graph
pub mod Follow
pub mod Attach
pub mod Round
pub mod Loop
pub mod Shortest
pub mod Start
use olsrd.Base.{
  ℕ, zero, suc, ◌+◌, ◌%◌, ◌^◌, Bool, true, false, not, ◌&&◌, ◌||◌, ltb, leb, ◌==◌, if◌then◌else◌,
  Option, none, some, List, [], ◌∷◌,
}
use olsrd.Common.Tree.{find}
use olsrd.Common.Netaddr.{Netaddr, Family, netaddr_key, same_family, netaddr_same}
use olsrd.Olsrv2.Routing.{
  metric_max, metric_infinite_path, OsRouteKey, LocalNode, RoutingNeighbor, RoutingTree, PathResult,
  update_routing_entry,
}
use olsrd.Olsrv2.Dijkstra.{
  DijkstraNode, TcEdge, TcAttachment, TargetKind, node_target, endpoint_target, TcTarget,
  source_specific, attached_count, Topology, Run, Flags, with_node, Hop, insert_into_working_tree,
}

-- `_update_routing_entry` with the result at a target; a target on the way has a first hop.
unfoldable pub set_route :
    LocalNode → OsRouteKey → Option RoutingNeighbor → ℕ → ℕ → ℕ → Bool → Netaddr → Run → Run
set_route self prefix neigh distance path_cost path_hops single_hop last_originator run =
    elim neigh [
      | none ↦ run
      | some first_hop ↦ record run {
        routes =
            update_routing_entry self prefix
              (record {
                first_hop = first_hop;
                distance = distance;
                path_cost = path_cost;
                path_hops = path_hops;
                single_hop = single_hop;
                last_originator = last_originator;
              })
              run.routes;
      }
    ]

-- `_handle_working_queue`: one edge of the node.
unfoldable pub follow_edge : Flags → Bool → Hop → TcEdge → Run → Run
follow_edge flags ss hop edge run =
    if not edge.is_virtual && leb edge.cost metric_max
    then (if not flags.use_non_ss && not ss
        then run
        else insert_into_working_tree edge.dst hop edge.cost 0 false run)
    else run

unfoldable pub follow_edges : Flags → Bool → Hop → List TcEdge → Run → Run
follow_edges flags ss hop [] run = run
follow_edges flags ss hop (edge ∷ edges) run =
    follow_edges flags ss hop edges (follow_edge flags ss hop edge run)

-- `_handle_working_queue`: an endpoint that nothing else is attached to. The number of hops is taken
-- from the endpoint, as an uint8_t.
unfoldable pub finish_endpoint : LocalNode → Topology → Hop → TcAttachment → Run → Run
finish_endpoint self topology hop attachment run =
    let endpoint = run.node attachment.dst in
    set_route self (topology.target attachment.dst).prefix hop.neigh attachment.distance
      ((hop.path_cost + attachment.cost) % 2 ^ 32) ((endpoint.path_hops + 1) % 2 ^ 8) false
      hop.last_originator (with_node attachment.dst (record endpoint { done = true }) run)

-- `_handle_working_queue`: the endpoint belongs to the kind of targets that the run is for.
abbrev pub is_wanted : Flags → TcTarget → Bool
is_wanted flags target =
    if ltb 0 target.prefix.src.prefix_len then flags.use_ss else flags.use_non_ss

-- `_handle_working_queue`: one attached network or address of the node.
unfoldable pub follow_attachment : LocalNode → Topology → Flags → Hop → TcAttachment → Run → Run
follow_attachment self topology flags hop attachment run =
    if leb attachment.cost metric_max && is_wanted flags (topology.target attachment.dst)
    then (if ltb 1 (attached_count (topology.target attachment.dst).kind)
        then insert_into_working_tree attachment.dst hop attachment.cost attachment.distance false
            run
        else finish_endpoint self topology hop attachment run)
    else run

unfoldable pub follow_attachments :
    LocalNode → Topology → Flags → Hop → List TcAttachment → Run → Run
follow_attachments self topology flags hop [] run = run
follow_attachments self topology flags hop (attachment ∷ rest) run =
    follow_attachments self topology flags hop rest
      (follow_attachment self topology flags hop attachment run)

-- `_handle_working_queue`: what is reached from the target. No insertion changes a target that is done,
-- so that its fields are read once.
unfoldable pub follow : LocalNode → Topology → Flags → Hop → TargetKind → Run → Run
follow self topology flags hop (endpoint_target count) run = run
follow self topology flags hop (node_target ss ss_attached edges attached) run =
    follow_attachments self topology flags hop attached (follow_edges flags ss hop edges run)

-- `_handle_working_queue`: the target has left the working tree with this node.
unfoldable pub settle_target : LocalNode → Topology → Flags → ℕ → DijkstraNode → Run → Run
settle_target self topology flags i node run =
    let finished = with_node i (record node { done = true }) run in
    let prefix = (topology.target i).prefix in
    let routed =
      if flags.use_non_ss
      then set_route self prefix node.first_hop node.distance node.path_cost node.path_hops
          node.single_hop node.last_originator finished
      else finished in
    let hop : Hop = record {
      neigh = node.first_hop;
      path_cost = node.path_cost;
      path_hops = node.path_hops;
      last_originator = prefix.dst;
    } in
    follow self topology flags hop (topology.target i).kind routed

-- `_handle_working_queue` for the first target of the working tree.
unfoldable pub handle_working_queue : LocalNode → Topology → Flags → Run → Run
handle_working_queue self topology flags run = elim run.working [
  | [] ↦ run
  | (cost, i) ∷ rest ↦
      settle_target self topology flags i (run.node i) (record run { working = rest })
]

-- `_add_one_hop_nodes`: a neighbour whose node is known.
unfoldable pub add_one_hop_node :
    LocalNode → Topology → Family → Flags → RoutingNeighbor → ℕ → Run → Run
add_one_hop_node self topology family flags neigh i run =
    if not flags.use_non_ss && not (source_specific (topology.target i).kind && flags.use_ss)
    then run
    else if ltb metric_max neigh.metric_in || ltb metric_max neigh.metric_out
    then run
    else insert_into_working_tree i
        (record {
          neigh = some neigh;
          path_cost = 0;
          path_hops = 0;
          last_originator = self.originator_get family;
        })
        neigh.metric_out 0 true run

-- `_add_one_hop_nodes`
unfoldable pub add_one_hop_nodes :
    LocalNode → Topology → Family → Flags → List RoutingNeighbor → Run → Run
add_one_hop_nodes self topology family flags [] run = run
add_one_hop_nodes self topology family flags (neigh ∷ rest) run =
    add_one_hop_nodes self topology family flags rest (
      if not (same_family neigh.originator.family family) || not neigh.is_symmetric
      then run
      else elim (find neigh.originator topology.nodes) [
        | none ↦ run
        | some i ↦ add_one_hop_node self topology family flags neigh i run
      ])

-- The loop of `_run_dijkstra` with fuel; `none` says that the fuel ran out.
unfoldable pub search_loop : ℕ → LocalNode → Topology → Flags → Run → Option Run
search_loop zero self topology flags run = elim run.working [ [] ↦ some run | _ ∷ _ ↦ none ]
search_loop (suc fuel) self topology flags run = elim run.working [
  | [] ↦ some run
  | _ ∷ _ ↦ search_loop fuel self topology flags (handle_working_queue self topology flags run)
]

-- `_run_dijkstra`
unfoldable pub run_dijkstra :
    ℕ → LocalNode → Topology → Family → Flags → List RoutingNeighbor → Run → Option Run
run_dijkstra fuel self topology family flags neighbors run =
    search_loop fuel self topology flags
      (add_one_hop_nodes self topology family flags neighbors run)
