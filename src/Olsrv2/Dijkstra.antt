-- ===== src/Olsrv2/Dijkstra.antt =====
-- The shortest path calculation over the topology: src-plugins/olsrv2/olsrv2/olsrv2_routing.c, with the
-- data of olsrv2_routing.h and olsrv2_tc.h. Targets are named by numbers for their addresses in memory.
pub mod Queue
pub mod Relax
use olsrd.Base.{
  ℕ, zero, suc, ◌+◌, ◌%◌, ◌^◌, Bool, true, false, not, ◌&&◌, ◌||◌, ltb, leb, ◌==◌, if◌then◌else◌,
  Option, none, some, List, [], ◌∷◌,
}
use olsrd.Common.Tree.{find}
use olsrd.Common.Netaddr.{Netaddr, Family, netaddr_key, same_family, netaddr_same}
use olsrd.Olsrv2.Routing.{
  metric_max, metric_infinite_path, OsRouteKey, LocalNode, RoutingNeighbor, RoutingTree, PathResult,
  update_routing_entry,
}

-- `struct olsrv2_dijkstra_node`
pub record DijkstraNode : Type 0 where
  pub path_cost : ℕ
  pub path_hops : ℕ
  pub distance : ℕ
  pub first_hop : Option RoutingNeighbor
  pub last_originator : Netaddr
  pub single_hop : Bool
  pub local : Bool
  pub done : Bool

-- `struct olsrv2_tc_edge` and `struct olsrv2_tc_attachment`, at a node and for the domain of the run.
pub record TcEdge : Type 0 where
  pub dst : ℕ
  pub cost : ℕ
  pub is_virtual : Bool

pub record TcAttachment : Type 0 where
  pub dst : ℕ
  pub cost : ℕ
  pub distance : ℕ

-- `struct olsrv2_tc_node` or `struct olsrv2_tc_endpoint`, the latter with the number of nodes that it is
-- attached to.
pub data TargetKind : Type 0 where
  node_target : Bool → Bool → List TcEdge → List TcAttachment → TargetKind
  endpoint_target : ℕ → TargetKind

-- `struct olsrv2_tc_target`
pub record TcTarget : Type 0 where
  pub prefix : OsRouteKey
  pub kind : TargetKind

abbrev pub source_specific : TargetKind → Bool
source_specific (node_target ss ss_attached edges attached) = ss
source_specific (endpoint_target count) = false

-- The `count` of the tree `_attached_networks` of an endpoint.
abbrev pub attached_count : TargetKind → ℕ
attached_count (node_target ss ss_attached edges attached) = 0
attached_count (endpoint_target count) = count

-- The topology: the targets, and the tree of the nodes by originator.
pub record Topology : Type 0 where
  pub target : ℕ → TcTarget
  pub nodes : List (Netaddr × ℕ)

-- The working state: the fields `_dijkstra` of the targets, the working tree and the routes. The tree
-- holds the targets under their path costs.
pub record Run : Type 0 where
  pub node : ℕ → DijkstraNode
  pub working : List (ℕ × ℕ)
  pub routes : RoutingTree

-- `_use_non_ss` and `_use_ss` of a run.
pub record Flags : Type 0 where
  pub use_non_ss : Bool
  pub use_ss : Bool

-- `avl_insert` into a tree with duplicate keys: behind the first element with the same key.
unfoldable pub enqueue : ℕ → ℕ → List (ℕ × ℕ) → List (ℕ × ℕ)
enqueue cost i [] = (cost, i) ∷ []
enqueue cost i ((c, j) ∷ rest) =
    if ltb c cost
    then (c, j) ∷ enqueue cost i rest
    else if c == cost
    then (c, j) ∷ (cost, i) ∷ rest
    else (cost, i) ∷ (c, j) ∷ rest

-- `avl_remove` of a target, and nothing where it is not in the tree.
unfoldable pub dequeue : ℕ → List (ℕ × ℕ) → List (ℕ × ℕ)
dequeue i [] = []
dequeue i ((c, j) ∷ rest) = if j == i then dequeue i rest else (c, j) ∷ dequeue i rest

-- `avl_is_node_added`
unfoldable pub is_queued : ℕ → List (ℕ × ℕ) → Bool
is_queued i [] = false
is_queued i ((c, j) ∷ rest) = j == i || is_queued i rest

-- A write to the `_dijkstra` of a target.
abbrev pub with_node : ℕ → DijkstraNode → Run → Run
with_node i n run = record run { node = λ j. if j == i then n else run.node j }

-- What a path is known by at its last node.
pub record Hop : Type 0 where
  pub neigh : Option RoutingNeighbor
  pub path_cost : ℕ
  pub path_hops : ℕ
  pub last_originator : Netaddr

-- `_insert_into_working_tree`, once the target is not done: with the new path cost.
unfoldable pub insert_path : ℕ → Hop → ℕ → ℕ → Bool → Run → Run
insert_path i hop path_cost distance single_hop run =
    if is_queued i run.working && leb (run.node i).path_cost path_cost
    then run
    else record (with_node i
        (record (run.node i) {
          path_cost = path_cost;
          path_hops = (hop.path_hops + 1) % 2 ^ 8;
          first_hop = hop.neigh;
          distance = distance;
          single_hop = single_hop;
          last_originator = hop.last_originator;
        })
        run) { working = enqueue path_cost i (dequeue i run.working) }

-- `_insert_into_working_tree`
unfoldable pub insert_into_working_tree : ℕ → Hop → ℕ → ℕ → Bool → Run → Run
insert_into_working_tree i hop linkcost distance single_hop run =
    if ltb metric_max linkcost
    then run
    else if (run.node i).local || (run.node i).done
    then run
    else insert_path i hop ((hop.path_cost + linkcost) % 2 ^ 32) distance single_hop run
