-- ===== src/Olsrv2/Examples.antt =====
-- Examples that the theorems about the routing set apply to.
use olsrd.Base.{
  Bool, ◌&&◌, ◌||◌, is_some, In, here, there, ℕ, zero, suc, ◌≡◌, ◌<◌, ◌≤◌, refl, subst, sym, true,
  false, [], ◌∷◌, ◌++◌, All, none, some, arith, if◌then◌else◌, ◌&&◌,
}
use olsrd.Common.Netaddr.{Netaddr, Family, inet, same_family, same_bytes, netaddr_same}
use olsrd.Common.Tree.{find}
use olsrd.Olsrv2.Routing.{
  OsRouteKey, route_key, RoutingEntry, RoutingTree, LocalNode, RoutingNeighbor, new_entry,
  unspecified, PathResult, wants_route, update_routing_entry, same_route, metric_infinite_path,
}
use olsrd.Olsrv2.Routing.Entries.{entry_cost, cheaper, update_cost}
use olsrd.Olsrv2.Dijkstra.{
  DijkstraNode, TcEdge, TcAttachment, TargetKind, node_target, endpoint_target, Topology, Run,
  Flags, insert_into_working_tree, insert_path, enqueue, dequeue, is_queued,
}
use olsrd.Olsrv2.Search.{
  run_dijkstra, search_loop, add_one_hop_nodes, add_one_hop_node, handle_working_queue,
  settle_target, follow, follow_edges, follow_edge, follow_attachments, follow_attachment,
  set_route,
}
use olsrd.Olsrv2.Search.Graph.{direct, onward, is_single, links, neighbors_out}
use olsrd.Olsrv2.Search.Loop.{IsTopology, ToEndpoints}
use olsrd.Olsrv2.Search.Start.{settles, RunRoute, AreNeighbors, run_cheapest, run_path, cost_at}
use olsrd.Olsrv2.Kernel.{RoutingDomain, process_dijkstra_result}
use olsrd.Olsrv2.Originator.{Originators, is_local, originator_set, originator_set_local}
use olsrd.Olsrv2.Update.{force_update}
use olsrd.Olsrv2.Update.Returns.{force_update_returns}
use olsrd.Olsrv2.Kernel.Order.{prepend, changes, queue_order}

abbrev node_addr : ℕ → Netaddr
node_addr i = record {
  addr = 10 ∷ 0 ∷ 0 ∷ i ∷ 0 ∷ 0 ∷ 0 ∷ 0 ∷ 0 ∷ 0 ∷ 0 ∷ 0 ∷ 0 ∷ 0 ∷ 0 ∷ 0 ∷ [];
  family = inet;
  prefix_len = 32;
}

abbrev route_to : ℕ → OsRouteKey
route_to i = record { dst = node_addr i; src = unspecified }

abbrev edge_to : ℕ → ℕ → TcEdge
edge_to i cost = record { dst = i; cost = cost; is_virtual = false }

abbrev network : ℕ → TcAttachment
network cost = record { dst = 3; cost = cost; distance = 2 }

-- Three nodes in a triangle, whose direct edge from 0 to 2 is expensive, and an endpoint that 1 and 2
-- are attached to.
abbrev kind_of : ℕ → TargetKind
kind_of zero = node_target false false (edge_to 1 5 ∷ edge_to 2 20 ∷ []) []
kind_of (suc zero) = node_target false false (edge_to 0 5 ∷ edge_to 2 4 ∷ []) (network 1 ∷ [])
kind_of (suc (suc zero)) = node_target false false [] (network 7 ∷ [])
kind_of (suc (suc (suc zero))) = endpoint_target 2
kind_of (suc (suc (suc (suc i)))) = endpoint_target 0

abbrev triangle : Topology
triangle = record {
  target = λ i. record { prefix = route_to i; kind = kind_of i };
  nodes = (node_addr 0, 0) ∷ (node_addr 1, 1) ∷ (node_addr 2, 2) ∷ [];
}

abbrev plain : Flags
plain = record { use_non_ss = true; use_ss = true }

abbrev next_door : RoutingNeighbor
next_door = record {
  originator = node_addr 0;
  is_symmetric = true;
  metric_in = 10;
  metric_out = 10;
  best_link_ifindex = 2;
  best_link_if_addr = node_addr 0;
}

abbrev own_node : LocalNode
own_node = record {
  originator_get = λ family. node_addr 9;
  interface_addresses = node_addr 9 ∷ [];
  lans = [];
  routable = record { accept = []; reject = []; reject_first = true; accept_default = true };
  memory = true;
}

abbrev untouched : DijkstraNode
untouched = record {
  path_cost = metric_infinite_path;
  path_hops = 255;
  distance = 0;
  first_hop = none;
  last_originator = unspecified;
  single_hop = false;
  local = false;
  done = false;
}

abbrev fresh : Run
fresh = record { node = λ i. untouched; working = []; routes = [] }

triangle_ends : (i : ℕ) → ToEndpoints triangle (kind_of i)
triangle_ends zero = tt
triangle_ends (suc zero) = (refl, tt)
triangle_ends (suc (suc zero)) = (refl, tt)
triangle_ends (suc (suc (suc zero))) = tt
triangle_ends (suc (suc (suc (suc i)))) = tt

triangle_links :
    (use_non_ss use_ss : Bool) (i : ℕ)
    → All
        (λ e. (e.0 < 4) × (e.1 ≤ 20) × (is_single (kind_of e.0) ≡ false))
        (links triangle (record { use_non_ss = use_non_ss; use_ss = use_ss }) i)
triangle_links true use_ss zero =
    ((omega arith, omega arith, refl), ((omega arith, omega arith, refl), tt))
triangle_links true use_ss (suc zero) = (
  (omega arith, omega arith, refl),
  ((omega arith, omega arith, refl), ((omega arith, omega arith, refl), tt)),
)
triangle_links true use_ss (suc (suc zero)) = ((omega arith, omega arith, refl), tt)
triangle_links true use_ss (suc (suc (suc zero))) = tt
triangle_links true use_ss (suc (suc (suc (suc i)))) = tt
triangle_links false use_ss zero = tt
triangle_links false use_ss (suc zero) = tt
triangle_links false use_ss (suc (suc zero)) = tt
triangle_links false use_ss (suc (suc (suc zero))) = tt
triangle_links false use_ss (suc (suc (suc (suc i)))) = tt

triangle-IsTopology : IsTopology triangle plain 4 20
triangle-IsTopology = record { ends = triangle_ends; targets = triangle_links true true }

only_next_door : neighbors_out triangle inet plain (next_door ∷ []) ≡ (0, 10) ∷ []
unfolding same_family same_bytes netaddr_same find
only_next_door = refl

next_door-AreNeighbors : AreNeighbors triangle inet plain (next_door ∷ []) 4 20
next_door-AreNeighbors = rw only_next_door ((omega arith, omega arith, refl), tt)

-- From the neighbour over the middle node to the network.
around : RunRoute triangle inet plain (next_door ∷ []) fresh 3 16
around =
    let start : In (0, 10) (neighbors_out triangle inet plain (next_door ∷ [])) =
      subst (In (0, 10)) (sym only_next_door) here in
    onward {c = 15} {w = 1} (onward {c = 10} {w = 5} (direct start refl) here refl (omega arith))
      (there (there here)) refl (omega arith)

run_cheapest_example :
    settles 3 16 (run_dijkstra 4 own_node triangle inet plain (next_door ∷ []) fresh) ≡ true
run_cheapest_example =
    run_cheapest own_node triangle inet plain (next_door ∷ []) 4 20 triangle-IsTopology
      next_door-AreNeighbors (omega arith) fresh refl 4 (omega arith) 3 16 around

network_cost :
    cost_at 3 (run_dijkstra 4 own_node triangle inet plain (next_door ∷ []) fresh) ≡ some 16
unfolding run_dijkstra search_loop add_one_hop_nodes add_one_hop_node handle_working_queue
    settle_target follow follow_edges follow_edge follow_attachments follow_attachment
    insert_into_working_tree insert_path enqueue dequeue is_queued set_route find same_family
    same_bytes netaddr_same
network_cost = refl

run_path_example : RunRoute triangle inet plain (next_door ∷ []) fresh 3 16
run_path_example =
    run_path own_node triangle inet plain (next_door ∷ []) 4 20 triangle-IsTopology
      next_door-AreNeighbors (omega arith) fresh refl 4 (omega arith) 3 16 refl network_cost

-- A better and a worse path to a network.
abbrev path_at : ℕ → PathResult
path_at c = record {
  first_hop = next_door;
  distance = 2;
  path_cost = c;
  path_hops = 3;
  single_hop = false;
  last_originator = node_addr 1;
}

update_cost_example :
    entry_cost (
      find (route_to 7) (
        update_routing_entry own_node
          (route_to 7)
          (path_at 16)
          ((route_to 7, new_entry (route_to 7)) ∷ [])))
    ≡ (if same_route (route_to 7) (route_to 7) && wants_route own_node (route_to 7) 16
        then cheaper (entry_cost (find (route_to 7) ((route_to 7, new_entry (route_to 7)) ∷ []))) 16
        else entry_cost (find (route_to 7) ((route_to 7, new_entry (route_to 7)) ∷ [])))
update_cost_example =
    update_cost own_node (route_to 7) (path_at 16) ((route_to 7, new_entry (route_to 7)) ∷ []) refl
      (route_to 7)

-- A route that is set, and one that is not.
abbrev set_route_to_7 : RoutingEntry
set_route_to_7 = record (new_entry (route_to 7)) { set = true; path_cost = 16 }

abbrev two_routes : RoutingTree
two_routes = (route_to 7, set_route_to_7) ∷ (route_to 8, new_entry (route_to 8)) ∷ []

abbrev main_domain : RoutingDomain
main_domain = record { use_srcip_in_routes = true; protocol = 100; table = 254; distance = 2 }

queue_order_example :
    (process_dijkstra_result own_node main_domain [] two_routes (route_to 6 ∷ [])).1
    ≡ prepend
        (changes true
          (process_dijkstra_result own_node main_domain [] two_routes (route_to 6 ∷ [])).0)
        (route_to 6 ∷ [])
      ++ changes false
          (process_dijkstra_result own_node main_domain [] two_routes (route_to 6 ∷ [])).0
queue_order_example = queue_order own_node main_domain [] two_routes (route_to 6 ∷ [])

triangle_every_run : (flags : Flags) → IsTopology triangle flags 4 20
triangle_every_run flags = record {
  ends = triangle_ends;
  targets = triangle_links flags.use_non_ss flags.use_ss;
}

next_door_tests :
    (same non_ss : Bool)
    → All
        (λ (e : ℕ × ℕ). (e.0 < 4) × (e.1 ≤ 20) × (is_single (kind_of e.0) ≡ false))
        ((if same && true
            then (if (non_ss || false) && true && true then (0, 10) ∷ [] else [])
            else [])
          ++ [])
next_door_tests true true = ((omega arith, omega arith, refl), tt)
next_door_tests true false = tt
next_door_tests false non_ss = tt

next_door_every_run :
    (family : Family) (flags : Flags) → AreNeighbors triangle family flags (next_door ∷ []) 4 20
unfolding same_family same_bytes netaddr_same find
next_door_every_run family flags = next_door_tests (same_family inet family) flags.use_non_ss

abbrev own_originators : Originators
own_originators = record { originator_v4 = node_addr 9; originator_v6 = unspecified; former = [] }

originator_set_local_example :
    is_local (originator_set true 130000 (node_addr 10) own_originators) (node_addr 9)
    ≡ (netaddr_same (node_addr 10) (node_addr 9) || is_local own_originators (node_addr 9))
unfolding same_family
originator_set_local_example =
    originator_set_local 130000 (node_addr 10) own_originators refl (node_addr 9) refl

force_update_returns_example :
    is_some (
      force_update 4 own_node own_originators triangle
        (record { neigh = next_door; neigh_addresses = node_addr 0 ∷ []; two_hops = [] } ∷ [])
        main_domain
        []
        fresh)
    ≡ true
force_update_returns_example =
    force_update_returns own_node own_originators triangle 4 20 4 triangle_every_run (omega arith)
      (omega arith)
      (record { neigh = next_door; neigh_addresses = node_addr 0 ∷ []; two_hops = [] } ∷ [])
      next_door_every_run main_domain [] fresh refl
