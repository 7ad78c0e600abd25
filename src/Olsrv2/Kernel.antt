-- ===== src/Olsrv2/Kernel.antt =====
-- From the routes of a domain to the kernel: `_prepare_routes`, `_process_dijkstra_result`,
-- `_process_kernel_queue` and the end of a request, of src-plugins/olsrv2/olsrv2/olsrv2_routing.c. The
-- queue holds the routes by their keys.
pub mod Order
use olsrd.Base.{
  ℕ, ◌%◌, Bool, true, false, not, ◌&&◌, ◌||◌, ◌==◌, if◌then◌else◌, Option, none, some, List, [],
  ◌∷◌, ◌++◌,
}
use olsrd.Common.Tree.{find, update, remove}
use olsrd.Common.Netaddr.{Family, inet, unspec, same_family, netaddr_same}
use olsrd.Olsrv2.Routing.{
  OsRouteKey, route_key, same_route, same_type, OsRouteParameter, RoutingEntry, RoutingTree,
  LocalNode,
}

-- `struct olsrv2_routing_domain`
pub record RoutingDomain : Type 0 where
  pub use_srcip_in_routes : Bool
  pub protocol : ℕ
  pub table : ℕ
  pub distance : ℕ

-- The callback of `struct olsrv2_routing_filter`: the parameters that it leaves, the key and the type
-- among them, and its answer. The node of the tree points to the key in the entry, so that a changed
-- key is the one that the entry has in the tree. Later lookups and the kernel queue go by it, which
-- supposes that the filters keep the keys of a domain different and in their order.
abbrev pub RoutingFilter : Type 0
RoutingFilter = OsRouteKey → OsRouteParameter → Bool → (OsRouteKey × OsRouteParameter) × Bool

-- `_prepare_routes`
unfoldable pub prepare_routes : RoutingTree → RoutingTree
prepare_routes [] = []
prepare_routes ((key, rtentry) ∷ rest) =
    (key, record rtentry { set = false; old_key = key; old = rtentry.route }) ∷ prepare_routes rest

-- `_process_dijkstra_result`: the rest of the route parameters. The table and the protocol of a domain
-- are of type `int`, those of a route of type `unsigned char`.
unfoldable pub rest_of_parameters :
    LocalNode → RoutingDomain → OsRouteKey → RoutingEntry → OsRouteParameter
rest_of_parameters self domain key rtentry =
    let route = record rtentry.route {
      table = domain.table % 256;
      protocol = domain.protocol % 256;
      metric = domain.distance;
    } in
    if rtentry.set && domain.use_srcip_in_routes && same_family key.dst.family inet
    then record route { src_ip = self.originator_get inet }
    else route

-- `_process_dijkstra_result`: the loop over the filters. Its `continue` goes on with the next filter, so
-- that no answer matters.
unfoldable pub run_filters :
    List RoutingFilter → Bool → OsRouteKey × OsRouteParameter → OsRouteKey × OsRouteParameter
run_filters [] set route = route
run_filters (filter ∷ filters) set (key, route) = run_filters filters set (filter key route set).0

-- `memcmp` of two parameters but for their keys.
abbrev pub same_parameter : OsRouteParameter → OsRouteParameter → Bool
same_parameter a b =
    same_family a.family b.family
    && same_type a.route_type b.route_type
    && netaddr_same a.gw b.gw
    && netaddr_same a.src_ip b.src_ip
    && a.metric == b.metric
    && a.table == b.table
    && a.protocol == b.protocol
    && a.if_index == b.if_index

-- `_add_route_to_kernel_queue`
unfoldable pub add_route_to_kernel_queue :
    OsRouteKey → RoutingEntry → List OsRouteKey → List OsRouteKey
add_route_to_kernel_queue key rtentry queue =
    if rtentry.set
    then (if same_family rtentry.route.gw.family unspec then key ∷ queue else queue ++ (key ∷ []))
    else (if same_family rtentry.route.gw.family unspec then queue ++ (key ∷ []) else key ∷ queue)

-- `_process_dijkstra_result`: the entry with its parameters, under its key.
unfoldable pub finish_entry :
    LocalNode
    → RoutingDomain
    → List RoutingFilter
    → OsRouteKey
    → RoutingEntry
    → OsRouteKey × RoutingEntry
finish_entry self domain filters key rtentry =
    let (key', route) =
      run_filters filters rtentry.set (key, rest_of_parameters self domain key rtentry) in
    (key', record rtentry { route = route })

-- `_process_dijkstra_result`: an entry that is not ignored.
abbrev pub is_change : OsRouteKey → RoutingEntry → Bool
is_change key rtentry =
    not (rtentry.set && same_route rtentry.old_key key && same_parameter rtentry.old rtentry.route)

-- `_process_dijkstra_result`: the routes and the kernel queue.
unfoldable pub process_dijkstra_result :
    LocalNode
    → RoutingDomain
    → List RoutingFilter
    → RoutingTree
    → List OsRouteKey
    → RoutingTree × List OsRouteKey
process_dijkstra_result self domain filters [] queue = ([], queue)
process_dijkstra_result self domain filters ((key, rtentry) ∷ rest) queue =
    let (key', done) = finish_entry self domain filters key rtentry in
    let after =
      process_dijkstra_result self domain filters rest
        (if is_change key' done then add_route_to_kernel_queue key' done queue else queue) in
    ((key', done) ∷ after.0, after.1)

-- A call of `os_routing_set`: whether to set or to remove, and the route.
pub record KernelRequest : Type 0 where
  pub key : OsRouteKey
  pub route : OsRouteParameter
  pub set : Bool

-- `_process_kernel_queue`: one element of the queue. The result of `os_routing_set` is only logged.
unfoldable pub process_queued : OsRouteKey → RoutingTree → RoutingTree × List KernelRequest
process_queued key routes = elim (find key routes) [
  | none ↦ (routes, [])
  | some rtentry ↦ if rtentry.in_processing then (routes, []) else (
    update key (record rtentry { in_processing = true }) routes,
    record { key = key; route = rtentry.route; set = rtentry.set } ∷ [],
  )
]

-- `_process_kernel_queue`: the routes, and the calls in their order. The queue is empty afterwards.
unfoldable pub process_kernel_queue :
    List OsRouteKey → RoutingTree → RoutingTree × List KernelRequest
process_kernel_queue [] routes = (routes, [])
process_kernel_queue (key ∷ queue) routes =
    let one = process_queued key routes in
    let rest = process_kernel_queue queue one.0 in (rest.0, one.1 ++ rest.1)

-- The `error` of `_cb_route_finished`: 0, -1 for an interrupt, ESRCH, EEXIST or another.
pub data RouteError : Type 0 where
  success interrupted esrch eexist other_error : RouteError

-- `_cb_route_finished`: the end of a route that is set.
unfoldable pub set_finished : RouteError → OsRouteKey → RoutingTree → RoutingTree
set_finished success key routes = routes
set_finished interrupted key routes = routes
set_finished eexist key routes = routes
set_finished esrch key routes = remove key routes
set_finished other_error key routes = remove key routes

-- `_cb_route_finished`: the end of a route that is not set.
unfoldable pub unset_finished : RouteError → OsRouteKey → RoutingEntry → RoutingTree → RoutingTree
unset_finished success key rtentry routes = remove key routes
unset_finished interrupted key rtentry routes = routes
unset_finished esrch key rtentry routes = remove key routes
unset_finished eexist key rtentry routes = update key (record rtentry { set = true }) routes
unset_finished other_error key rtentry routes = update key (record rtentry { set = true }) routes

-- `_cb_route_finished` for the route under a key.
unfoldable pub cb_route_finished : RouteError → OsRouteKey → RoutingTree → RoutingTree
cb_route_finished error key routes = elim (find key routes) [
  | none ↦ routes
  | some rtentry ↦
      let idle = record rtentry { in_processing = false } in
      if rtentry.set
      then set_finished error key (update key idle routes)
      else unset_finished error key idle (update key idle routes)
]

-- `olsrv2_routing_initiate_shutdown`: the entries of a domain. The interrupts call nobody back.
unfoldable pub shutdown_entries : RoutingTree → List OsRouteKey → RoutingTree × List OsRouteKey
shutdown_entries [] queue = ([], queue)
shutdown_entries ((key, rtentry) ∷ rest) queue =
    if rtentry.set
    then (let removed = record rtentry { set = false } in
        let after = shutdown_entries rest (add_route_to_kernel_queue key removed queue) in
        ((key, removed) ∷ after.0, after.1))
    else (let after = shutdown_entries rest queue in ((key, rtentry) ∷ after.0, after.1))

-- `olsrv2_routing_set_domain_parameter`: an entry that is set. `is_in_progress` says for which routes
-- the system waits for an answer of the kernel; an interrupt calls those back with -1.
abbrev pub withdrawn : (OsRouteKey → Bool) → OsRouteKey → RoutingEntry → RoutingEntry
withdrawn is_in_progress key rtentry = record rtentry {
  set = false;
  in_processing = rtentry.in_processing && not (is_in_progress key);
}

-- `olsrv2_routing_set_domain_parameter`: the entries of the domain.
unfoldable pub withdraw_entries :
    (OsRouteKey → Bool) → RoutingTree → List OsRouteKey → RoutingTree × List OsRouteKey
withdraw_entries is_in_progress [] queue = ([], queue)
withdraw_entries is_in_progress ((key, rtentry) ∷ rest) queue =
    if rtentry.set
    then (let removed = withdrawn is_in_progress key rtentry in
        let after =
          withdraw_entries is_in_progress rest (add_route_to_kernel_queue key removed queue) in
        ((key, removed) ∷ after.0, after.1))
    else (let after = withdraw_entries is_in_progress rest queue in
        ((key, rtentry) ∷ after.0, after.1))
