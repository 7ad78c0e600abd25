-- ===== src/Olsrv2/Routing.antt =====
-- The routing set of a domain: src-plugins/olsrv2/olsrv2/olsrv2_routing.c and olsrv2_routing.h.
pub mod Entries
use olsrd.Base.{
  ℕ, Bool, true, false, ◌&&◌, ◌||◌, ◌==◌, ltb, if◌then◌else◌, Option, none, some, List, [], ◌∷◌,
  ◌↔◌, ◌≡◌, arith,
}
use olsrd.Common.Tree.{Key, find, insert, update}
use olsrd.Common.Netaddr.{Family, unspec, Netaddr, netaddr_key, netaddr_same, netaddr_same_iff}
use olsrd.Common.Acl.{NetaddrAcl, check_accept}

-- RFC7181_METRIC_MAX and RFC7181_METRIC_INFINITE_PATH
abbrev pub metric_max : ℕ
metric_max = 0xffff00

abbrev pub metric_infinite_path : ℕ
metric_infinite_path = 0xffffffff

-- `struct os_route_key`
pub record OsRouteKey : Type 0 where
  pub dst : Netaddr
  pub src : Netaddr

pub same_route : OsRouteKey → OsRouteKey → Bool
same_route a b = netaddr_same a.dst b.dst && netaddr_same a.src b.src

pub same_route_iff : (a b : OsRouteKey) → (same_route a b ≡ true) ↔ (a ≡ b)
unfolding same_route
same_route_iff a b = ground (arith, netaddr_same_iff a.dst b.dst, netaddr_same_iff a.src b.src)

instance abbrev pub route_key : Key OsRouteKey
route_key = record { same = same_route; same_iff = same_route_iff }

-- `enum os_route_type`
pub data OsRouteType : Type 0 where
  undefined unicast local_route broadcast multicast throw unreachable prohibit blackhole nat :
      OsRouteType

abbrev type_number : OsRouteType → ℕ
type_number undefined = 0
type_number unicast = 1
type_number local_route = 2
type_number broadcast = 3
type_number multicast = 4
type_number throw = 5
type_number unreachable = 6
type_number prohibit = 7
type_number blackhole = 8
type_number nat = 9

abbrev pub same_type : OsRouteType → OsRouteType → Bool
same_type a b = type_number a == type_number b

-- `struct os_route_parameter` without the key, which the tree of the routes has.
pub record OsRouteParameter : Type 0 where
  pub family : Family
  pub route_type : OsRouteType
  pub gw : Netaddr
  pub src_ip : Netaddr
  pub metric : ℕ
  pub table : ℕ
  pub protocol : ℕ
  pub if_index : ℕ

-- `struct olsrv2_routing_entry`. The key of `_old` is `old_key`.
pub record RoutingEntry : Type 0 where
  pub route : OsRouteParameter
  pub path_cost : ℕ
  pub path_hops : ℕ
  pub next_originator : Netaddr
  pub last_originator : Netaddr
  pub set : Bool
  pub in_processing : Bool
  pub old_key : OsRouteKey
  pub old : OsRouteParameter

-- A `_routing_tree`
abbrev pub RoutingTree : Type 0
RoutingTree = List (OsRouteKey × RoutingEntry)

-- `struct olsrv2_lan_domaindata`
pub record LanDomaindata : Type 0 where
  pub outgoing_metric : ℕ
  pub active : Bool

-- What the routes of a domain depend on at the own node: `olsrv2_originator_get`, the interface
-- addresses, the locally attached networks, the filter of routable addresses, and whether the
-- allocator has memory.
pub record LocalNode : Type 0 where
  pub originator_get : Family → Netaddr
  pub interface_addresses : List Netaddr
  pub lans : List (OsRouteKey × LanDomaindata)
  pub routable : NetaddrAcl
  pub memory : Bool

-- A neighbour with its data in the domain (`struct nhdp_neighbor_domaindata`).
pub record RoutingNeighbor : Type 0 where
  pub originator : Netaddr
  pub is_symmetric : Bool
  pub metric_in : ℕ
  pub metric_out : ℕ
  pub best_link_ifindex : ℕ
  pub best_link_if_addr : Netaddr

-- `nhdp_interface_addr_global_get(addr) != NULL`
unfoldable pub is_interface_address : List Netaddr → Netaddr → Bool
is_interface_address [] addr = false
is_interface_address (a ∷ rest) addr = netaddr_same a addr || is_interface_address rest addr

abbrev pub unspecified : Netaddr
unspecified = record {
  addr = 0 ∷ 0 ∷ 0 ∷ 0 ∷ 0 ∷ 0 ∷ 0 ∷ 0 ∷ 0 ∷ 0 ∷ 0 ∷ 0 ∷ 0 ∷ 0 ∷ 0 ∷ 0 ∷ [];
  family = unspec;
  prefix_len = 0;
}

-- `_add_entry`: the fields of a new entry.
abbrev pub new_entry : OsRouteKey → RoutingEntry
new_entry prefix =
    let zero_route : OsRouteParameter = record {
      family = unspec;
      route_type = undefined;
      gw = unspecified;
      src_ip = unspecified;
      metric = 0;
      table = 0;
      protocol = 0;
      if_index = 0;
    } in
    record {
      route = record zero_route { family = prefix.dst.family; route_type = unicast };
      path_cost = metric_infinite_path;
      path_hops = 255;
      next_originator = unspecified;
      last_originator = unspecified;
      set = false;
      in_processing = false;
      old_key = record { dst = unspecified; src = unspecified };
      old = zero_route;
    }

-- `_add_entry`: the entry, and the tree that has it.
unfoldable pub add_entry : Bool → OsRouteKey → RoutingTree → Option (RoutingEntry × RoutingTree)
add_entry memory prefix routes = elim (find prefix routes) [
  | some entry ↦ some (entry, routes)
  | none ↦ if memory then some (new_entry prefix, insert prefix (new_entry prefix) routes) else none
]

-- `_update_routing_entry`: a locally attached network with a better metric.
unfoldable pub lan_is_better : LocalNode → OsRouteKey → ℕ → Bool
lan_is_better self prefix pathcost = elim (find prefix self.lans) [
  | none ↦ false
  | some landata ↦ landata.active && ltb landata.outgoing_metric pathcost
]

-- `_update_routing_entry`: the tests of the destination, false where the code returns.
unfoldable pub wants_route : LocalNode → OsRouteKey → ℕ → Bool
wants_route self prefix pathcost =
    if netaddr_same (self.originator_get prefix.dst.family) prefix.dst
    then false
    else if is_interface_address self.interface_addresses prefix.dst
    then false
    else if lan_is_better self prefix pathcost
    then false
    else check_accept self.routable prefix.dst

-- What a path to a destination gives.
pub record PathResult : Type 0 where
  pub first_hop : RoutingNeighbor
  pub distance : ℕ
  pub path_cost : ℕ
  pub path_hops : ℕ
  pub single_hop : Bool
  pub last_originator : Netaddr

-- `_update_routing_entry`: the fields of the entry.
unfoldable pub fill_entry : OsRouteKey → PathResult → RoutingEntry → RoutingEntry
fill_entry prefix path entry = record entry {
  route = record entry.route {
    if_index = path.first_hop.best_link_ifindex;
    metric = path.distance;
    gw =
        if path.single_hop && netaddr_same path.first_hop.best_link_if_addr prefix.dst
        then unspecified
        else path.first_hop.best_link_if_addr;
  };
  path_cost = path.path_cost;
  path_hops = path.path_hops;
  next_originator = path.first_hop.originator;
  last_originator = path.last_originator;
  set = true;
}

-- `_update_routing_entry` from the entry on.
unfoldable pub replace_entry : OsRouteKey → PathResult → RoutingEntry × RoutingTree → RoutingTree
replace_entry prefix path (entry, routes) =
    if entry.set && ltb entry.path_cost path.path_cost
    then routes
    else update prefix (fill_entry prefix path entry) routes

-- `_update_routing_entry`
unfoldable pub update_routing_entry :
    LocalNode → OsRouteKey → PathResult → RoutingTree → RoutingTree
update_routing_entry self prefix path routes =
    if wants_route self prefix path.path_cost
    then elim (add_entry self.memory prefix routes) [
      | none ↦ routes
      | some found ↦ replace_entry prefix path found
    ]
    else routes
