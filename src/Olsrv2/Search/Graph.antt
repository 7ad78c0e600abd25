-- ===== src/Olsrv2/Search/Graph.antt =====
-- The graph that a run of the shortest path calculation searches.
use olsrd.Base.{
  In, ℕ, ◌+◌, ◌≡◌, Bool, false, not, ◌&&◌, ◌||◌, ltb, leb, if◌then◌else◌, List, [], ◌∷◌, ◌++◌, none,
  some,
}
use olsrd.Common.Tree.{find}
use olsrd.Common.Netaddr.{Family, netaddr_key, same_family}
use olsrd.Olsrv2.Routing.{metric_max, RoutingNeighbor}
use olsrd.Olsrv2.Dijkstra.{
  TcEdge, TcAttachment, TargetKind, node_target, endpoint_target, Topology, Flags, source_specific,
  attached_count,
}
use olsrd.Olsrv2.Search.{is_wanted}

-- The links that leave a target, as the next target and the cost: edges that are not virtual and have
-- a finite metric, unless the run is for source specific nodes alone and this is none,
abbrev pub edge_out : Flags → Bool → TcEdge → List (ℕ × ℕ)
edge_out flags ss edge =
    if not edge.is_virtual && leb edge.cost metric_max && (flags.use_non_ss || ss)
    then (edge.dst, edge.cost) ∷ []
    else []

abbrev pub edges_out : Flags → Bool → List TcEdge → List (ℕ × ℕ)
edges_out flags ss [] = []
edges_out flags ss (edge ∷ edges) = edge_out flags ss edge ++ edges_out flags ss edges

-- and attachments of finite metric to endpoints of the kind of the run that others are attached to.
abbrev pub attachment_out : Topology → Flags → TcAttachment → List (ℕ × ℕ)
attachment_out topology flags attachment =
    if leb attachment.cost metric_max
      && is_wanted flags (topology.target attachment.dst)
      && ltb 1 (attached_count (topology.target attachment.dst).kind)
    then (attachment.dst, attachment.cost) ∷ []
    else []

abbrev pub attachments_out : Topology → Flags → List TcAttachment → List (ℕ × ℕ)
attachments_out topology flags [] = []
attachments_out topology flags (attachment ∷ rest) =
    attachment_out topology flags attachment ++ attachments_out topology flags rest

abbrev pub links_of_kind : Topology → Flags → TargetKind → List (ℕ × ℕ)
links_of_kind topology flags (node_target ss ss_attached edges attached) =
    edges_out flags ss edges ++ attachments_out topology flags attached
links_of_kind topology flags (endpoint_target count) = []

abbrev pub links : Topology → Flags → ℕ → List (ℕ × ℕ)
links topology flags i = links_of_kind topology flags (topology.target i).kind

-- The links of the own node: to the symmetric neighbours of the address family with a node in the
-- topology and finite metrics.
abbrev pub neighbor_out : Topology → Family → Flags → RoutingNeighbor → List (ℕ × ℕ)
neighbor_out topology family flags neigh =
    if same_family neigh.originator.family family && neigh.is_symmetric
    then elim (find neigh.originator topology.nodes) [
      | none ↦ []
      | some i ↦
          if (flags.use_non_ss || (source_specific (topology.target i).kind && flags.use_ss))
            && leb neigh.metric_in metric_max
            && leb neigh.metric_out metric_max
          then (i, neigh.metric_out) ∷ []
          else []
    ]
    else []

abbrev pub neighbors_out : Topology → Family → Flags → List RoutingNeighbor → List (ℕ × ℕ)
neighbors_out topology family flags [] = []
neighbors_out topology family flags (neigh ∷ rest) =
    neighbor_out topology family flags neigh ++ neighbors_out topology family flags rest

-- An endpoint that nothing but one node is attached to.
abbrev pub is_single : TargetKind → Bool
is_single (node_target ss ss_attached edges attached) = false
is_single (endpoint_target count) = leb count 1

-- The paths through targets that are not blocked, with their costs.
pub data Route (sources : List (ℕ × ℕ)) (next : ℕ → List (ℕ × ℕ)) (blocked : ℕ → Bool)
    : ℕ → ℕ → Type 0 where
  direct : {j w : ℕ} → In (j, w) sources → blocked j ≡ false → Route sources next blocked j w
  onward :
      {i c j w d : ℕ}
      → Route sources next blocked i c
      → In (j, w) (next i)
      → blocked j ≡ false
      → d ≡ c + w
      → Route sources next blocked j d
