-- ===== src/Olsrv2/Update/Returns.antt =====
-- An update of a domain returns: each of its runs ends with an empty working tree.
use olsrd.Base.{
  is_some, ℕ, ◌+◌, ◌*◌, ◌^◌, ◌≡◌, ◌<◌, ◌≤◌, ◌∙◌, ap, refl, Bool, true, false, ◌||◌, not,
  if◌then◌else◌, Option, some, List, [],
}
use olsrd.Common.Netaddr.{Family, inet, inet6}
use olsrd.Olsrv2.Originator.{Originators}
use olsrd.Olsrv2.Routing.{LocalNode, RoutingNeighbor}
use olsrd.Olsrv2.Dijkstra.{Topology, Run, Flags}
use olsrd.Olsrv2.Search.{run_dijkstra}
use olsrd.Olsrv2.Search.Loop.{IsTopology}
use olsrd.Olsrv2.Search.Start.{AreNeighbors, Finished, run_finishes}
use olsrd.Olsrv2.Kernel.{RoutingDomain, RoutingFilter, prepare_routes}
use olsrd.Olsrv2.Update.{
  prepare_nodes, check_ssnode_split, NhdpNeighbor, neighbors_of, run_next, run_all, force_update,
}

run_next-Finished :
    (next : Run → Option Run) (result : Option Run)
    → Finished result
    → ((r : Run) → r.working ≡ [] → Finished (next r))
    → Finished (run_next next result)
unfolding run_next
run_next-Finished next result done step =
    let rest = step done.after done.empty_tree in
    record {
      after = rest.after;
      returns = ap (run_next next) done.returns ∙ rest.returns;
      empty_tree = rest.empty_tree;
    }

if-Finished :
    (test : Bool) (a b : Option Run) → Finished a → Finished b → Finished (if test then a else b)
if-Finished true a b p q = p
if-Finished false a b p q = q

prepare_nodes-Finished :
    (originators : Originators) (topology : Topology) (run : Run)
    → run.working ≡ []
    → Finished (some (prepare_nodes originators topology run))
unfolding prepare_nodes
prepare_nodes-Finished originators topology run empty = record {
  after = prepare_nodes originators topology run;
  returns = refl;
  empty_tree = empty;
}

module _ (self : LocalNode) (originators : Originators) (topology : Topology) (n most fuel : ℕ)
    (well_formed : (flags : Flags) → IsTopology topology flags n most)
    (no_overflow : (n + 1) * most < 2 ^ 32) (enough : n ≤ fuel) where
  run_all-Finished :
      (neighbors : List RoutingNeighbor)
      → ((family : Family) (flags : Flags) → AreNeighbors topology family flags neighbors n most)
      → (run : Run) → run.working ≡ []
      → Finished (run_all fuel self originators topology neighbors run)
  unfolding run_all prepare_nodes
  run_all-Finished neighbors near run empty =
      let one : (family : Family) (flags : Flags) (r : Run)
          → r.working ≡ []
          → Finished (run_dijkstra fuel self topology family flags neighbors r) =
        λ family flags r e.
          run_finishes self topology family flags neighbors n most (well_formed flags)
            (near family flags) no_overflow r e fuel enough in
      let splitv4 = check_ssnode_split topology inet in
      let splitv6 = check_ssnode_split topology inet6 in
      let only_ss : Flags = record { use_non_ss = false; use_ss = true } in
      let first =
        run_next-Finished _ _
          (one inet (record { use_non_ss = true; use_ss = not splitv4 })
            (prepare_nodes originators topology run) empty)
          (one inet6 (record { use_non_ss = true; use_ss = not splitv6 })) in
      let prepared =
        if-Finished (splitv4 || splitv6) _ _
          (run_next-Finished _ _ first (prepare_nodes-Finished originators topology)) first in
      let second =
        if-Finished splitv4 _ _ (run_next-Finished _ _ prepared (one inet only_ss)) prepared in
      if-Finished splitv6 _ _ (run_next-Finished _ _ second (one inet6 only_ss)) second

  -- For a topology of targets below n whose links cost at most `most`, whatever the kind of the run, with
  -- neighbours among them, without overflow of 32 bits, and from an empty working tree: an update of
  -- the routes with fuel for each target returns.
  pub force_update_returns :
      (neighbors : List NhdpNeighbor)
      → ((family : Family) (flags : Flags)
          → AreNeighbors topology family flags (neighbors_of neighbors) n most)
      → (domain : RoutingDomain) (filters : List RoutingFilter) (run : Run) → run.working ≡ []
      → is_some (force_update fuel self originators topology neighbors domain filters run) ≡ true
  unfolding force_update
  force_update_returns neighbors near domain filters run empty =
      let done =
        run_all-Finished (neighbors_of neighbors) near
          (record run { routes = prepare_routes run.routes }) empty in
      rw (done.returns, force_update) refl
