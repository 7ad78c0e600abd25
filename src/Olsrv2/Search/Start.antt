-- ===== src/Olsrv2/Search/Start.antt =====
-- A whole run: `_add_one_hop_nodes` and the loop of `_run_dijkstra`.
use native.Mathlib.Nat.{mul-le-mul_right}
use olsrd.Base.{
  is_some, All-map, All-split, In-All, All-In, ℕ, ◌+◌, ◌*◌, ◌^◌, ◌≡◌, ◌<◌, ◌≤◌, ◌∙◌, sym, ap, refl,
  subst, Bool, true, false, not, ◌&&◌, ◌||◌, leb, if◌then◌else◌, List, [], ◌∷◌, All, Option, none,
  some, arith, Bool-cases, inl, inr, ◌⊎◌,
}
use olsrd.Common.Tree.{find}
use olsrd.Common.Netaddr.{Family, netaddr_key, same_family}
use olsrd.Olsrv2.Routing.{metric_max, LocalNode, RoutingNeighbor}
use olsrd.Olsrv2.Dijkstra.{
  Topology, source_specific, Run, Flags, Hop, is_queued, insert_into_working_tree,
}
use olsrd.Olsrv2.Dijkstra.Relax.{known, Reached, IsWorking}
use olsrd.Olsrv2.Search.{add_one_hop_node, add_one_hop_nodes, run_dijkstra}
use olsrd.Olsrv2.Search.Graph.{links, is_single, Route, direct, neighbor_out, neighbors_out}
use olsrd.Olsrv2.Search.Follow.{
  IsLink, IsFollowed, nothing-IsFollowed, both-IsFollowed, insert-IsFollowed, guarded-IsFollowed,
}
use olsrd.Olsrv2.Search.Round.{undone, undone-le}
use olsrd.Olsrv2.Search.Loop.{IsTopology, blocked_by, IsSearch}
use olsrd.Olsrv2.Search.Shortest.{Ends, loop_ends, below_paths}

zero_plus : (x : ℕ) → x ≡ 0 + x
zero_plus x = omega arith

abbrev first_hop_of : LocalNode → Family → RoutingNeighbor → Hop
first_hop_of self family neigh = record {
  neigh = some neigh;
  path_cost = 0;
  path_hops = 0;
  last_originator = self.originator_get family;
}

-- The tests of a neighbour.
abbrev takes : Topology → Flags → RoutingNeighbor → ℕ → Bool
takes topology flags neigh i =
    (flags.use_non_ss || (source_specific (topology.target i).kind && flags.use_ss))
    && leb neigh.metric_in metric_max
    && leb neigh.metric_out metric_max

add_one_hop_node_test :
    (self : LocalNode) (topology : Topology) (family : Family) (flags : Flags)
    (neigh : RoutingNeighbor) (i : ℕ) (run : Run)
    → add_one_hop_node self topology family flags neigh i run ≡ (
        if takes topology flags neigh i
        then insert_into_working_tree i (first_hop_of self family neigh) neigh.metric_out 0 true run
        else run)
unfolding add_one_hop_node
add_one_hop_node_test self topology family flags neigh i run = ground arith

module _ (n : ℕ) (stopped blocked : ℕ → Bool) (P : ℕ → ℕ → Type 0) (ceiling : ℕ)
    (small : ceiling < 2 ^ 32) (self : LocalNode) (topology : Topology) (family : Family)
    (flags : Flags) where
  found-IsFollowed :
      (neigh : RoutingNeighbor) (found : Option ℕ) (run : Run)
      → IsWorking n stopped blocked P 0 ceiling run
      → (out : List (ℕ × ℕ))
      → out ≡ elim found [
        | none ↦ []
        | some i ↦ if takes topology flags neigh i then (i, neigh.metric_out) ∷ [] else []
      ]
      → All (IsLink n stopped blocked P 0 ceiling small 0) out
      → IsFollowed n stopped blocked P 0 ceiling small 0 out run (elim found [
        | none ↦ run
        | some i ↦ add_one_hop_node self topology family flags neigh i run
      ])
  found-IsFollowed neigh none run valid out same good =
      subst (λ o. IsFollowed n stopped blocked P 0 ceiling small 0 o run run) (sym same)
        (nothing-IsFollowed n stopped blocked P 0 ceiling small 0 run valid)
  found-IsFollowed neigh (some i) run valid out same good =
      let links_good = subst (All (IsLink n stopped blocked P 0 ceiling small 0)) same good in
      subst
        (λ o.
          IsFollowed n stopped blocked P 0 ceiling small 0 o run
            (add_one_hop_node self topology family flags neigh i run))
        (sym same)
        (rw (add_one_hop_node_test self topology family flags neigh i run) (
          guarded-IsFollowed n stopped blocked P 0 ceiling small (takes topology flags neigh i) i 0
            neigh.metric_out run
            (insert_into_working_tree i (first_hop_of self family neigh) neigh.metric_out 0 true
              run)
            valid
            (λ test link.
              insert-IsFollowed n stopped blocked P 0 ceiling small i
                (first_hop_of self family neigh) neigh.metric_out 0 true run (omega arith)
                (ground arith) valid link)
            links_good))

  abbrev step_found : RoutingNeighbor → Run → Run
  step_found neigh run = elim (find neigh.originator topology.nodes) [
    | none ↦ run
    | some i ↦ add_one_hop_node self topology family flags neigh i run
  ]

  -- What `_add_one_hop_nodes` does with one neighbour.
  abbrev step : RoutingNeighbor → Run → Run
  step neigh run =
      if not (same_family neigh.originator.family family) || not neigh.is_symmetric
      then run
      else step_found neigh run

  step-IsFollowed :
      (neigh : RoutingNeighbor) (run : Run)
      → IsWorking n stopped blocked P 0 ceiling run
      → All
          (IsLink n stopped blocked P 0 ceiling small 0)
          (neighbor_out topology family flags neigh)
      → IsFollowed n stopped blocked P 0 ceiling small 0
          (neighbor_out topology family flags neigh)
          run
          (step neigh run)
  step-IsFollowed neigh run valid good =
      elim (Bool-cases (same_family neigh.originator.family family && neigh.is_symmetric)) [
        | inl h ↦
            let taken : not (same_family neigh.originator.family family) || not neigh.is_symmetric
                ≡ false =
              ground arith in
            rw taken (
              found-IsFollowed neigh (find neigh.originator topology.nodes) run valid
                (neighbor_out topology family flags neigh) (rw h refl) good)
        | inr h ↦
            let left : not (same_family neigh.originator.family family) || not neigh.is_symmetric
                ≡ true =
              ground arith in
            rw (left, h) (nothing-IsFollowed n stopped blocked P 0 ceiling small 0 run valid)
      ]

  pub add_one_hop_nodes-IsFollowed :
      (neighbors : List RoutingNeighbor) (run : Run)
      → IsWorking n stopped blocked P 0 ceiling run
      → All
          (IsLink n stopped blocked P 0 ceiling small 0)
          (neighbors_out topology family flags neighbors)
      → IsFollowed n stopped blocked P 0 ceiling small 0
          (neighbors_out topology family flags neighbors)
          run
          (add_one_hop_nodes self topology family flags neighbors run)
  unfolding add_one_hop_nodes
  add_one_hop_nodes-IsFollowed [] run valid good =
      nothing-IsFollowed n stopped blocked P 0 ceiling small 0 run valid
  add_one_hop_nodes-IsFollowed (neigh ∷ rest) run valid good =
      let (first, more) =
        All-split (IsLink n stopped blocked P 0 ceiling small 0)
          (neighbor_out topology family flags neigh) (neighbors_out topology family flags rest)
          good in
      let one = step-IsFollowed neigh run valid first in
      both-IsFollowed n stopped blocked P 0 ceiling small 0
        (neighbor_out topology family flags neigh) (neighbors_out topology family flags rest) run
        (step neigh run) (add_one_hop_nodes self topology family flags rest (step neigh run)) one
        (add_one_hop_nodes-IsFollowed rest (step neigh run) one.working more)

-- The run came to its end, and the working tree is empty.
pub record Finished (result : Option Run) : Type 0 where
  pub after : Run
  pub returns : result ≡ some after
  pub empty_tree : after.working ≡ []

-- The run came to its end with a target that is done at a cost or below.
abbrev pub settles : ℕ → ℕ → Option Run → Bool
settles j c none = false
settles j c (some after) = (after.node j).done && leb (after.node j).path_cost c

-- The cost at which the run has done a target.
abbrev pub cost_at : ℕ → Option Run → Option ℕ
cost_at j none = none
cost_at j (some after) = if (after.node j).done then some (after.node j).path_cost else none

-- The targets that a run may not insert: those that are local or done.
abbrev pub stopped_in : Run → ℕ → Bool
stopped_in run i = (run.node i).local || (run.node i).done

-- The paths of a run, from the neighbours through the topology.
abbrev pub RunRoute : Topology → Family → Flags → List RoutingNeighbor → Run → ℕ → ℕ → Type 0
RunRoute topology family flags neighbors run =
    Route (neighbors_out topology family flags neighbors) (links topology flags)
      (blocked_by topology (stopped_in run))

-- Neighbours that are nodes below `n` and cost at most `most`.
abbrev pub AreNeighbors : Topology → Family → Flags → List RoutingNeighbor → ℕ → ℕ → Type 0
AreNeighbors topology family flags neighbors n most =
    All (λ e. (e.0 < n) × (e.1 ≤ most) × (is_single (topology.target e.0).kind ≡ false))
      (neighbors_out topology family flags neighbors)

module _ (self : LocalNode) (topology : Topology) (family : Family) (flags : Flags)
    (neighbors : List RoutingNeighbor) (n most : ℕ) (well_formed : IsTopology topology flags n most)
    (near : AreNeighbors topology family flags neighbors n most)
    (no_overflow : (n + 1) * most < 2 ^ 32) (run : Run) (empty : run.working ≡ []) where
  abbrev sources : List (ℕ × ℕ)
  sources = neighbors_out topology family flags neighbors

  abbrev blocked : ℕ → Bool
  blocked = blocked_by topology (stopped_in run)

  not_done : (i : ℕ) → blocked i ≡ false → (run.node i).done ≡ false
  not_done i free = ground arith

  start_known : (i : ℕ) → known i run ≡ (run.node i).done
  unfolding is_queued
  start_known i = rw empty (ground arith)

  start-IsWorking :
      (ceiling : ℕ)
      → IsWorking n
          (stopped_in run)
          blocked
          (RunRoute topology family flags neighbors run)
          0
          ceiling
          run
  start-IsWorking ceiling = record {
    queue = rw empty tt;
    entries = rw empty tt;
    finished = λ i free done. absurd (let u = not_done i free in ground arith);
    paths = λ i free k. absurd (let u = not_done i free in let s = start_known i in ground arith);
    not_local = λ i free. ground arith;
    still = λ i halt. halt;
  }

  small : (0 + 1) * most < 2 ^ 32
  small =
      let bound : (0 + 1) * most ≤ (n + 1) * most = mul-le-mul_right most (omega arith) in
      omega arith

  near-IsLink :
      All
        (IsLink n
          (stopped_in run)
          blocked
          (RunRoute topology family flags neighbors run)
          0
          ((0 + 1) * most)
          small
          0)
        sources
  near-IsLink = In-All sources (λ e link.
      let (named, cheap, many) =
        All-In (λ e. (e.0 < n) × (e.1 ≤ most) × (is_single (topology.target e.0).kind ≡ false)) near
          link in
      (
        named,
        omega arith,
        elim (Bool-cases (stopped_in run e.0)) [
          | inl halt ↦ inl halt
          | inr free ↦
              let open_ : blocked e.0 ≡ false = ground arith in
              inr (
                open_,
                subst (RunRoute topology family flags neighbors run e.0) (zero_plus e.1)
                    (direct link open_),
              )
        ],
      ))

  abbrev begun : Run
  begun = add_one_hop_nodes self topology family flags neighbors run

  begun-IsFollowed :
      IsFollowed n
        (stopped_in run)
        blocked
        (RunRoute topology family flags neighbors run)
        0
        ((0 + 1) * most)
        small
        0
        sources
        run
        begun
  begun-IsFollowed =
      add_one_hop_nodes-IsFollowed n (stopped_in run) blocked
        (RunRoute topology family flags neighbors run) ((0 + 1) * most) small self topology family
        flags neighbors run (start-IsWorking ((0 + 1) * most)) near-IsLink

  begun-IsSearch :
      IsSearch self topology flags n most well_formed no_overflow sources (stopped_in run) 0 0 begun
  begun-IsSearch = record {
    working = begun-IsFollowed.working;
    relaxed = λ i free done. absurd (
        let u = not_done i free in let s = begun-IsFollowed.keeps.no_others i free in ground arith);
    started =
        All-map
          (λ e r.
            subst (λ x. (stopped_in run e.0 ≡ true) ⊎ Reached e.0 x begun) (sym (zero_plus e.1)) r)
          sources begun-IsFollowed.reaches;
    rounds = let u = undone-le n begun in omega arith;
  }

  ended :
      (fuel : ℕ)
      → n ≤ fuel
      → Ends self topology flags n most well_formed no_overflow sources (stopped_in run) fuel begun
  ended fuel enough =
      loop_ends self topology flags n most well_formed no_overflow sources (stopped_in run) fuel 0 0
        begun begun-IsSearch (omega arith)

  pub run_finishes :
      (fuel : ℕ) → n ≤ fuel → Finished (run_dijkstra fuel self topology family flags neighbors run)
  unfolding run_dijkstra
  run_finishes fuel enough = record {
    after = (ended fuel enough).after;
    returns = (ended fuel enough).returns;
    empty_tree = (ended fuel enough).empty_tree;
  }

  -- For a topology of targets below n with link costs up to `most`, neighbours among them, without
  -- overflow of 32 bits, and from an empty working tree: a run with fuel for each
  -- target returns.
  pub run_ends :
      (fuel : ℕ)
      → n ≤ fuel
      → is_some (run_dijkstra fuel self topology family flags neighbors run) ≡ true
  unfolding run_dijkstra
  run_ends fuel enough = rw (ended fuel enough).returns refl

  -- For a topology of targets below n with link costs up to `most`, neighbours among them, without
  -- overflow of 32 bits, and from an empty working tree: a run with fuel for each
  -- target ends, and the target at the end of each path through targets that were neither local nor
  -- done, nor endpoints of one attachment, is done at the cost of the path or below.
  pub run_cheapest :
      (fuel : ℕ)
      → n ≤ fuel
      → (j c : ℕ) → RunRoute topology family flags neighbors run j c
      → settles j c (run_dijkstra fuel self topology family flags neighbors run) ≡ true
  unfolding run_dijkstra
  run_cheapest fuel enough j c path =
      let end = ended fuel enough in
      let least =
        below_paths self topology flags n most well_formed no_overflow sources (stopped_in run)
          end.rounds end.floor end.after end.valid end.empty_tree j c path in
      rw end.returns (ground arith)

  -- For a topology of targets below n with link costs up to `most`, neighbours among them, without
  -- overflow of 32 bits, and from an empty working tree: after a run with fuel
  -- for each target, a target that was neither local nor done, nor an endpoint of one attachment, and
  -- that is done is at the end of a path of exactly its cost.
  pub run_path :
      (fuel : ℕ)
      → n ≤ fuel
      → (j c : ℕ) → blocked_by topology (stopped_in run) j ≡ false
      → cost_at j (run_dijkstra fuel self topology family flags neighbors run) ≡ some c
      → RunRoute topology family flags neighbors run j c
  unfolding run_dijkstra
  run_path fuel enough j c free at =
      let end = ended fuel enough in
      let found : cost_at j (some end.after) ≡ some c = ap (cost_at j) (sym end.returns) ∙ at in
      elim (Bool-cases (end.after.node j).done) [
        | inl done ↦
            let cost : (end.after.node j).path_cost ≡ c = ground arith in
            subst (RunRoute topology family flags neighbors run j) cost
              (end.valid.working.paths j free (ground arith))
        | inr undone ↦ absurd (ground arith)
      ]
