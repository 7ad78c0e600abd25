-- ===== src/Olsrv2/Search/Follow.antt =====
-- What it does to the working state to follow the edges of a node.
use olsrd.Base.{
  All-map, All-append, All-split, ℕ, ◌+◌, ◌^◌, ◌≡◌, ◌<◌, ◌≤◌, sym, refl, subst, Bool, true, false,
  not, ◌&&◌, ◌||◌, leb, ◌⊎◌, if◌then◌else◌, List, [], ◌∷◌, ◌++◌, All, arith, inl, inr,
}
use olsrd.Olsrv2.Routing.{metric_max}
use olsrd.Olsrv2.Dijkstra.{TcEdge, Run, Flags, Hop, insert_into_working_tree}
use olsrd.Olsrv2.Dijkstra.Relax.{
  Reached, Keeps, Keeps-refl, Keeps-trans, IsWorking, insert-IsInserted,
}
use olsrd.Olsrv2.Search.{follow_edge, follow_edges, follow}
use olsrd.Olsrv2.Search.Graph.{edge_out, edges_out}

follow_edge_test :
    (flags : Flags) (ss : Bool) (hop : Hop) (edge : TcEdge) (run : Run)
    → follow_edge flags ss hop edge run ≡ (
        if not edge.is_virtual && leb edge.cost metric_max && (flags.use_non_ss || ss)
        then insert_into_working_tree edge.dst hop edge.cost 0 false run
        else run)
unfolding follow_edge
follow_edge_test flags ss hop edge run = ground arith

insert-stopped :
    (i : ℕ) (hop : Hop) (linkcost distance : ℕ) (single_hop : Bool) (run : Run)
    → (run.node i).local || (run.node i).done ≡ true
    → insert_into_working_tree i hop linkcost distance single_hop run ≡ run
unfolding insert_into_working_tree
insert-stopped i hop linkcost distance single_hop run halt = ground arith

module _ (n : ℕ) (stopped blocked : ℕ → Bool) (P : ℕ → ℕ → Type 0) (floor ceiling : ℕ)
    (small : ceiling < 2 ^ 32) where
  abbrev Working : Run → Type 0
  Working run = IsWorking n stopped blocked P floor ceiling run

  -- A link behind a path of cost `c`: its target is stopped or a path to it has the cost of both.
  abbrev pub IsLink : ℕ → ℕ × ℕ → Type 0
  IsLink c e =
      (e.0 < n)
      × (c + e.1 ≤ ceiling)
      × ((stopped e.0 ≡ true) ⊎ (blocked e.0 ≡ false) × P e.0 (c + e.1))

  -- The links were followed.
  pub record IsFollowed (c : ℕ) (out : List (ℕ × ℕ)) (before after : Run) : Type 0 where
    pub working : Working after
    pub keeps : Keeps blocked before after
    pub reaches : All (λ e. (stopped e.0 ≡ true) ⊎ Reached e.0 (c + e.1) after) out

  pub nothing-IsFollowed : (c : ℕ) (run : Run) → Working run → IsFollowed c [] run run
  nothing-IsFollowed c run valid = record {
    working = valid;
    keeps = Keeps-refl blocked run;
    reaches = tt;
  }

  pub both-IsFollowed :
      (c : ℕ) (xs ys : List (ℕ × ℕ)) (before between after : Run)
      → IsFollowed c xs before between
      → IsFollowed c ys between after
      → IsFollowed c (xs ++ ys) before after
  both-IsFollowed c xs ys before between after p q = record {
    working = q.working;
    keeps = Keeps-trans blocked before between after p.keeps q.keeps;
    reaches =
        All-append _ xs ys
          (All-map
            (λ e r. elim r [
              | inl s ↦ inl s
              | inr reached ↦ inr (q.keeps.reached e.0 (c + e.1) reached)
            ])
            xs p.reaches)
          q.reaches;
  }

  pub insert-IsFollowed :
      (i : ℕ) (hop : Hop) (linkcost distance : ℕ) (single_hop : Bool) (run : Run)
      → floor ≤ hop.path_cost
      → linkcost ≤ metric_max
      → Working run
      → IsLink hop.path_cost (i, linkcost)
      → IsFollowed hop.path_cost
          ((i, linkcost) ∷ [])
          run
          (insert_into_working_tree i hop linkcost distance single_hop run)
  insert-IsFollowed i hop linkcost distance single_hop run low cheap valid (named, high, inl halt) =
      let same = insert-stopped i hop linkcost distance single_hop run (valid.still i halt) in
      record {
        working = subst Working (sym same) valid;
        keeps = subst (Keeps blocked run) (sym same) (Keeps-refl blocked run);
        reaches = (inl halt, tt);
      }
  insert-IsFollowed i hop linkcost distance single_hop run low cheap valid
        (named, high, inr (free, path)) =
      let done =
        insert-IsInserted n stopped blocked P floor ceiling i hop linkcost distance single_hop run
          valid low high small cheap named free path in
      record { working = done.working; keeps = done.keeps; reaches = (inr done.reaches, tt) }

  -- A link that is followed under a test.
  pub guarded-IsFollowed :
      (test : Bool) (i c linkcost : ℕ) (before after : Run)
      → Working before
      → (test ≡ true → IsLink c (i, linkcost) → IsFollowed c ((i, linkcost) ∷ []) before after)
      → All (IsLink c) (if test then (i, linkcost) ∷ [] else [])
      → IsFollowed c
          (if test then (i, linkcost) ∷ [] else [])
          before
          (if test then after else before)
  guarded-IsFollowed true i c linkcost before after valid follow good = follow refl good.0
  guarded-IsFollowed false i c linkcost before after valid follow good =
      nothing-IsFollowed c before valid

  module _ (flags : Flags) (ss : Bool) (hop : Hop) (low : floor ≤ hop.path_cost) where
    follow_edge-IsFollowed :
        (edge : TcEdge) (run : Run)
        → Working run
        → All (IsLink hop.path_cost) (edge_out flags ss edge)
        → IsFollowed hop.path_cost (edge_out flags ss edge) run (follow_edge flags ss hop edge run)
    follow_edge-IsFollowed edge run valid good = rw (follow_edge_test flags ss hop edge run) (
        guarded-IsFollowed
          (not edge.is_virtual && leb edge.cost metric_max && (flags.use_non_ss || ss)) edge.dst
          hop.path_cost edge.cost run (insert_into_working_tree edge.dst hop edge.cost 0 false run)
          valid
          (λ test link.
            insert-IsFollowed edge.dst hop edge.cost 0 false run low (ground arith) valid link)
          good)

    pub follow_edges-IsFollowed :
        (edges : List TcEdge) (run : Run)
        → Working run
        → All (IsLink hop.path_cost) (edges_out flags ss edges)
        → IsFollowed hop.path_cost
            (edges_out flags ss edges)
            run
            (follow_edges flags ss hop edges run)
    unfolding follow_edges
    follow_edges-IsFollowed [] run valid good = nothing-IsFollowed hop.path_cost run valid
    follow_edges-IsFollowed (edge ∷ edges) run valid good =
        let (first, rest) =
          All-split (IsLink hop.path_cost) (edge_out flags ss edge) (edges_out flags ss edges)
            good in
        let one = follow_edge-IsFollowed edge run valid first in
        both-IsFollowed hop.path_cost (edge_out flags ss edge) (edges_out flags ss edges) run
          (follow_edge flags ss hop edge run)
          (follow_edges flags ss hop edges (follow_edge flags ss hop edge run)) one
          (follow_edges-IsFollowed edges (follow_edge flags ss hop edge run) one.working rest)
