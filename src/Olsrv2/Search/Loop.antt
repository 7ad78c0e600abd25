-- ===== src/Olsrv2/Search/Loop.antt =====
-- The loop of `_run_dijkstra`: it ends, and it finds the shortest paths.
use native.Mathlib.Nat.{mul-le-mul_right}
use olsrd.Base.{
  All-map, All-In, In-All, ℕ, suc, ◌+◌, ◌*◌, ◌^◌, ◌≡◌, ◌<◌, ◌≤◌, ◌∙◌, sym, ap, refl, subst, Bool,
  true, false, ◌||◌, ◌==◌, ==_iff, ltb, if◌then◌else◌, List, ◌∷◌, All, arith, Bool-cases, inl, inr,
  ◌⊎◌,
}
use olsrd.Olsrv2.Routing.{LocalNode}
use olsrd.Olsrv2.Dijkstra.{
  TargetKind, node_target, endpoint_target, Topology, Run, Flags, Hop, attached_count,
}
use olsrd.Olsrv2.Dijkstra.Relax.{Reached, Keeps, Keeps-trans, IsEntry, IsWorking}
use olsrd.Olsrv2.Search.{set_route, follow, settle_target, handle_working_queue}
use olsrd.Olsrv2.Search.Graph.{links, is_single, Route, onward}
use olsrd.Olsrv2.Search.Follow.{IsLink, IsFollowed}
use olsrd.Olsrv2.Search.Attach.{
  EndsBlockedOf, follow-IsFollowed, rerouted-IsWorking, rerouted-Keeps, if-IsWorking, if-Keeps,
}
use olsrd.Olsrv2.Search.Round.{
  undone, undone-lt, marked, marked-IsWorking, marked-Reached, marked-grows, hop_at, head,
  head_path,
}

abbrev pub is_endpoint : TargetKind → Bool
is_endpoint (node_target ss ss_attached edges attached) = false
is_endpoint (endpoint_target count) = true

abbrev pub ToEndpoints : Topology → TargetKind → Type 0
ToEndpoints topology (node_target ss ss_attached edges attached) =
    All (λ a. is_endpoint (topology.target a.dst).kind ≡ true) attached
ToEndpoints topology (endpoint_target count) = Unit {0}

-- A topology of targets below `n` whose links cost at most `most`: attachments lead to endpoints, and
-- links to nodes or to endpoints with several attachments.
pub record IsTopology (topology : Topology) (flags : Flags) (n most : ℕ) : Type 0 where
  pub ends : (i : ℕ) → ToEndpoints topology (topology.target i).kind
  pub targets :
      (i : ℕ)
      → All
          (λ e. (e.0 < n) × (e.1 ≤ most) × (is_single (topology.target e.0).kind ≡ false))
          (links topology flags i)

-- Targets that a run cannot reach by insertions: those that are local or done at its start, and the
-- endpoints of a single attachment.
abbrev pub blocked_by : Topology → (ℕ → Bool) → ℕ → Bool
blocked_by topology stopped i = stopped i || is_single (topology.target i).kind

is_single_of :
    (kind : TargetKind)
    → is_endpoint kind ≡ true
    → ltb 1 (attached_count kind) ≡ false
    → is_single kind ≡ true
is_single_of (endpoint_target count) e alone = ground arith
is_single_of (node_target ss ss_attached edges attached) e alone = absurd (ground arith)

module _ (self : LocalNode) (topology : Topology) (flags : Flags) (n most : ℕ)
    (well_formed : IsTopology topology flags n most) (no_overflow : (n + 1) * most < 2 ^ 32)
    (sources : List (ℕ × ℕ)) (stopped : ℕ → Bool) where
  abbrev pub blocked : ℕ → Bool
  blocked = blocked_by topology stopped

  abbrev pub P : ℕ → ℕ → Type 0
  P = Route sources (links topology flags) blocked

  -- The state after `m` rounds: every link of a target that is done was followed.
  pub record IsSearch (m floor : ℕ) (run : Run) : Type 0 where
    pub working : IsWorking n stopped blocked P floor ((m + 1) * most) run
    pub relaxed :
        (i : ℕ)
        → blocked i ≡ false
        → (run.node i).done ≡ true
        → All
            (λ e. (stopped e.0 ≡ true) ⊎ Reached e.0 ((run.node i).path_cost + e.1) run)
            (links topology flags i)
    pub started : All (λ e. (stopped e.0 ≡ true) ⊎ Reached e.0 e.1 run) sources
    pub rounds : m + undone n run ≤ n

  EndsBlocked-kind :
      (kind : TargetKind)
      → ToEndpoints topology kind
      → (ceiling floor : ℕ) (small : ceiling < 2 ^ 32) (hop : Hop) (low : floor ≤ hop.path_cost)
      → EndsBlockedOf n stopped blocked P floor ceiling small self topology flags hop low kind
  EndsBlocked-kind (endpoint_target count) to ceiling floor small hop low = tt
  EndsBlocked-kind (node_target ss ss_attached edges attached) to ceiling floor small hop low =
      All-map
        (λ a p alone.
          let single = is_single_of (topology.target a.dst).kind p alone in ground arith)
        attached to

  -- What the follow-up gets from the hypotheses on the topology: links from the end of a path.
  links-IsLink :
      (i c floor ceiling : ℕ) (small : ceiling < 2 ^ 32)
      → c + most ≤ ceiling
      → P i c
      → All (IsLink n stopped blocked P floor ceiling small c) (links topology flags i)
  links-IsLink i c floor ceiling small room path = In-All (links topology flags i) (λ e link.
      let (named, cheap, many) =
        All-In (λ e. (e.0 < n) × (e.1 ≤ most) × (is_single (topology.target e.0).kind ≡ false))
          (well_formed.targets i) link in
      (
        named,
        omega arith,
        elim (Bool-cases (stopped e.0)) [
          | inl halt ↦ inl halt
          | inr free ↦
              let open_ : blocked e.0 ≡ false = ground arith in
              inr (open_, onward path link open_ refl)
        ],
      ))

  module _ (m floor : ℕ) (run : Run) (valid : IsSearch m floor run) (cost i : ℕ)
      (rest : List (ℕ × ℕ)) (first : run.working ≡ (cost, i) ∷ rest) where
    higher : (m + 1) * most ≤ (suc m + 1) * most
    higher = mul-le-mul_right most (omega arith)

    top : IsEntry n stopped blocked P floor ((m + 1) * most) run (cost, i)
    top =
        head n stopped blocked P floor ((m + 1) * most) ((suc m + 1) * most) higher cost i rest run
          first valid.working

    abbrev settled : Run
    settled =
        marked n stopped blocked P floor ((m + 1) * most) ((suc m + 1) * most) higher cost i rest
          run first valid.working

    settled-IsWorking : IsWorking n stopped blocked P cost ((suc m + 1) * most) settled
    settled-IsWorking =
        marked-IsWorking n stopped blocked P floor ((m + 1) * most) ((suc m + 1) * most) higher cost
          i rest run first valid.working

    settled_done : (settled.node i).done ≡ true
    settled_done = rw ((==_iff i i).1 refl) refl

    settled-grows : (j : ℕ) → (run.node j).done ≡ true → (settled.node j).done ≡ true
    settled-grows =
        marked-grows n stopped blocked P floor ((m + 1) * most) ((suc m + 1) * most) higher cost i
          rest run first valid.working

    settled-Reached : (j c : ℕ) → Reached j c run → Reached j c settled
    settled-Reached =
        marked-Reached n stopped blocked P floor ((m + 1) * most) ((suc m + 1) * most) higher cost i
          rest run first valid.working

    small : (suc m + 1) * most < 2 ^ 32
    small =
        let fewer = undone-lt n i run settled settled-grows top.4 top.1 settled_done in
        let bound : (suc m + 1) * most ≤ (n + 1) * most =
          mul-le-mul_right most (let r = valid.rounds in omega arith) in
        omega arith

    abbrev hop : Hop
    hop =
        hop_at n stopped blocked P floor ((m + 1) * most) ((suc m + 1) * most) higher cost i rest
          run first valid.working topology

    abbrev routed : Run
    routed =
        if flags.use_non_ss
        then set_route self (topology.target i).prefix (run.node i).first_hop (run.node i).distance
            (run.node i).path_cost (run.node i).path_hops (run.node i).single_hop
            (run.node i).last_originator settled
        else settled

    routed-IsWorking : IsWorking n stopped blocked P cost ((suc m + 1) * most) routed
    routed-IsWorking =
        if-IsWorking n stopped blocked P cost ((suc m + 1) * most) small flags.use_non_ss settled _
          settled-IsWorking
          (rerouted-IsWorking n stopped blocked P cost ((suc m + 1) * most) small self _ _ _ _ _ _ _
            _ settled-IsWorking)

    routed-Keeps : Keeps blocked settled routed
    routed-Keeps =
        if-Keeps n stopped blocked P cost ((suc m + 1) * most) small flags.use_non_ss settled _
          (rerouted-Keeps n stopped blocked P cost ((suc m + 1) * most) small self _ _ _ _ _ _ _ _)

    path_here : P i (run.node i).path_cost
    path_here =
        head_path n stopped blocked P floor ((m + 1) * most) ((suc m + 1) * most) higher cost i rest
          run first valid.working

    low : cost ≤ hop.path_cost
    low = let t = top.0 in omega arith

    room : (run.node i).path_cost + most ≤ (suc m + 1) * most
    room = let key = top.0 in let below = top.3 in omega arith

    abbrev after : Run
    after = follow self topology flags hop (topology.target i).kind routed

    followed :
        IsFollowed n stopped blocked P cost
          ((suc m + 1) * most)
          small
          (run.node i).path_cost
          (links topology flags i)
          routed
          after
    followed =
        follow-IsFollowed n stopped blocked P cost ((suc m + 1) * most) small self topology flags
          hop low (topology.target i).kind routed routed-IsWorking
          (EndsBlocked-kind (topology.target i).kind (well_formed.ends i) ((suc m + 1) * most) cost
            small hop low)
          (links-IsLink i (run.node i).path_cost cost ((suc m + 1) * most) small room path_here)

    handled : handle_working_queue self topology flags run ≡ after
    unfolding handle_working_queue settle_target
    handled = rw first refl

    kept : Keeps blocked settled after
    kept = Keeps-trans blocked settled routed after routed-Keeps followed.keeps

    -- The links of the settled target are followed, and those of the others still are.
    handled-relaxed :
        (j : ℕ)
        → blocked j ≡ false
        → (after.node j).done ≡ true
        → All
            (λ e. (stopped e.0 ≡ true) ⊎ Reached e.0 ((after.node j).path_cost + e.1) after)
            (links topology flags j)
    handled-relaxed j free done =
        let before : (settled.node j).done ≡ true = sym (kept.no_others j free) ∙ done in
        let same = kept.frozen j free before in
        elim (Bool-cases (j == i)) [
          | inl h ↦
              let at = (==_iff j i).0 h in
              let here : (settled.node j).path_cost ≡ (run.node i).path_cost = rw h refl in
              rw (same, here)
                (subst
                  (λ x.
                    All
                      (λ e. (stopped e.0 ≡ true) ⊎ Reached e.0 ((run.node i).path_cost + e.1) after)
                      (links topology flags x))
                  (sym at) followed.reaches)
          | inr h ↦
              let there_ : settled.node j ≡ run.node j = rw h refl in
              let was : (run.node j).done ≡ true = sym (ap (λ x. x.done) there_) ∙ before in
              rw (same, there_)
                (All-map
                  (λ e r. elim r [
                    | inl s ↦ inl s
                    | inr reached ↦ inr (kept.reached e.0 _ (settled-Reached e.0 _ reached))
                  ])
                  (links topology flags j) (valid.relaxed j free was))
        ]

    handled-rounds : suc m + undone n after ≤ n
    handled-rounds =
        let fewer =
          undone-lt n i run after (λ j d. kept.grows j (settled-grows j d)) top.4 top.1
            (kept.grows i settled_done) in
        let r = valid.rounds in omega arith

    after-IsSearch : IsSearch (suc m) cost after
    after-IsSearch = record {
      working = followed.working;
      relaxed = handled-relaxed;
      started =
          All-map
            (λ e r. elim r [
              | inl s ↦ inl s
              | inr reached ↦ inr (kept.reached e.0 e.1 (settled-Reached e.0 e.1 reached))
            ])
            sources valid.started;
      rounds = handled-rounds;
    }

    pub handled-IsSearch : IsSearch (suc m) cost (handle_working_queue self topology flags run)
    handled-IsSearch = subst (IsSearch (suc m) cost) (sym handled) after-IsSearch
