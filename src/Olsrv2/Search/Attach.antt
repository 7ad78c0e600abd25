-- ===== src/Olsrv2/Search/Attach.antt =====
-- What one round of the shortest path calculation does with the attachments of a node, and in all.
use olsrd.Base.{
  All-map, All-split, ℕ, ◌^◌, ◌≡◌, ◌<◌, ◌≤◌, ap, refl, Bool, true, false, ◌&&◌, ◌==◌, ==_iff, ltb,
  leb, if◌then◌else◌, List, [], ◌∷◌, All, Option, none, some, arith, Bool-cases, inl, inr,
}
use olsrd.Common.Netaddr.{Netaddr}
use olsrd.Olsrv2.Routing.{metric_max, OsRouteKey, LocalNode, RoutingNeighbor}
use olsrd.Olsrv2.Dijkstra.{
  TcAttachment, TargetKind, node_target, endpoint_target, Topology, Run, Flags, Hop, with_node,
  insert_into_working_tree, attached_count,
}
use olsrd.Olsrv2.Dijkstra.Relax.{known, Reached, Keeps, Keeps-refl, Keeps-trans, IsWorking}
use olsrd.Olsrv2.Search.{
  set_route, follow_edges, finish_endpoint, is_wanted, follow_attachment, follow_attachments,
  follow,
}
use olsrd.Olsrv2.Search.Graph.{edges_out, attachment_out, attachments_out, links_of_kind}
use olsrd.Olsrv2.Search.Follow.{
  IsLink, IsFollowed, nothing-IsFollowed, both-IsFollowed, insert-IsFollowed, guarded-IsFollowed,
  follow_edges-IsFollowed,
}

follow_attachment_test :
    (self : LocalNode) (topology : Topology) (flags : Flags) (hop : Hop) (attachment : TcAttachment)
    (run : Run)
    → (ltb 1 (attached_count (topology.target attachment.dst).kind) ≡ true)
    → follow_attachment self topology flags hop attachment run ≡ (
        if leb attachment.cost metric_max
          && is_wanted flags (topology.target attachment.dst)
          && ltb 1 (attached_count (topology.target attachment.dst).kind)
        then insert_into_working_tree attachment.dst hop attachment.cost attachment.distance false
            run
        else run)
unfolding follow_attachment
follow_attachment_test self topology flags hop attachment run several = rw several (ground arith)

follow_attachment_end :
    (self : LocalNode) (topology : Topology) (flags : Flags) (hop : Hop) (attachment : TcAttachment)
    (run : Run)
    → (ltb 1 (attached_count (topology.target attachment.dst).kind) ≡ false)
    → follow_attachment self topology flags hop attachment run ≡ (
        if leb attachment.cost metric_max && is_wanted flags (topology.target attachment.dst)
        then finish_endpoint self topology hop attachment run
        else run)
unfolding follow_attachment
follow_attachment_end self topology flags hop attachment run alone = rw alone (ground arith)

no_attachment_out :
    (topology : Topology) (flags : Flags) (attachment : TcAttachment)
    → (ltb 1 (attached_count (topology.target attachment.dst).kind) ≡ false)
    → attachment_out topology flags attachment ≡ []
no_attachment_out topology flags attachment alone = rw alone (ground arith)

module _ (n : ℕ) (stopped blocked : ℕ → Bool) (P : ℕ → ℕ → Type 0) (floor ceiling : ℕ)
    (small : ceiling < 2 ^ 32) where
  abbrev Working : Run → Type 0
  Working run = IsWorking n stopped blocked P floor ceiling run

  -- Neither the routes nor the end of a blocked target matter.
  pub rerouted-IsWorking :
      (self : LocalNode) (prefix : OsRouteKey) (neigh : Option RoutingNeighbor)
      (distance path_cost path_hops : ℕ) (single_hop : Bool) (last_originator : Netaddr) (run : Run)
      → Working run
      → Working
          (set_route self prefix neigh distance path_cost path_hops single_hop last_originator run)
  unfolding set_route
  rerouted-IsWorking self prefix none distance path_cost path_hops single_hop last run valid = valid
  rerouted-IsWorking self prefix (some hop) distance path_cost path_hops single_hop last run valid =
      record {
        queue = valid.queue;
        entries = valid.entries;
        finished = valid.finished;
        paths = valid.paths;
        not_local = valid.not_local;
        still = valid.still;
      }

  pub rerouted-Keeps :
      (self : LocalNode) (prefix : OsRouteKey) (neigh : Option RoutingNeighbor)
      (distance path_cost path_hops : ℕ) (single_hop : Bool) (last_originator : Netaddr) (run : Run)
      → Keeps blocked run
          (set_route self prefix neigh distance path_cost path_hops single_hop last_originator run)
  unfolding set_route
  rerouted-Keeps self prefix none distance path_cost path_hops single_hop last run =
      Keeps-refl blocked run
  rerouted-Keeps self prefix (some hop) distance path_cost path_hops single_hop last run = record {
    reached = λ i c h. h;
    grows = λ i h. h;
    no_others = λ i f. refl;
    frozen = λ i f h. refl;
  }

  module _ (i : ℕ) (run : Run) (out_of_reach : blocked i ≡ true) where
    abbrev ended : Run
    ended = with_node i (record (run.node i) { done = true }) run

    ended-IsWorking : Working run → Working ended
    ended-IsWorking valid = record {
      queue = valid.queue;
      entries = All-map (λ e p. grind arith) run.working valid.entries;
      finished = λ j f d. elim (Bool-cases (j == i)) [
        | inl h ↦ absurd (grind arith)
        | inr h ↦ let old = valid.finished j f in ground arith
      ];
      paths = λ j f d. elim (Bool-cases (j == i)) [
        | inl h ↦ absurd (grind arith)
        | inr h ↦ rw h (valid.paths j f (let e : known j run ≡ true = rw h at d in e))
      ];
      not_local = λ j f. elim (Bool-cases (j == i)) [
        | inl h ↦ absurd (grind arith)
        | inr h ↦ rw h (valid.not_local j f)
      ];
      still = λ j s. elim (Bool-cases (j == i)) [
        | inl h ↦ rw h (ground arith)
        | inr h ↦ rw h (valid.still j s)
      ];
    }

    ended-Reached : (j c : ℕ) → Reached j c run → Reached j c ended
    ended-Reached j c old = elim (Bool-cases (j == i)) [
      | inl h ↦ let at = (==_iff j i).0 h in let e = ap run.node at in grind arith
      | inr h ↦ rw h old
    ]

    ended-Keeps : Keeps blocked run ended
    ended-Keeps = record {
      reached = ended-Reached;
      grows = λ j d. elim (Bool-cases (j == i)) [ inl h ↦ rw h refl | inr h ↦ rw h d ];
      no_others =
          λ j f. elim (Bool-cases (j == i)) [ inl h ↦ absurd (grind arith) | inr h ↦ rw h refl ];
      frozen =
          λ j f d. elim (Bool-cases (j == i)) [ inl h ↦ absurd (grind arith) | inr h ↦ rw h refl ];
    }

  pub if-IsWorking :
      (test : Bool) (before after : Run)
      → Working before
      → Working after
      → Working (if test then after else before)
  if-IsWorking true before after valid next = next
  if-IsWorking false before after valid next = valid

  pub if-Keeps :
      (test : Bool) (before after : Run)
      → Keeps blocked before after
      → Keeps blocked before (if test then after else before)
  if-Keeps true before after keeps = keeps
  if-Keeps false before after keeps = Keeps-refl blocked before

  module _ (self : LocalNode) (topology : Topology) (flags : Flags) (hop : Hop)
      (low : floor ≤ hop.path_cost) where
    -- An endpoint that has no other attachment is blocked.
    abbrev pub EndsBlocked : TcAttachment → Type 0
    EndsBlocked attachment =
        ltb 1 (attached_count (topology.target attachment.dst).kind) ≡ false
        → blocked attachment.dst ≡ true

    finish_endpoint-IsWorking :
        (attachment : TcAttachment) (run : Run)
        → blocked attachment.dst ≡ true
        → Working run
        → Working (finish_endpoint self topology hop attachment run)
    unfolding finish_endpoint
    finish_endpoint-IsWorking attachment run out valid =
        rerouted-IsWorking self _ hop.neigh _ _ _ _ _ _
          (ended-IsWorking attachment.dst run out valid)

    finish_endpoint-Keeps :
        (attachment : TcAttachment) (run : Run)
        → blocked attachment.dst ≡ true
        → Keeps blocked run (finish_endpoint self topology hop attachment run)
    unfolding finish_endpoint
    finish_endpoint-Keeps attachment run out =
        Keeps-trans blocked run (ended attachment.dst run out) _
          (ended-Keeps attachment.dst run out)
          (rerouted-Keeps self (topology.target attachment.dst).prefix hop.neigh _ _ _ _ _ _)

    follow_attachment-IsFollowed :
        (attachment : TcAttachment) (run : Run)
        → Working run
        → EndsBlocked attachment
        → All
            (IsLink n stopped blocked P floor ceiling small hop.path_cost)
            (attachment_out topology flags attachment)
        → IsFollowed n stopped blocked P floor ceiling small hop.path_cost
            (attachment_out topology flags attachment)
            run
            (follow_attachment self topology flags hop attachment run)
    follow_attachment-IsFollowed attachment run valid ends good =
        elim (Bool-cases (ltb 1 (attached_count (topology.target attachment.dst).kind))) [
          | inl several ↦
              rw (follow_attachment_test self topology flags hop attachment run several) (
                guarded-IsFollowed n stopped blocked P floor ceiling small _ attachment.dst
                  hop.path_cost attachment.cost run
                  (insert_into_working_tree attachment.dst hop attachment.cost attachment.distance
                    false run)
                  valid
                  (λ test link.
                    insert-IsFollowed n stopped blocked P floor ceiling small attachment.dst hop
                      attachment.cost attachment.distance false run low (ground arith) valid link)
                  good)
          | inr alone ↦ rw (no_attachment_out topology flags attachment alone) (
              rw (follow_attachment_end self topology flags hop attachment run alone) (record {
                working =
                    if-IsWorking _ run _ valid
                      (finish_endpoint-IsWorking attachment run (ends alone) valid);
                keeps = if-Keeps _ run _ (finish_endpoint-Keeps attachment run (ends alone));
                reaches = tt;
              }))
        ]

    pub follow_attachments-IsFollowed :
        (attached : List TcAttachment) (run : Run)
        → Working run
        → All EndsBlocked attached
        → All
            (IsLink n stopped blocked P floor ceiling small hop.path_cost)
            (attachments_out topology flags attached)
        → IsFollowed n stopped blocked P floor ceiling small hop.path_cost
            (attachments_out topology flags attached)
            run
            (follow_attachments self topology flags hop attached run)
    unfolding follow_attachments
    follow_attachments-IsFollowed [] run valid ends good =
        nothing-IsFollowed n stopped blocked P floor ceiling small hop.path_cost run valid
    follow_attachments-IsFollowed (attachment ∷ rest) run valid ends good =
        let (first, more) =
          All-split (IsLink n stopped blocked P floor ceiling small hop.path_cost)
            (attachment_out topology flags attachment) (attachments_out topology flags rest) good in
        let one = follow_attachment-IsFollowed attachment run valid ends.0 first in
        both-IsFollowed n stopped blocked P floor ceiling small hop.path_cost
          (attachment_out topology flags attachment) (attachments_out topology flags rest) run
          (follow_attachment self topology flags hop attachment run)
          (follow_attachments self topology flags hop rest
            (follow_attachment self topology flags hop attachment run))
          one
          (follow_attachments-IsFollowed rest
            (follow_attachment self topology flags hop attachment run) one.working ends.1 more)

    -- The attachments of a node end at blocked endpoints or at such that others are attached to.
    abbrev pub EndsBlockedOf : TargetKind → Type 0
    EndsBlockedOf (node_target ss ss_attached edges attached) = All EndsBlocked attached
    EndsBlockedOf (endpoint_target count) = Unit {0}

    pub follow-IsFollowed :
        (kind : TargetKind) (run : Run)
        → Working run
        → EndsBlockedOf kind
        → All
            (IsLink n stopped blocked P floor ceiling small hop.path_cost)
            (links_of_kind topology flags kind)
        → IsFollowed n stopped blocked P floor ceiling small hop.path_cost
            (links_of_kind topology flags kind)
            run
            (follow self topology flags hop kind run)
    unfolding follow
    follow-IsFollowed (endpoint_target count) run valid ends good =
        nothing-IsFollowed n stopped blocked P floor ceiling small hop.path_cost run valid
    follow-IsFollowed (node_target ss ss_attached edges attached) run valid ends good =
        let (first, more) =
          All-split (IsLink n stopped blocked P floor ceiling small hop.path_cost)
            (edges_out flags ss edges) (attachments_out topology flags attached) good in
        let one =
          follow_edges-IsFollowed n stopped blocked P floor ceiling small flags ss hop low edges run
            valid first in
        both-IsFollowed n stopped blocked P floor ceiling small hop.path_cost
          (edges_out flags ss edges) (attachments_out topology flags attached) run
          (follow_edges flags ss hop edges run)
          (follow_attachments self topology flags hop attached
            (follow_edges flags ss hop edges run))
          one
          (follow_attachments-IsFollowed attached (follow_edges flags ss hop edges run) one.working
            ends more)
