-- ===== src/Olsrv2/Dijkstra/Relax.antt =====
-- What an insertion into the working tree keeps, and what it gives.
use olsrd.Base.{
  All-map, ℕ, ◌+◌, ◌%◌, ◌^◌, ◌≡◌, ◌∙◌, sym, ap, refl, subst, ◌≤◌, ◌<◌, Bool, true, false, ◌&&◌,
  ◌||◌, ◌==◌, ==_iff, ltb, leb, All, arith, Bool-cases, inl, inr,
}
use olsrd.Olsrv2.Routing.{metric_max}
use olsrd.Olsrv2.Dijkstra.{
  Run, Hop, with_node, enqueue, dequeue, is_queued, insert_path, insert_into_working_tree,
}
use olsrd.Olsrv2.Dijkstra.Queue.{
  IsQueue, All-enqueue, All-dequeue, is_queued-enqueue, is_queued-dequeue, enqueue-IsQueue,
  dequeue-IsQueue,
}

-- The target has been reached: it is done, or waits in the working tree.
abbrev pub known : ℕ → Run → Bool
known i run = (run.node i).done || is_queued i run.working

-- It has been reached at this cost or below.
abbrev pub Reached : ℕ → ℕ → Run → Type 0
Reached i c run = (known i run ≡ true) × ((run.node i).path_cost ≤ c)

-- Nothing that was reached is lost or gets more expensive, what is done stays so, and of the targets
-- that are not blocked no other is done, and the path of those that are done stays.
pub record Keeps (blocked : ℕ → Bool) (before after : Run) : Type 0 where
  pub reached : (i c : ℕ) → Reached i c before → Reached i c after
  pub grows : (i : ℕ) → (before.node i).done ≡ true → (after.node i).done ≡ true
  pub no_others : (i : ℕ) → blocked i ≡ false → (after.node i).done ≡ (before.node i).done
  pub frozen :
      (i : ℕ)
      → blocked i ≡ false
      → (before.node i).done ≡ true
      → (after.node i).path_cost ≡ (before.node i).path_cost

pub Keeps-refl : (blocked : ℕ → Bool) (run : Run) → Keeps blocked run run
Keeps-refl blocked run = record {
  reached = λ i c h. h;
  grows = λ i h. h;
  no_others = λ i f. refl;
  frozen = λ i f h. refl;
}

pub Keeps-trans :
    (blocked : ℕ → Bool) (a b c : Run) → Keeps blocked a b → Keeps blocked b c → Keeps blocked a c
Keeps-trans blocked a b c p q = record {
  reached = λ i x h. q.reached i x (p.reached i x h);
  grows = λ i h. q.grows i (p.grows i h);
  no_others = λ i f. q.no_others i f ∙ p.no_others i f;
  frozen = λ i f h. q.frozen i f (p.grows i h) ∙ p.frozen i f h;
}

-- The targets below `n` take part but for the blocked ones: these are stopped, for they are local or
-- were done before the run, or they are endpoints of one attachment alone. `P i c` says that a path to
-- `i` costs `c`.
module _ (n : ℕ) (stopped blocked : ℕ → Bool) (P : ℕ → ℕ → Type 0) where
  -- An element of the working tree: its key is its path cost, between `floor` and `ceiling`.
  abbrev pub IsEntry : ℕ → ℕ → Run → ℕ × ℕ → Type 0
  IsEntry floor ceiling run e =
      (e.0 ≡ (run.node e.1).path_cost)
      × ((run.node e.1).done ≡ false)
      × (floor ≤ e.0)
      × (e.0 ≤ ceiling)
      × (e.1 < n)
      × (blocked e.1 ≡ false)

  -- The targets that are done cost at most `floor`, those that wait cost at least as much, and all of
  -- them are at the end of a path of their cost.
  pub record IsWorking (floor ceiling : ℕ) (run : Run) : Type 0 where
    pub queue : IsQueue run.working
    pub entries : All (IsEntry floor ceiling run) run.working
    pub finished :
        (i : ℕ) → blocked i ≡ false → (run.node i).done ≡ true → (run.node i).path_cost ≤ floor
    pub paths : (i : ℕ) → blocked i ≡ false → known i run ≡ true → P i (run.node i).path_cost
    pub not_local : (i : ℕ) → blocked i ≡ false → (run.node i).local ≡ false
    pub still : (i : ℕ) → stopped i ≡ true → (run.node i).local || (run.node i).done ≡ true

  -- What an insertion of target `i` at a cost does.
  pub record IsInserted (floor ceiling i cost : ℕ) (before after : Run) : Type 0 where
    pub working : IsWorking floor ceiling after
    pub keeps : Keeps blocked before after
    pub reaches : Reached i cost after

  module _ (floor ceiling : ℕ) (i : ℕ) (hop : Hop) (cost distance : ℕ) (single_hop : Bool)
      (run : Run) (valid : IsWorking floor ceiling run) (low : floor ≤ cost) (high : cost ≤ ceiling)
      (named : i < n) (free : blocked i ≡ false) (undone : (run.node i).done ≡ false)
      (path : P i cost) where
    abbrev better : Run
    better =
        record (with_node i
          (record (run.node i) {
            path_cost = cost;
            path_hops = (hop.path_hops + 1) % 2 ^ 8;
            first_hop = hop.neigh;
            distance = distance;
            single_hop = single_hop;
            last_originator = hop.last_originator;
          })
          run) { working = enqueue cost i (dequeue i run.working) }

    same_node : (j : ℕ) → j == i ≡ false → better.node j ≡ run.node j
    same_node j h = rw h

    same_known : (j : ℕ) → j == i ≡ false → known j better ≡ known j run
    same_known j h = ground (
      arith,
      is_queued-enqueue j i cost (dequeue i run.working),
      is_queued-dequeue j i run.working,
    )

    self : i == i ≡ true
    self = (==_iff i i).1 refl

    better-IsWorking : IsWorking floor ceiling better
    better-IsWorking = record {
      queue =
          enqueue-IsQueue cost i (dequeue i run.working) (dequeue-IsQueue i run.working valid.queue)
            (ground (arith, is_queued-dequeue i i run.working));
      entries =
          All-enqueue (IsEntry floor ceiling better) cost i (dequeue i run.working) (ground arith) (
            All-map (λ e p. ground arith) (dequeue i run.working)
              (All-dequeue (IsEntry floor ceiling run) i run.working valid.entries));
      finished = λ j f d. elim (Bool-cases (j == i)) [
        | inl h ↦ absurd (ground arith)
        | inr h ↦ let old = valid.finished j f in ground arith
      ];
      paths = λ j f d. elim (Bool-cases (j == i)) [
        | inl h ↦ rw h (subst (λ x. P x cost) (sym ((==_iff j i).0 h)) path)
        | inr h ↦ rw h (valid.paths j f (sym (same_known j h) ∙ d))
      ];
      not_local = λ j f. elim (Bool-cases (j == i)) [
        | inl h ↦ rw h (valid.not_local i free)
        | inr h ↦ rw h (valid.not_local j f)
      ];
      still = λ j s. elim (Bool-cases (j == i)) [
        | inl h ↦ rw h (
            ap (λ x. (run.node x).local || (run.node x).done) (sym ((==_iff j i).0 h))
            ∙ valid.still j s)
        | inr h ↦ rw h (valid.still j s)
      ];
    }

    better-Reached :
        is_queued i run.working && leb (run.node i).path_cost cost ≡ false
        → (j c : ℕ) → Reached j c run
        → Reached j c better
    better-Reached h j c old = elim (Bool-cases (j == i)) [
      | inl e ↦
          let at = (==_iff j i).0 e in
          let before = subst (λ x. Reached x c run) at old in
          subst (λ x. Reached x c better) (sym at)
            (ground (arith, self, is_queued-enqueue i i cost (dequeue i run.working)))
      | inr e ↦ (same_known j e ∙ old.0, rw e old.1)
    ]

    better-Keeps :
        is_queued i run.working && leb (run.node i).path_cost cost ≡ false
        → Keeps blocked run better
    better-Keeps h = record {
      reached = better-Reached h;
      grows = λ j d. elim (Bool-cases (j == i)) [
        | inl e ↦
            absurd (grind (arith, (==_iff j i).0 e, ap (λ x. (run.node x).done) ((==_iff j i).0 e)))
        | inr e ↦ rw e d
      ];
      no_others = λ j f. elim (Bool-cases (j == i)) [
        | inl e ↦ rw e (ap (λ x. (run.node x).done) (sym ((==_iff j i).0 e)))
        | inr e ↦ rw e refl
      ];
      frozen = λ j f d. elim (Bool-cases (j == i)) [
        | inl e ↦
            absurd (grind (arith, (==_iff j i).0 e, ap (λ x. (run.node x).done) ((==_iff j i).0 e)))
        | inr e ↦ rw e refl
      ];
    }

    insert_path-IsInserted :
        IsInserted floor ceiling i cost run (insert_path i hop cost distance single_hop run)
    unfolding insert_path
    insert_path-IsInserted =
        elim (Bool-cases (is_queued i run.working && leb (run.node i).path_cost cost)) [
          | inl h ↦
              rw h
                (record { working = valid; keeps = Keeps-refl blocked run; reaches = ground arith })
          | inr h ↦ rw h (record {
            working = better-IsWorking;
            keeps = better-Keeps h;
            reaches = ground (arith, self, is_queued-enqueue i i cost (dequeue i run.working));
          })
        ]

-- An insertion of a link of cost `linkcost` behind a path, without wrap-around: the target is reached.
pub insert-IsInserted :
    (n : ℕ) (stopped blocked : ℕ → Bool) (P : ℕ → ℕ → Type 0) (floor ceiling : ℕ) (i : ℕ)
    (hop : Hop) (linkcost distance : ℕ) (single_hop : Bool) (run : Run)
    → IsWorking n stopped blocked P floor ceiling run
    → floor ≤ hop.path_cost
    → hop.path_cost + linkcost ≤ ceiling
    → ceiling < 2 ^ 32
    → linkcost ≤ metric_max
    → i < n
    → blocked i ≡ false
    → P i (hop.path_cost + linkcost)
    → IsInserted n stopped blocked P floor ceiling i
        (hop.path_cost + linkcost)
        run
        (insert_into_working_tree i hop linkcost distance single_hop run)
unfolding insert_into_working_tree
insert-IsInserted n stopped blocked P floor ceiling i hop linkcost distance single_hop run valid low
      high small cheap named free path =
    let local = valid.not_local i free in
    let whole : (hop.path_cost + linkcost) % 2 ^ 32 ≡ hop.path_cost + linkcost = omega arith in
    let link : ltb metric_max linkcost ≡ false = ground arith in
    elim (Bool-cases (run.node i).done) [
      | inl done ↦
          let before = valid.finished i free done in
          rw (link, local, done)
            (record { working = valid; keeps = Keeps-refl blocked run; reaches = ground arith })
      | inr undone ↦
          rw (link, local, undone, whole)
            (insert_path-IsInserted n stopped blocked P floor ceiling i hop
              (hop.path_cost + linkcost) distance single_hop run valid (omega arith) high named free
              undone path)
    ]
