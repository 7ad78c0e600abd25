-- ===== src/Olsrv2/Search/Round.antt =====
-- One round of the loop of `_run_dijkstra`: the first target of the working tree is settled.
use olsrd.Base.{
  All-zip, ℕ, zero, suc, ◌+◌, ◌≡◌, ◌<◌, ◌≤◌, ◌∙◌, sym, ap, refl, subst, Bool, true, false, not,
  ◌||◌, ◌==◌, ==_iff, List, [], ◌∷◌, All, arith, Bool-cases, inl, inr,
}
use olsrd.Common.Tree.Count.{one}
use olsrd.Olsrv2.Dijkstra.{Topology, Run, Hop, with_node, is_queued}
use olsrd.Olsrv2.Dijkstra.Queue.{IsQueue}
use olsrd.Olsrv2.Dijkstra.Relax.{known, Reached, IsEntry, IsWorking}

-- How many of the targets below `n` are not done.
abbrev pub undone : ℕ → Run → ℕ
undone zero run = 0
undone (suc n) run = one (not (run.node n).done) + undone n run

pub undone-le : (n : ℕ) (run : Run) → undone n run ≤ n
undone-le zero run = omega arith
undone-le (suc n) run = let rest = undone-le n run in ground arith

pub undone-grows :
    (n : ℕ) (before after : Run)
    → ((i : ℕ) → (before.node i).done ≡ true → (after.node i).done ≡ true)
    → undone n after ≤ undone n before
undone-grows zero before after grows = omega arith
undone-grows (suc n) before after grows =
    let rest = undone-grows n before after grows in
    let last = grows n in
    elim (Bool-cases (before.node n).done) [
      | inl h ↦ let l = last h in ground arith
      | inr h ↦ ground arith
    ]

pub undone-lt :
    (n i : ℕ) (before after : Run)
    → ((i : ℕ) → (before.node i).done ≡ true → (after.node i).done ≡ true)
    → i < n
    → (before.node i).done ≡ false
    → (after.node i).done ≡ true
    → undone n after < undone n before
undone-lt zero i before after grows lt was is = absurd (omega arith)
undone-lt (suc n) i before after grows lt was is = elim (Bool-cases (i == n)) [
  | inl h ↦
      let at = (==_iff i n).0 h in
      let rest = undone-grows n before after grows in
      let a : (before.node n).done ≡ false = ap (λ x. (before.node x).done) (sym at) ∙ was in
      let b : (after.node n).done ≡ true = ap (λ x. (after.node x).done) (sym at) ∙ is in
      ground arith
  | inr h ↦
      let rest = undone-lt n i before after grows (ground arith) was is in
      let last = grows n in
      elim (Bool-cases (before.node n).done) [
        | inl h ↦ let l = last h in ground arith
        | inr h ↦ ground arith
      ]
]

not_queued-All : (i : ℕ) (q : List (ℕ × ℕ)) → is_queued i q ≡ false → All (λ e. e.1 == i ≡ false) q
unfolding is_queued
not_queued-All i [] h = tt
not_queued-All i ((c, j) ∷ q) h = (ground arith, not_queued-All i q (ground arith))

module _ (n : ℕ) (stopped blocked : ℕ → Bool) (P : ℕ → ℕ → Type 0) (floor ceiling ceiling' : ℕ)
    (higher : ceiling ≤ ceiling') (cost i : ℕ) (rest : List (ℕ × ℕ)) (run : Run)
    (first : run.working ≡ (cost, i) ∷ rest)
    (valid : IsWorking n stopped blocked P floor ceiling run) where
  -- The first target of the working tree, and the state once it is marked as done.
  pub head : IsEntry n stopped blocked P floor ceiling run (cost, i)
  head =
      let all = valid.entries in
      (subst (All (IsEntry n stopped blocked P floor ceiling run)) first all).0

  abbrev pub marked : Run
  marked = with_node i (record (run.node i) { done = true }) (record run { working = rest })

  tail-IsQueue : IsQueue ((cost, i) ∷ rest)
  tail-IsQueue = subst IsQueue first valid.queue

  tail_entries : All (IsEntry n stopped blocked P floor ceiling run) rest
  tail_entries = (subst (All (IsEntry n stopped blocked P floor ceiling run)) first valid.entries).1

  known_before : (j : ℕ) → known j run ≡ ((run.node j).done || (i == j || is_queued j rest))
  unfolding is_queued
  known_before j = ap (λ q. (run.node j).done || is_queued j q) first

  -- A path leads to the target.
  pub head_path : P i (run.node i).path_cost
  head_path = valid.paths i head.5 (known_before i ∙ ground (arith, (==_iff i i).1 refl))

  kept-IsEntry :
      (e : ℕ × ℕ)
      → IsEntry n stopped blocked P floor ceiling run e
      → e.1 == i ≡ false
      → cost ≤ e.0
      → IsEntry n stopped blocked P cost ceiling' marked e
  kept-IsEntry e p other low = rw other (p.0, p.1, low, omega arith, p.4, p.5)

  pub marked-IsWorking : IsWorking n stopped blocked P cost ceiling' marked
  marked-IsWorking = record {
    queue = tail-IsQueue.2;
    entries =
        All-zip (λ e. IsEntry n stopped blocked P floor ceiling run e × (e.1 == i ≡ false))
          (λ e. cost ≤ e.0) (IsEntry n stopped blocked P cost ceiling' marked)
          (λ e p q. kept-IsEntry e p.0 p.1 q) rest
          (All-zip (IsEntry n stopped blocked P floor ceiling run) (λ e. e.1 == i ≡ false)
            (λ e. IsEntry n stopped blocked P floor ceiling run e × (e.1 == i ≡ false))
            (λ e p q. (p, q)) rest tail_entries (not_queued-All i rest tail-IsQueue.1))
          tail-IsQueue.0;
    finished = λ j f d. elim (Bool-cases (j == i)) [
      | inl h ↦ let at = (==_iff j i).0 h in rw h (let e = head.0 in omega arith)
      | inr h ↦ let old = valid.finished j f in let top = head in ground arith
    ];
    paths = λ j f d. elim (Bool-cases (j == i)) [
      | inl h ↦
          let at = (==_iff j i).0 h in
          rw h (subst (λ x. P x (run.node i).path_cost) (sym at) head_path)
      | inr h ↦ rw h (valid.paths j f (known_before j ∙ ground arith))
    ];
    not_local = λ j f. elim (Bool-cases (j == i)) [
      | inl h ↦ rw h (valid.not_local i head.5)
      | inr h ↦ rw h (valid.not_local j f)
    ];
    still = λ j s. elim (Bool-cases (j == i)) [
      | inl h ↦ rw h (ground arith)
      | inr h ↦ rw h (valid.still j s)
    ];
  }

  pub marked-Reached : (j c : ℕ) → Reached j c run → Reached j c marked
  marked-Reached j c old = elim (Bool-cases (j == i)) [
    | inl h ↦ let e = ap run.node ((==_iff j i).0 h) in grind arith
    | inr h ↦ let k = known_before j in ground arith
  ]

  pub marked-grows : (j : ℕ) → (run.node j).done ≡ true → (marked.node j).done ≡ true
  marked-grows j d = elim (Bool-cases (j == i)) [ inl h ↦ rw h refl | inr h ↦ rw h d ]

  -- What is reached from the settled target.
  abbrev pub hop_at : Topology → Hop
  hop_at topology = record {
    neigh = (run.node i).first_hop;
    path_cost = (run.node i).path_cost;
    path_hops = (run.node i).path_hops;
    last_originator = (topology.target i).prefix.dst;
  }
