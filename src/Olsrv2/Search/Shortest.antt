-- ===== src/Olsrv2/Search/Shortest.antt =====
-- The loop of `_run_dijkstra` ends, and the targets that are done have the costs of shortest paths.
use olsrd.Base.{
  All-In, ℕ, zero, suc, ◌+◌, ◌*◌, ◌^◌, ◌≡◌, ◌<◌, ◌≤◌, ◌∙◌, refl, Bool, true, false, ◌||◌, List, [],
  ◌∷◌, Option, some, arith, inl, inr, ◌⊎◌,
}
use olsrd.Olsrv2.Routing.{LocalNode}
use olsrd.Olsrv2.Dijkstra.{Topology, Run, Flags, is_queued}
use olsrd.Olsrv2.Dijkstra.Relax.{known, Reached}
use olsrd.Olsrv2.Search.{handle_working_queue, search_loop}
use olsrd.Olsrv2.Search.Graph.{links, Route, direct, onward}
use olsrd.Olsrv2.Search.Loop.{IsTopology, blocked_by, IsSearch, handled-IsSearch}

-- A path is at the end of no blocked target.
pub Route-open :
    (sources : List (ℕ × ℕ)) (next : ℕ → List (ℕ × ℕ)) (blocked : ℕ → Bool) (j c : ℕ)
    → Route sources next blocked j c
    → blocked j ≡ false
Route-open sources next blocked j c (direct link free) = free
Route-open sources next blocked j c (onward path link free same) = free

module _ (self : LocalNode) (topology : Topology) (flags : Flags) (n most : ℕ)
    (well_formed : IsTopology topology flags n most) (no_overflow : (n + 1) * most < 2 ^ 32)
    (sources : List (ℕ × ℕ)) (stopped : ℕ → Bool) where
  abbrev Search : ℕ → ℕ → Run → Type 0
  Search = IsSearch self topology flags n most well_formed no_overflow sources stopped

  -- The end of the loop: the working tree is empty.
  pub record Ends (fuel : ℕ) (run : Run) : Type 0 where
    pub after : Run
    pub returns : search_loop fuel self topology flags run ≡ some after
    pub empty_tree : after.working ≡ []
    pub rounds : ℕ
    pub floor : ℕ
    pub valid : Search rounds floor after

  ends_here : (fuel m floor : ℕ) (run : Run) → Search m floor run → run.working ≡ [] → Ends fuel run
  unfolding search_loop
  ends_here zero m floor run valid empty = record {
    after = run;
    returns = rw empty refl;
    empty_tree = empty;
    rounds = m;
    floor = floor;
    valid = valid;
  }
  ends_here (suc fuel) m floor run valid empty = record {
    after = run;
    returns = rw empty refl;
    empty_tree = empty;
    rounds = m;
    floor = floor;
    valid = valid;
  }

  data Front (q : List (ℕ × ℕ)) : Type 0 where
    front : (e : ℕ × ℕ) (rest : List (ℕ × ℕ)) → q ≡ e ∷ rest → Front q

  List-cases : (q : List (ℕ × ℕ)) → (q ≡ []) ⊎ Front q
  List-cases [] = inl refl
  List-cases (e ∷ rest) = inr (front e rest refl)

  pick_step :
      (q : List (ℕ × ℕ)) (e : ℕ × ℕ) (rest : List (ℕ × ℕ)) (x y : Option Run)
      → q ≡ e ∷ rest
      → elim q [ [] ↦ x | _ ∷ _ ↦ y ] ≡ y
  pick_step q e rest x y first = rw first refl

  steps :
      (fuel : ℕ) (run : Run) (e : ℕ × ℕ) (rest : List (ℕ × ℕ))
      → run.working ≡ e ∷ rest
      → search_loop (suc fuel) self topology flags run
        ≡ search_loop fuel self topology flags (handle_working_queue self topology flags run)
  unfolding search_loop
  steps fuel run e rest first =
      pick_step run.working e rest (some run)
        (search_loop fuel self topology flags (handle_working_queue self topology flags run)) first

  pub loop_ends : (fuel m floor : ℕ) (run : Run) → Search m floor run → n ≤ m + fuel → Ends fuel run
  unfolding search_loop
  loop_ends zero m floor run valid enough = elim (List-cases run.working) [
    | inl empty ↦ ends_here zero m floor run valid empty
    | inr (front e rest first) ↦
        let next =
          handled-IsSearch self topology flags n most well_formed no_overflow sources stopped m
            floor run valid e.0 e.1 rest first in
        let r = next.rounds in absurd (omega arith)
  ]
  loop_ends (suc fuel) m floor run valid enough = elim (List-cases run.working) [
    | inl empty ↦ ends_here (suc fuel) m floor run valid empty
    | inr (front e rest first) ↦
        let next =
          handled-IsSearch self topology flags n most well_formed no_overflow sources stopped m
            floor run valid e.0 e.1 rest first in
        let end =
          loop_ends fuel (suc m) e.0 (handle_working_queue self topology flags run) next
            (omega arith) in
        record {
          after = end.after;
          returns = steps fuel run e rest first ∙ end.returns;
          empty_tree = end.empty_tree;
          rounds = end.rounds;
          floor = end.floor;
          valid = end.valid;
        }
  ]

  module _ (m floor : ℕ) (run : Run) (valid : Search m floor run) (empty : run.working ≡ []) where
    known_is_done : (j : ℕ) → known j run ≡ true → (run.node j).done ≡ true
    unfolding is_queued
    known_is_done j h =
        let k : known j run ≡ ((run.node j).done || false) = rw empty refl in ground arith

    Reached-open :
        (j c : ℕ)
        → blocked_by topology stopped j ≡ false
        → (stopped j ≡ true) ⊎ Reached j c run
        → ((run.node j).done ≡ true) × ((run.node j).path_cost ≤ c)
    Reached-open j c free (inl halt) = absurd (ground arith)
    Reached-open j c free (inr reached) = (known_is_done j reached.0, reached.1)

    -- No path costs less than the target at its end.
    pub below_paths :
        (j c : ℕ)
        → Route sources (links topology flags) (blocked_by topology stopped) j c
        → ((run.node j).done ≡ true) × ((run.node j).path_cost ≤ c)
    below_paths j c (direct link free) =
        Reached-open j c free
          (All-In (λ e. (stopped e.0 ≡ true) ⊎ Reached e.0 e.1 run) valid.started link)
    below_paths j c (onward {i} {c = b} {w = w} path link free same) =
        let before = below_paths i b path in
        let open_ =
          Route-open sources (links topology flags) (blocked_by topology stopped) i b path in
        let here = Reached-open j ((run.node i).path_cost + w) free (
          All-In (λ e. (stopped e.0 ≡ true) ⊎ Reached e.0 ((run.node i).path_cost + e.1) run)
            (valid.relaxed i open_ before.0) link) in
        (here.0, let h = here.1 in let b = before.1 in omega arith)
