-- ===== src/Nhdp/Mpr/Rounds.antt =====
-- The loop of `_process_remaining` ends: with each round there are fewer candidates.
use olsrd.Base.{
  is_some, ℕ, zero, suc, ◌+◌, ◌≡◌, ◌≤◌, ◌<◌, ◌∙◌, refl, true, false, ltb, length, Option, none,
  some, List, [], ◌∷◌, arith, Bool-cases, inl, inr,
}
use olsrd.Common.Tree.Count.{one}
use olsrd.Common.Netaddr.{netaddr_same_iff}
use olsrd.Nhdp.Mpr.{
  N1Node, NeighborGraphInterface, NeighborGraph, add_n1_node_to_set, is_in_set, is_mpr, calculate_r,
  select_node, select_from, copy_set, n1_subset, select_greatest_by_property, select_candidates,
  process_remaining,
}

module _ {ℓ} {L : Type ℓ} (methods : NeighborGraphInterface L) where
  -- How many of the nodes may be selected.
  abbrev pub selectable : NeighborGraph L → List (N1Node L) → ℕ
  selectable graph [] = 0
  selectable graph (node ∷ rest) =
      one (ltb 0 (calculate_r methods graph node)) + selectable graph rest

  pub selectable-le :
      (graph : NeighborGraph L) (nodes : List (N1Node L)) → selectable graph nodes ≤ length nodes
  selectable-le graph [] = omega arith
  selectable-le graph (node ∷ rest) = let r = selectable-le graph rest in ground arith

  length-add :
      (node : N1Node L) (set : List (N1Node L))
      → length (add_n1_node_to_set methods node set) ≤ suc (length set)
  unfolding add_n1_node_to_set
  length-add node [] = omega arith
  length-add node (first ∷ rest) = let r = length-add node rest in ground arith

  pub is_in_set-add :
      (node : N1Node L) (set : List (N1Node L))
      → is_in_set methods (add_n1_node_to_set methods node set) node.addr ≡ true
  unfolding add_n1_node_to_set is_in_set
  is_in_set-add node [] = rw ((netaddr_same_iff node.addr node.addr).1 refl) refl
  is_in_set-add node (first ∷ rest) =
      let r = is_in_set-add node rest in
      let here = (netaddr_same_iff node.addr node.addr).1 refl in ground arith

  length-select_node :
      (graph : NeighborGraph L) (get_property : N1Node L → ℕ) (node : N1Node L)
      (state : Option ℕ × List (N1Node L))
      → length (select_node methods graph get_property node state).1
        ≤ one (ltb 0 (calculate_r methods graph node)) + length state.1
  unfolding select_node
  length-select_node graph get_property node (none, candidates) =
      let a = length-add node [] in ground arith
  length-select_node graph get_property node (some greatest, candidates) =
      let a = length-add node [] in let b = length-add node candidates in ground arith

  length-select_from :
      (graph : NeighborGraph L) (get_property : N1Node L → ℕ) (nodes : List (N1Node L))
      (state : Option ℕ × List (N1Node L))
      → length (select_from methods graph get_property nodes state).1
        ≤ selectable graph nodes + length state.1
  unfolding select_from
  length-select_from graph get_property [] state = omega arith
  length-select_from graph get_property (node ∷ rest) state =
      let first = length-select_node graph get_property node state in
      let more =
        length-select_from graph get_property rest
          (select_node methods graph get_property node state) in
      omega arith

  length-copy :
      (nodes set : List (N1Node L))
      → length (copy_set methods nodes set) ≤ length nodes + length set
  unfolding copy_set
  length-copy [] set = omega arith
  length-copy (node ∷ rest) set =
      let a = length-add node set in
      let r = length-copy rest (add_n1_node_to_set methods node set) in omega arith

  length-select :
      (get_property : NeighborGraph L → N1Node L → ℕ) (graph : NeighborGraph L)
      → length (select_greatest_by_property methods get_property graph).set_mpr_candidates
        ≤ selectable graph (n1_subset methods graph)
  unfolding select_greatest_by_property
  length-select get_property graph =
      let all =
        length-select_from graph (get_property graph) (n1_subset methods graph) (none, []) in
      let copied =
        length-copy
          (select_from methods graph (get_property graph) (n1_subset methods graph) (none, [])).1
          [] in
      omega arith

  subset_of_some :
      (nodes candidates : List (N1Node L))
      → 0 < length candidates
      → elim candidates as (λ _. List (N1Node L)) [ [] ↦ nodes | node ∷ rest ↦ node ∷ rest ]
        ≡ candidates
  subset_of_some nodes [] some_ = absurd (omega arith)
  subset_of_some nodes (node ∷ rest) some_ = refl

  -- The candidates of a round are not more than the nodes that may be selected.
  pub length-select_candidates :
      (graph : NeighborGraph L)
      → length (select_candidates methods graph).set_mpr_candidates
        ≤ selectable graph (n1_subset methods graph)
  unfolding select_candidates n1_subset
  length-select_candidates graph =
      let chosen =
        select_greatest_by_property methods (λ _ node. methods.get_willingness_n1 node) graph in
      let first = length-select (λ _ node. methods.get_willingness_n1 node) graph in
      elim (Bool-cases (ltb 1 (length chosen.set_mpr_candidates))) [
        | inr one_ ↦ rw one_ first
        | inl several ↦
            let second = length-select (calculate_r methods) chosen in
            let same = subset_of_some chosen.set_n1 chosen.set_mpr_candidates (ground arith) in
            let bound = selectable-le chosen chosen.set_mpr_candidates in
            let narrowed = rw same at second in rw several (omega arith)
      ]

  -- What one round does once the candidates are selected.
  abbrev pub finish_round : ℕ → NeighborGraph L → List (N1Node L) → Option (NeighborGraph L)
  finish_round fuel chosen [] = some chosen
  finish_round fuel chosen (node ∷ []) =
      some (record chosen { set_mpr = add_n1_node_to_set methods node chosen.set_mpr })
  finish_round fuel chosen (node ∷ (second ∷ more)) =
      process_remaining methods fuel
        (record chosen { set_mpr = add_n1_node_to_set methods node chosen.set_mpr })

  pub round_is :
      (fuel : ℕ) (graph : NeighborGraph L)
      → process_remaining methods (suc fuel) graph
        ≡ finish_round fuel
            (select_candidates methods graph)
            (select_candidates methods graph).set_mpr_candidates
  unfolding process_remaining
  round_is fuel graph = refl

  -- A node that is a relay may not be selected.
  mpr_not_selectable :
      (graph : NeighborGraph L) (node : N1Node L)
      → is_in_set methods graph.set_mpr node.addr ≡ true
      → ltb 0 (calculate_r methods graph node) ≡ false
  unfolding calculate_r is_mpr
  mpr_not_selectable graph node relay = rw relay refl

  -- The rest of the rounds has one candidate less to choose from, for the first one is a relay now.
  pub fewer_selectable :
      (chosen : NeighborGraph L) (node : N1Node L) (others : List (N1Node L))
      → chosen.set_mpr_candidates ≡ node ∷ others
      → let next : NeighborGraph L = record chosen {
        set_mpr = add_n1_node_to_set methods node chosen.set_mpr;
      } in
        selectable next (n1_subset methods next) ≤ length others
  unfolding n1_subset
  fewer_selectable chosen node others at =
      let next : NeighborGraph L = record chosen {
        set_mpr = add_n1_node_to_set methods node chosen.set_mpr;
      } in
      let out = mpr_not_selectable next node (is_in_set-add node chosen.set_mpr) in
      let rest = selectable-le next others in
      let same : n1_subset methods next ≡ node ∷ others =
        subset_of_some chosen.set_n1 chosen.set_mpr_candidates (rw at (omega arith)) ∙ at in
      rw (same, out) (omega arith)

  finish_ends :
      (fuel : ℕ) (chosen : NeighborGraph L) (candidates : List (N1Node L))
      → chosen.set_mpr_candidates ≡ candidates
      → length candidates ≤ fuel
      → ((graph : NeighborGraph L)
          → selectable graph (n1_subset methods graph) < fuel
          → is_some (process_remaining methods fuel graph) ≡ true)
      → is_some (finish_round fuel chosen candidates) ≡ true
  finish_ends fuel chosen [] at enough later = refl
  finish_ends fuel chosen (node ∷ []) at enough later = refl
  finish_ends fuel chosen (node ∷ (second ∷ more)) at enough later =
      let fewer = fewer_selectable chosen node (second ∷ more) at in
      later (record chosen { set_mpr = add_n1_node_to_set methods node chosen.set_mpr })
        (omega arith)

  -- With more fuel than nodes that may be selected, the loop ends.
  pub process_remaining_ends :
      (fuel : ℕ) (graph : NeighborGraph L)
      → selectable graph (n1_subset methods graph) < fuel
      → is_some (process_remaining methods fuel graph) ≡ true
  process_remaining_ends zero graph enough = absurd (omega arith)
  process_remaining_ends (suc fuel) graph enough =
      let chosen = select_candidates methods graph in
      let few = length-select_candidates graph in
      rw (round_is fuel graph) (
        finish_ends fuel chosen chosen.set_mpr_candidates refl (omega arith)
          (process_remaining_ends fuel))
