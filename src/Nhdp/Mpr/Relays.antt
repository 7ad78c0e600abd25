-- ===== src/Nhdp/Mpr/Relays.antt =====
-- The relays that the selection may not leave out, and that no step takes a relay back.
use olsrd.Base.{
  is_some, In, here, there, ℕ, zero, suc, ◌≡◌, ◌≤◌, ◌<◌, ◌∙◌, ap, refl, Bool, true, false, ◌==◌,
  length, if◌then◌else◌, Option, none, some, List, [], ◌∷◌, arith, Bool-cases, inl, inr,
}
use olsrd.Common.Netaddr.{Netaddr}
use olsrd.Nhdp.Mpr.{
  N1Node, NeighborGraphInterface, NeighborGraph, willingness_always, add_n1_node_to_set, is_in_set,
  n1_subset, possible_mprs, unique_of, always_of, select_greatest_by_property, select_candidates,
  process_remaining,
}
use olsrd.Nhdp.Mpr.Rounds.{
  selectable, is_in_set-add, finish_round, round_is, fewer_selectable, length-select_candidates,
}

module _ {ℓ} {L : Type ℓ} (methods : NeighborGraphInterface L) where
  is_in_set-add_other :
      (node : N1Node L) (set : List (N1Node L)) (y : Netaddr)
      → is_in_set methods set y ≡ true
      → is_in_set methods (add_n1_node_to_set methods node set) y ≡ true
  unfolding add_n1_node_to_set is_in_set
  is_in_set-add_other node [] y h = ground arith
  is_in_set-add_other node (first ∷ rest) y h =
      let r = is_in_set-add_other node rest y in ground arith

  pub always_of-keeps :
      (nodes set_mpr : List (N1Node L)) (y : Netaddr)
      → is_in_set methods set_mpr y ≡ true
      → is_in_set methods (always_of methods nodes set_mpr) y ≡ true
  unfolding always_of
  always_of-keeps [] set_mpr y h = h
  always_of-keeps (node ∷ rest) set_mpr y h =
      elim (Bool-cases (methods.get_willingness_n1 node == willingness_always)) [
        | inl w ↦ rw w (
            always_of-keeps rest (add_n1_node_to_set methods node set_mpr) y
              (is_in_set-add_other node set_mpr y h))
        | inr w ↦ rw w (always_of-keeps rest set_mpr y h)
      ]

  pub always_of-has :
      (x : N1Node L) (nodes set_mpr : List (N1Node L))
      → In x nodes
      → methods.get_willingness_n1 x == willingness_always ≡ true
      → is_in_set methods (always_of methods nodes set_mpr) x.addr ≡ true
  unfolding always_of
  always_of-has x [] set_mpr member will = elim member [ ]
  always_of-has x (node ∷ rest) set_mpr here will = rw will (
      always_of-keeps rest (add_n1_node_to_set methods x set_mpr) x.addr
        (is_in_set-add methods x set_mpr))
  always_of-has x (node ∷ rest) set_mpr (there more) will =
      always_of-has x rest
        (if methods.get_willingness_n1 node == willingness_always
          then add_n1_node_to_set methods node set_mpr
          else set_mpr)
        more will

  -- The result has the address among its relays.
  abbrev pub is_relay_in : Netaddr → Option (NeighborGraph L) → Bool
  is_relay_in y none = false
  is_relay_in y (some graph) = is_in_set methods graph.set_mpr y

  select_candidates-keeps :
      (graph : NeighborGraph L) → (select_candidates methods graph).set_mpr ≡ graph.set_mpr
  unfolding select_candidates select_greatest_by_property
  select_candidates-keeps graph = ground arith

  finish_keeps :
      (fuel : ℕ) (chosen : NeighborGraph L) (y : Netaddr) (candidates : List (N1Node L))
      → chosen.set_mpr_candidates ≡ candidates
      → length candidates ≤ fuel
      → is_in_set methods chosen.set_mpr y ≡ true
      → ((graph : NeighborGraph L)
          → selectable methods graph (n1_subset methods graph) < fuel
          → is_in_set methods graph.set_mpr y ≡ true
          → is_relay_in y (process_remaining methods fuel graph) ≡ true)
      → is_relay_in y (finish_round methods fuel chosen candidates) ≡ true
  finish_keeps fuel chosen y [] at enough relay later = relay
  finish_keeps fuel chosen y (node ∷ []) at enough relay later =
      is_in_set-add_other node chosen.set_mpr y relay
  finish_keeps fuel chosen y (node ∷ (second ∷ more)) at enough relay later =
      let fewer = fewer_selectable methods chosen node (second ∷ more) at in
      later (record chosen { set_mpr = add_n1_node_to_set methods node chosen.set_mpr })
        (omega arith) (is_in_set-add_other node chosen.set_mpr y relay)

  -- The loop takes no relay back.
  pub process_remaining_keeps :
      (fuel : ℕ) (graph : NeighborGraph L) (y : Netaddr)
      → selectable methods graph (n1_subset methods graph) < fuel
      → is_in_set methods graph.set_mpr y ≡ true
      → is_relay_in y (process_remaining methods fuel graph) ≡ true
  process_remaining_keeps zero graph y enough relay = absurd (omega arith)
  process_remaining_keeps (suc fuel) graph y enough relay =
      let chosen = select_candidates methods graph in
      let few = length-select_candidates methods graph in
      rw (round_is methods fuel graph) (
        finish_keeps fuel chosen y chosen.set_mpr_candidates refl (omega arith)
          (rw (select_candidates-keeps graph) relay)
          (λ g e r. process_remaining_keeps fuel g y e r))

  -- The relays of `_process_unique_mprs` have the address.
  abbrev pub is_unique_in : Netaddr → Option (List (N1Node L)) → Bool
  is_unique_in y none = false
  is_unique_in y (some set_mpr) = is_in_set methods set_mpr y

  -- What the loop of `_process_unique_mprs` does with the nodes that reach one address.
  abbrev unique_next :
      List (N1Node L) → List (N1Node L) → List Netaddr → List (N1Node L) → Option (List (N1Node L))
  unique_next [] set_n1 rest set_mpr = none
  unique_next (node ∷ []) set_n1 rest set_mpr =
      unique_of methods set_n1 rest (add_n1_node_to_set methods node set_mpr)
  unique_next (node ∷ (second ∷ more)) set_n1 rest set_mpr = unique_of methods set_n1 rest set_mpr

  unique_with :
      (set_n1 : List (N1Node L)) (y : Netaddr) (rest : List Netaddr)
      (set_mpr possible : List (N1Node L))
      → possible_mprs methods set_n1 y ≡ possible
      → unique_of methods set_n1 (y ∷ rest) set_mpr ≡ unique_next possible set_n1 rest set_mpr
  unfolding unique_of
  unique_with set_n1 y rest set_mpr [] at = rw (at, unique_of) refl
  unique_with set_n1 y rest set_mpr (node ∷ []) at = rw (at, unique_of) refl
  unique_with set_n1 y rest set_mpr (node ∷ (second ∷ more)) at = rw (at, unique_of) refl

  unique_is :
      (set_n1 : List (N1Node L)) (y : Netaddr) (rest : List Netaddr) (set_mpr : List (N1Node L))
      → unique_of methods set_n1 (y ∷ rest) set_mpr
        ≡ unique_next (possible_mprs methods set_n1 y) set_n1 rest set_mpr
  unique_is set_n1 y rest set_mpr =
      unique_with set_n1 y rest set_mpr (possible_mprs methods set_n1 y) refl

  unique_next-returns :
      (possible set_n1 : List (N1Node L)) (rest : List Netaddr) (set_mpr : List (N1Node L))
      (z : Netaddr)
      → is_some (unique_next possible set_n1 rest set_mpr) ≡ true
      → is_in_set methods set_mpr z ≡ true
      → ((m : List (N1Node L))
          → is_some (unique_of methods set_n1 rest m) ≡ true
          → is_in_set methods m z ≡ true
          → is_unique_in z (unique_of methods set_n1 rest m) ≡ true)
      → is_unique_in z (unique_next possible set_n1 rest set_mpr) ≡ true
  unique_next-returns [] set_n1 rest set_mpr z returns relay later = absurd (ground arith)
  unique_next-returns (node ∷ []) set_n1 rest set_mpr z returns relay later =
      later (add_n1_node_to_set methods node set_mpr) returns
        (is_in_set-add_other node set_mpr z relay)
  unique_next-returns (node ∷ (second ∷ more)) set_n1 rest set_mpr z returns relay later =
      later set_mpr returns relay

  pub unique_of-keeps :
      (set_n1 : List (N1Node L)) (set_n : List Netaddr) (set_mpr : List (N1Node L)) (z : Netaddr)
      → is_some (unique_of methods set_n1 set_n set_mpr) ≡ true
      → is_in_set methods set_mpr z ≡ true
      → is_unique_in z (unique_of methods set_n1 set_n set_mpr) ≡ true
  unfolding unique_of
  unique_of-keeps set_n1 [] set_mpr z returns relay = relay
  unique_of-keeps set_n1 (y ∷ rest) set_mpr z returns relay = rw (unique_is set_n1 y rest set_mpr) (
      unique_next-returns (possible_mprs methods set_n1 y) set_n1 rest set_mpr z
        (rw (unique_is set_n1 y rest set_mpr) at returns) relay
        (λ m r h. unique_of-keeps set_n1 rest m z r h))

  rest_returns :
      (possible set_n1 : List (N1Node L)) (rest : List Netaddr) (set_mpr : List (N1Node L))
      (z : Netaddr)
      → is_some (unique_next possible set_n1 rest set_mpr) ≡ true
      → ((m : List (N1Node L))
          → is_some (unique_of methods set_n1 rest m) ≡ true
          → is_unique_in z (unique_of methods set_n1 rest m) ≡ true)
      → is_unique_in z (unique_next possible set_n1 rest set_mpr) ≡ true
  rest_returns [] set_n1 rest set_mpr z returns later = absurd (ground arith)
  rest_returns (node ∷ []) set_n1 rest set_mpr z returns later =
      later (add_n1_node_to_set methods node set_mpr) returns
  rest_returns (node ∷ (second ∷ more)) set_n1 rest set_mpr z returns later = later set_mpr returns

  pub unique_of-has :
      (set_n1 : List (N1Node L)) (x : N1Node L) (y : Netaddr) (set_n : List Netaddr)
      (set_mpr : List (N1Node L))
      → In y set_n
      → possible_mprs methods set_n1 y ≡ x ∷ []
      → is_some (unique_of methods set_n1 set_n set_mpr) ≡ true
      → is_unique_in x.addr (unique_of methods set_n1 set_n set_mpr) ≡ true
  unique_of-has set_n1 x y [] set_mpr member alone returns = elim member [ ]
  unique_of-has set_n1 x y (z ∷ rest) set_mpr here alone returns =
      let first : unique_of methods set_n1 (y ∷ rest) set_mpr
          ≡ unique_of methods set_n1 rest (add_n1_node_to_set methods x set_mpr) =
        unique_is set_n1 y rest set_mpr ∙ ap (λ p. unique_next p set_n1 rest set_mpr) alone in
      rw first (
        unique_of-keeps set_n1 rest (add_n1_node_to_set methods x set_mpr) x.addr
          (rw first at returns) (is_in_set-add methods x set_mpr))
  unique_of-has set_n1 x y (z ∷ rest) set_mpr (there more) alone returns =
      rw (unique_is set_n1 z rest set_mpr) (
        rest_returns (possible_mprs methods set_n1 z) set_n1 rest set_mpr x.addr
          (rw (unique_is set_n1 z rest set_mpr) at returns)
          (λ m r. unique_of-has set_n1 x y rest m more alone r))
