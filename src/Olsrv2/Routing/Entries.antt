-- ===== src/Olsrv2/Routing/Entries.antt =====
-- What `_update_routing_entry` does to the routes.
use olsrd.Base.{
  ℕ, ◌≡◌, ◌∙◌, subst, refl, true, ◌&&◌, ltb, if◌then◌else◌, Option, none, some, arith, Bool-cases,
  inl, inr,
}
use olsrd.Common.Tree.{find, insert, update, find-insert, find-update, same_refl}
use olsrd.Olsrv2.Routing.{
  OsRouteKey, route_key, same_route, same_route_iff, RoutingEntry, RoutingTree, LocalNode,
  new_entry, add_entry, wants_route, PathResult, fill_entry, replace_entry, update_routing_entry,
}

-- The cost of a route that is set.
abbrev pub entry_cost : Option RoutingEntry → Option ℕ
entry_cost none = none
entry_cost (some entry) = if entry.set then some entry.path_cost else none

-- The smaller of both costs.
abbrev pub cheaper : Option ℕ → ℕ → Option ℕ
cheaper none c = some c
cheaper (some a) c = if ltb a c then some a else some c

module _ (self : LocalNode) (prefix : OsRouteKey) (path : PathResult) where
  there :
      (routes : RoutingTree) (k : OsRouteKey) (found : Option RoutingEntry)
      → find prefix routes ≡ found
      → same_route prefix k ≡ true
      → find k routes ≡ found
  there routes k found at h = subst (λ x. find x routes ≡ found) ((same_route_iff prefix k).0 h) at

  replace_cost :
      (entry : RoutingEntry) (routes : RoutingTree) (k : OsRouteKey)
      → find prefix routes ≡ some entry
      → entry_cost (find k (replace_entry prefix path (entry, routes))) ≡ (
          if same_route prefix k
          then cheaper (entry_cost (some entry)) path.path_cost
          else entry_cost (find k routes))
  unfolding replace_entry fill_entry
  replace_cost entry routes k at =
      let written = find-update prefix k (fill_entry prefix path entry) routes in
      let here = there routes k (some entry) at in
      elim (Bool-cases (entry.set && ltb entry.path_cost path.path_cost)) [
        | inl kept ↦
            let same : replace_entry prefix path (entry, routes) ≡ routes =
              rw (replace_entry, kept) refl in
            elim (Bool-cases (same_route prefix k)) [
              | inl h ↦ rw (same, here h, h) (ground arith)
              | inr h ↦ rw (same, h) refl
            ]
        | inr new ↦
            let same : replace_entry prefix path (entry, routes)
                ≡ update prefix (fill_entry prefix path entry) routes =
              rw (replace_entry, new) refl in
            elim (Bool-cases (same_route prefix k)) [
              | inl h ↦ rw (same, written, h, here h) (ground arith)
              | inr h ↦ rw (same, written, h) refl
            ]
      ]

  added_cost :
      (routes : RoutingTree) (k : OsRouteKey)
      → find prefix routes ≡ none
      → entry_cost (find k (insert prefix (new_entry prefix) routes)) ≡ entry_cost (find k routes)
  added_cost routes k absent =
      let added = find-insert prefix k (new_entry prefix) routes absent in
      elim (Bool-cases (same_route prefix k)) [
        | inl h ↦ rw (added, h, there routes k none absent h) refl
        | inr h ↦ rw (added, h) refl
      ]

  changed_cost :
      (routes : RoutingTree) (k : OsRouteKey) (found : Option RoutingEntry)
      → find prefix routes ≡ found
      → self.memory ≡ true
      → wants_route self prefix path.path_cost ≡ true
      → entry_cost (find k (update_routing_entry self prefix path routes)) ≡ (
          if same_route prefix k
          then cheaper (entry_cost (find k routes)) path.path_cost
          else entry_cost (find k routes))
  unfolding update_routing_entry add_entry
  changed_cost routes k none at memory wanted =
      let wider = insert prefix (new_entry prefix) routes in
      let same : update_routing_entry self prefix path routes
          ≡ replace_entry prefix path (new_entry prefix, wider) =
        rw (update_routing_entry, wanted, add_entry, at, memory) refl in
      let added : find prefix wider ≡ some (new_entry prefix) =
        find-insert prefix prefix (new_entry prefix) routes at ∙ rw (same_refl prefix) refl in
      elim (Bool-cases (same_route prefix k)) [
        | inl h ↦
            rw (same, replace_cost (new_entry prefix) wider k added, h, there routes k none at h)
              refl
        | inr h ↦
            rw (same, replace_cost (new_entry prefix) wider k added, h) (added_cost routes k at)
      ]
  changed_cost routes k (some entry) at memory wanted =
      let same : update_routing_entry self prefix path routes
          ≡ replace_entry prefix path (entry, routes) =
        rw (update_routing_entry, wanted, add_entry, at) refl in
      elim (Bool-cases (same_route prefix k)) [
        | inl h ↦
            rw (same, replace_cost entry routes k at, h, there routes k (some entry) at h) refl
        | inr h ↦ rw (same, replace_cost entry routes k at, h) refl
      ]

  -- While there is memory, a destination that takes routes has one afterwards, with the smaller one of
  -- the cost it had and the cost of the path; no other destination has its cost changed, nor has one
  -- that takes no routes.
  pub update_cost :
      (routes : RoutingTree)
      → self.memory ≡ true
      → (k : OsRouteKey)
      → entry_cost (find k (update_routing_entry self prefix path routes)) ≡ (
          if same_route prefix k && wants_route self prefix path.path_cost
          then cheaper (entry_cost (find k routes)) path.path_cost
          else entry_cost (find k routes))
  unfolding update_routing_entry
  update_cost routes memory k = elim (Bool-cases (wants_route self prefix path.path_cost)) [
    | inl wanted ↦
        rw (changed_cost routes k (find prefix routes) refl memory wanted)
          (rw wanted (ground arith))
    | inr out ↦ rw (update_routing_entry, out) (ground arith)
  ]
