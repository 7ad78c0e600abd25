-- ===== src/Olsrv2/Kernel/Order.antt =====
-- The order of the kernel queue, and one request at a time for each route.
use olsrd.Base.{
  ℕ, ◌+◌, ◌≡◌, ◌∙◌, sym, ap, refl, Bool, true, false, not, ◌&&◌, if◌then◌else◌, Option, none, some,
  List, [], ◌∷◌, ◌++◌, arith, Bool-cases, inl, inr,
}
use olsrd.Common.Tree.{find}
use olsrd.Common.Tree.Count.{one}
use olsrd.Common.Netaddr.{unspec, same_family}
use olsrd.Olsrv2.Routing.{OsRouteKey, route_key, same_route, RoutingEntry, RoutingTree, LocalNode}
use olsrd.Olsrv2.Kernel.{
  RoutingDomain, RoutingFilter, KernelRequest, add_route_to_kernel_queue, finish_entry, is_change,
  process_dijkstra_result,
}

-- A route that is set goes first if it has no gateway, one that is removed if it has one.
abbrev pub is_early : RoutingEntry → Bool
is_early rtentry =
    if rtentry.set
    then same_family rtentry.route.gw.family unspec
    else not (same_family rtentry.route.gw.family unspec)

-- The keys of the changes that go first, and of the others, in the order of the tree.
abbrev pub changes : Bool → RoutingTree → List OsRouteKey
changes early [] = []
changes early ((key, rtentry) ∷ rest) =
    if is_change key rtentry && (if early then is_early rtentry else not (is_early rtentry))
    then key ∷ changes early rest
    else changes early rest

-- A list put before another in the opposite order.
abbrev pub prepend {ℓ} : {A : Type ℓ} → List A → List A → List A
prepend [] ys = ys
prepend (x ∷ xs) ys = prepend xs (x ∷ ys)

append_nil {ℓ} : {A : Type ℓ} (xs : List A) → xs ++ [] ≡ xs
append_nil [] = refl
append_nil (x ∷ xs) = ap (λ t. x ∷ t) (append_nil xs)

append_assoc {ℓ} : {A : Type ℓ} (xs ys zs : List A) → (xs ++ ys) ++ zs ≡ xs ++ (ys ++ zs)
append_assoc [] ys zs = refl
append_assoc (x ∷ xs) ys zs = ap (λ t. x ∷ t) (append_assoc xs ys zs)

prepend-append {ℓ} : {A : Type ℓ} (xs ys zs : List A) → prepend xs (ys ++ zs) ≡ prepend xs ys ++ zs
prepend-append [] ys zs = refl
prepend-append (x ∷ xs) ys zs = prepend-append xs (x ∷ ys) zs

queue_one :
    (key : OsRouteKey) (rtentry : RoutingEntry) (queue : List OsRouteKey)
    → add_route_to_kernel_queue key rtentry queue
      ≡ (if is_early rtentry then key ∷ queue else queue ++ (key ∷ []))
unfolding add_route_to_kernel_queue
queue_one key rtentry queue = ground arith

-- `_process_dijkstra_result` puts the changed routes that are set without a gateway and the removed
-- ones with a gateway before what is in the kernel queue, the last one first, and the changed routes
-- that are set with a gateway and the removed ones without behind it in their order.
pub queue_order :
    (self : LocalNode) (domain : RoutingDomain) (filters : List RoutingFilter)
    (routes : RoutingTree) (queue : List OsRouteKey)
    → (process_dijkstra_result self domain filters routes queue).1
      ≡ prepend (changes true (process_dijkstra_result self domain filters routes queue).0) queue
        ++ changes false (process_dijkstra_result self domain filters routes queue).0
unfolding process_dijkstra_result
queue_order self domain filters [] queue = sym (append_nil queue)
queue_order self domain filters ((key, rtentry) ∷ rest) queue =
    let key' = (finish_entry self domain filters key rtentry).0 in
    let done = (finish_entry self domain filters key rtentry).1 in
    let rest_order = queue_order self domain filters rest in
    elim (Bool-cases (is_change key' done)) [
      | inr same ↦ rw same (rest_order queue)
      | inl new ↦ elim (Bool-cases (is_early done)) [
        | inl early ↦ rw (queue_one key' done queue, new, early) (rest_order (key' ∷ queue))
        | inr late ↦
            let behind = queue ++ (key' ∷ []) in
            let after = (process_dijkstra_result self domain filters rest behind).0 in
            rw (queue_one key' done queue, new, late)
              (rest_order behind
                ∙ ap (λ t. t ++ changes false after)
                    (prepend-append (changes true after) queue (key' ∷ []))
                ∙ append_assoc (prepend (changes true after) queue) (key' ∷ [])
                    (changes false after))
      ]
    ]

-- How many of the requests are for a route, and whether a route may be sent to the kernel.
abbrev pub requests_for : OsRouteKey → List KernelRequest → ℕ
requests_for key [] = 0
requests_for key (request ∷ rest) = one (same_route request.key key) + requests_for key rest

abbrev is_idle_entry : Option RoutingEntry → Bool
is_idle_entry none = false
is_idle_entry (some rtentry) = not rtentry.in_processing

abbrev pub is_idle : OsRouteKey → RoutingTree → Bool
is_idle key routes = is_idle_entry (find key routes)
