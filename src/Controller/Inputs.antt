-- ===== src/Controller/Inputs.antt =====
-- The inputs that buildTable of internal/controller/reconciler.go makes of the routes: each is a route
-- that is accepted at some Gateway.
use rsync_gateway.Prelude.{
  ◌≡◌, refl, inl, inr, List, [], ◌∷◌, map, some, All, Any, any_of, Bool-cases, String,
}
use rsync_gateway.Prelude.Sort.{sort_by-All}
use rsync_gateway.Prelude.Keys.{◌==◌, String_eq, Map}
use rsync_gateway.Api.{GatewayConfigSpec}
use rsync_gateway.Gateway.Objects.{NamespacedName, NamespacedName_eq, RsyncRoute, Snapshot}
use rsync_gateway.Gateway.Claim.{ClassClaim}
use rsync_gateway.Gateway.Backends.{resolve_backends}
use rsync_gateway.Gateway.Bind.{ParentResult}
use rsync_gateway.Gateway.Conflicts.{Results, slice_at, effective_modules}
use rsync_gateway.Gateway.Conflicts.Reject.{Holds, HoldsIn}
use rsync_gateway.Gateway.Conflicts.Configured.{Configured}
use rsync_gateway.Translate.{RouteInput}
use rsync_gateway.Controller.{
  accepted_gateways, bound_gateways_for, first_config, route_backend, route_input, route_inputs,
}

accepted_gateways-Holds :
    (rs all : List ParentResult) (seen : List NamespacedName)
    → ((g : NamespacedName) → Holds g rs → Holds g all)
    → All (λ g. Holds g all) (accepted_gateways rs seen)
unfolding accepted_gateways
accepted_gateways-Holds [] all seen up = tt
accepted_gateways-Holds (r ∷ rs) all seen up = elim (Bool-cases r.accepted) [
  | inr e ↦ rw e (accepted_gateways-Holds rs all seen (λ g h. up g (inr h)))
  | inl e ↦ elim (Bool-cases (any_of (λ g. g == r.gateway) seen)) [
    | inl f ↦ rw (e, f) (accepted_gateways-Holds rs all seen (λ g h. up g (inr h)))
    | inr f ↦
        rw (e, f)
          (
            up r.gateway (inl (e, refl)),
            accepted_gateways-Holds rs all (r.gateway ∷ seen) (λ g h. up g (inr h)),
          )
  ]
]

bound_gateways_for-Holds : (rs : List ParentResult) → All (λ g. Holds g rs) (bound_gateways_for rs)
unfolding bound_gateways_for
bound_gateways_for-Holds rs =
    sort_by-All _ (λ g. Holds g rs) (accepted_gateways rs [])
      (accepted_gateways-Holds rs rs [] (λ g h. h))

-- An entry of the map.
abbrev pub Entry : NamespacedName → RsyncRoute → Map NamespacedName RsyncRoute → Type 0
Entry key v m = Any (λ e. e ≡ (key, v)) m

module _ (snap : Snapshot) (claims : Map String ClassClaim) (results : Results) where
  -- A route of the snapshot that is accepted at some Gateway, with a config.
  pub record Origin (i : RouteInput) : Type 0 where
    pub route : RsyncRoute
    pub listed : Entry i.route route snap.rsync_routes
    pub gateway : NamespacedName
    pub accepted : HoldsIn gateway i.route results
    pub modules : i.modules ≡ effective_modules route
    pub backends : i.backends ≡ map route_backend (resolve_backends snap i.route route).0
    pub spec : GatewayConfigSpec
    pub has_spec : i.config ≡ some spec

  first_config-some :
      (g : NamespacedName) (gs : List NamespacedName) (c : Configured snap claims g)
      → first_config claims snap (g ∷ gs) ≡ some c.config.spec
  unfolding first_config
  first_config-some g gs c = rw (c.found, c.claims_class, c.has_config, first_config) refl

  module _
      (configured : (g key : NamespacedName)
        → HoldsIn g key results
        → Configured snap claims g) where
    input-Origin :
        (key : NamespacedName) (route : RsyncRoute) (g : NamespacedName) (gs : List NamespacedName)
        → Entry key route snap.rsync_routes
        → HoldsIn g key results
        → Origin (route_input claims snap key route (g ∷ gs))
    unfolding route_input
    input-Origin key route g gs listed held = record {
      route = route;
      listed = listed;
      gateway = g;
      accepted = held;
      modules = refl;
      backends = refl;
      spec = (configured g key held).config.spec;
      has_spec = first_config-some g gs (configured g key held);
    }

    abbrev Listed : Map NamespacedName RsyncRoute → Type 0
    Listed routes =
        (key : NamespacedName) (route : RsyncRoute)
        → Entry key route routes
        → Entry key route snap.rsync_routes

    by_gateways :
        (key : NamespacedName) (route : RsyncRoute) (routes : Map NamespacedName RsyncRoute)
        (gs : List NamespacedName)
        → bound_gateways_for (slice_at key results) ≡ gs
        → All (λ g. Holds g (slice_at key results)) gs
        → Entry key route snap.rsync_routes
        → All Origin (route_inputs claims snap results routes)
        → All Origin (route_inputs claims snap results ((key, route) ∷ routes))
    unfolding route_inputs
    by_gateways key route routes [] e h listed rest = rw (e, route_inputs) rest
    by_gateways key route routes (g ∷ gs) e h listed rest =
        rw (e, route_inputs) (input-Origin key route g gs listed h.0, rest)

    -- Every input has such a route.
    pub route_inputs-Origin :
        (routes : Map NamespacedName RsyncRoute)
        → Listed routes
        → All Origin (route_inputs claims snap results routes)
    unfolding route_inputs
    route_inputs-Origin [] up = tt
    route_inputs-Origin ((key, route) ∷ routes) up =
        by_gateways key route routes _ refl (bound_gateways_for-Holds (slice_at key results))
          (up key route (inl refl)) (route_inputs-Origin routes (λ k r m. up k r (inr m)))
