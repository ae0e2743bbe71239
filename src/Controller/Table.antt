-- ===== src/Controller/Table.antt =====
-- buildTable of internal/controller/reconciler.go with the results of BindRoutes and the claims of
-- ClaimClasses.
use rsync_gateway.Prelude.{
  ◌≡◌, refl, sym, subst, inl, inr, List, [], ◌∷◌, map, String, err, All, All-map, Any,
}
use rsync_gateway.Prelude.Keys.{Map, String_eq}
use rsync_gateway.Prelude.Text.{◌^^◌, decimal}
use rsync_gateway.Api.{ParseDuration}
use rsync_gateway.Gateway.Objects.{NamespacedName, RsyncRoute, Snapshot}
use rsync_gateway.Gateway.Claim.{ClassClaim, claim_classes}
use rsync_gateway.Gateway.Backends.{ResolvedBackend, resolve_backends}
use rsync_gateway.Gateway.Bind.{Selects}
use rsync_gateway.Gateway.Conflicts.{Results, bind_routes, effective_modules}
use rsync_gateway.Gateway.Conflicts.Reject.{HoldsIn}
use rsync_gateway.Gateway.Conflicts.Configured.{bind_routes-Configured}
use rsync_gateway.Server.{Upstream}
use rsync_gateway.Translate.{RouteInput, nil_dereference, backend_upstream}
use rsync_gateway.Translate.Origins.{Values, Backed, Prepared, Safe, build_server_config-Safe}
use rsync_gateway.Controller.{route_backend, route_inputs, primary_config, build_table}
use rsync_gateway.Controller.Inputs.{Entry, Origin, route_inputs-Origin}

-- An upstream for a route of the snapshot that is accepted at some Gateway: its modules, and the address of
-- one of the route's backends.
pub record Serves (snap : Snapshot) (results : Results) (u : Upstream) : Type 0 where
  pub key : NamespacedName
  pub route : RsyncRoute
  pub listed : Entry key route snap.rsync_routes
  pub gateway : NamespacedName
  pub accepted : HoldsIn gateway key results
  pub modules : u.modules ≡ effective_modules route
  pub backend : ResolvedBackend
  pub resolved : Any (λ b. b ≡ backend) (resolve_backends snap key route).0
  pub address :
      u.address
      ≡ backend.service.name ^^ "." ^^ backend.service.namespace ^^ ".svc:" ^^ decimal backend.port

module _ (snap : Snapshot) (claims : Map String ClassClaim) (results : Results) where
  abbrev Fits : Upstream → Type 0
  Fits = Serves snap results

  backends-Backed :
      (i : RouteInput) (o : Origin snap claims results i) (bs : List ResolvedBackend)
      → ((b : ResolvedBackend)
          → Any (λ c. c ≡ b) bs
          → Any (λ c. c ≡ b) (resolve_backends snap i.route o.route).0)
      → All (Backed Fits i) (map route_backend bs)
  unfolding backend_upstream
  backends-Backed i o [] up = tt
  backends-Backed i o (b ∷ bs) up = (
    (λ spec. record {
      key = i.route;
      route = o.route;
      listed = o.listed;
      gateway = o.gateway;
      accepted = o.accepted;
      modules = o.modules;
      backend = b;
      resolved = up b (inl refl);
      address = refl;
    }),
    backends-Backed i o bs (λ c m. up c (inr m)),
  )

  Origin-Prepared : (i : RouteInput) → Origin snap claims results i → Prepared Fits i
  Origin-Prepared i o = record {
    spec = o.spec;
    has_spec = o.has_spec;
    backed =
        subst (All (Backed Fits i)) (sym o.backends)
          (backends-Backed i o (resolve_backends snap i.route o.route).0 (λ b m. m));
  }

module _ (parse : ParseDuration) (selects : Selects) (snap : Snapshot) where
  abbrev claims : Map String ClassClaim
  claims = claim_classes parse snap

  abbrev results : Results
  results = bind_routes selects snap claims

  -- With what ClaimClasses and BindRoutes give, buildTable does not dereference a nil spec, and in a table that
  -- it returns each upstream is for a route of the snapshot that is accepted at some Gateway: it has the modules
  -- of that route and the address of one of the backends that ResolveBackends gives for it.
  pub build_table-Safe :
      Safe (λ c. Values (Serves snap results) c.upstreams) (build_table claims parse snap results)
  unfolding build_table
  build_table-Safe =
      build_server_config-Safe (Serves snap results) parse (primary_config claims snap)
        (route_inputs claims snap results snap.rsync_routes)
        (All-map (Origin snap claims results) (Prepared (Serves snap results))
          (Origin-Prepared snap claims results) (route_inputs claims snap results snap.rsync_routes)
          (route_inputs-Origin snap claims results (bind_routes-Configured parse selects snap)
            snap.rsync_routes (λ key route m. m)))

  -- In particular there is no nil dereference.
  pub build_table-no_nil : ¬ (build_table claims parse snap results ≡ err nil_dereference)
  build_table-no_nil e =
      subst (Safe (λ c. Values (Serves snap results) c.upstreams)) e build_table-Safe
