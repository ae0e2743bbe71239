-- ===== src/Gateway/Conflicts/Configured.antt =====
-- BindRoutes of internal/gateway/bind.go with the claims of ClaimClasses: a Gateway at which it accepts a
-- route is there, and its class has a GatewayConfig.
use rsync_gateway.Prelude.{◌≡◌, subst, sym, ◌∙◌, inl, inr, List, [], ◌∷◌, some, String, Bool-cases}
use rsync_gateway.Prelude.Keys.{◌==◌, String_eq, Map, lookup}
use rsync_gateway.Api.{ParseDuration}
use rsync_gateway.Gateway.Objects.{
  NamespacedName, NamespacedName_eq, Gateway, GatewayConfig, RsyncRoute, Snapshot, ParentReference,
}
use rsync_gateway.Gateway.Claim.{ClassClaim, claim_classes}
use rsync_gateway.Gateway.Claim.Configs.{claim_classes-config}
use rsync_gateway.Gateway.Bind.{Selects, gateway_key}
use rsync_gateway.Gateway.Bind.Attach.{Attachable, bind_parent_iff}
use rsync_gateway.Gateway.Bind.Points.{bind_parent-gateway}
use rsync_gateway.Gateway.Conflicts.{bind_refs, bind_each, bind_routes, resolve_module_conflicts}
use rsync_gateway.Gateway.Conflicts.Reject.{Holds, HoldsIn}
use rsync_gateway.Gateway.Conflicts.Settle.{settle_all_back}

-- A Gateway of the snapshot whose class has a claim with a config.
pub record Configured (snap : Snapshot) (claims : Map String ClassClaim) (g : NamespacedName)
    : Type 0 where
  pub gw : Gateway
  pub found : lookup g snap.gateways ≡ some gw
  pub claim : ClassClaim
  pub claims_class : lookup gw.class_name claims ≡ some claim
  pub config : GatewayConfig
  pub has_config : claim.config ≡ some config

module _ (parse : ParseDuration) (selects : Selects) (snap : Snapshot) where
  abbrev claims : Map String ClassClaim
  claims = claim_classes parse snap

  Attachable-Configured :
      (key : NamespacedName) (route : RsyncRoute) (ref : ParentReference)
      → Attachable selects snap claims key route ref
      → Configured snap claims (gateway_key key ref)
  Attachable-Configured key route ref a =
      let (c, e) =
        claim_classes-config parse snap a.gw.class_name a.claim a.claims_class a.accepted in
      record {
        gw = a.gw;
        found = a.found;
        claim = a.claim;
        claims_class = a.claims_class;
        config = c;
        has_config = e;
      }

  bind_refs-Configured :
      (g key : NamespacedName) (route : RsyncRoute) (refs : List ParentReference)
      → Holds g (bind_refs selects snap claims key route refs)
      → Configured snap claims g
  unfolding bind_refs
  bind_refs-Configured g key route [] h = absurd h
  bind_refs-Configured g key route (ref ∷ refs) (inl h) =
      subst (Configured snap claims)
        (sym (bind_parent-gateway selects snap claims key route ref h.0) ∙ h.1)
        (Attachable-Configured key route ref
          ((bind_parent_iff selects snap claims key route ref).0 h.0))
  bind_refs-Configured g key route (ref ∷ refs) (inr h) = bind_refs-Configured g key route refs h

  bind_each-Configured :
      (g key : NamespacedName) (routes : Map NamespacedName RsyncRoute)
      → HoldsIn g key (bind_each selects snap claims routes)
      → Configured snap claims g
  unfolding bind_each lookup
  bind_each-Configured g key [] h = absurd h
  bind_each-Configured g key ((k, route) ∷ routes) h = elim (Bool-cases (k == key)) [
    | inl e ↦ bind_refs-Configured g k route route.parent_refs (rw e at h)
    | inr e ↦ bind_each-Configured g key routes (rw e at h)
  ]

  -- A Gateway at which BindRoutes accepts a route has a config.
  pub bind_routes-Configured :
      (g key : NamespacedName)
      → HoldsIn g key (bind_routes selects snap claims)
      → Configured snap claims g
  unfolding bind_routes resolve_module_conflicts
  bind_routes-Configured g key h =
      bind_each-Configured g key snap.rsync_routes
        (settle_all_back snap _ (bind_each selects snap claims snap.rsync_routes) g key h)
