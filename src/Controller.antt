-- ===== src/Controller.antt =====
-- internal/controller/reconciler.go: the table for the data plane, made of what the routes are bound to.
pub mod Steps
pub mod Events
pub mod Statuses
pub mod Reconcile
pub mod Inputs
pub mod Table
mod Tests
use rsync_gateway.Prelude.{
  ℕ, Bool, true, false, not, ◌&&◌, ◌||◌, List, [], ◌∷◌, map, Option, none, some, String, Result,
  if◌then◌else◌, any_of, is_some,
}
use mathlib.Core.Option
use rsync_gateway.Prelude.Sort.{sort_by}
use rsync_gateway.Prelude.Keys.{◌==◌, String_eq, Map, lookup}
use rsync_gateway.Prelude.Text.{str_lt}
use rsync_gateway.Api.{GatewayConfigSpec, ParseDuration}
use rsync_gateway.Gateway.Objects.{
  NamespacedName, NamespacedName_eq, key_text, Gateway, GatewayConfig, RsyncRoute, Snapshot,
}
use rsync_gateway.Gateway.Claim.{ClassClaim}
use rsync_gateway.Gateway.Backends.{ResolvedBackend, resolve_backends}
use rsync_gateway.Gateway.Bind.{ParentResult}
use rsync_gateway.Gateway.Conflicts.{Results, effective_modules, slice_at}
use rsync_gateway.Server.{Config}
use rsync_gateway.Translate.{RouteBackend, RouteInput, Failure, build_server_config}

abbrev key_before : NamespacedName → NamespacedName → Bool
key_before a b = str_lt (key_text a) (key_text b)

-- boundGatewaysFor's loop.
pub accepted_gateways : List ParentResult → List NamespacedName → List NamespacedName
accepted_gateways [] seen = []
accepted_gateways (r ∷ rs) seen =
    let skipped = accepted_gateways rs seen in
    let taken = accepted_gateways rs (r.gateway ∷ seen) in
    if not r.accepted || any_of (λ g. g == r.gateway) seen then skipped else r.gateway ∷ taken

-- boundGatewaysFor
pub bound_gateways_for : List ParentResult → List NamespacedName
bound_gateways_for results = sort_by key_before (accepted_gateways results [])

-- primaryConfig and primaryGateway
pub record Primary : Type 0 where
  pub config : Option GatewayConfigSpec
  pub gateway : NamespacedName

abbrev pub spec_of : ClassClaim → Option GatewayConfigSpec
spec_of claim = Option.map (λ (c : GatewayConfig). c.spec) claim.config

abbrev pub route_backend : ResolvedBackend → RouteBackend
route_backend b = record { name = b.service.name; namespace = b.service.namespace; port = b.port }

module _ (claims : Map String ClassClaim) where
  -- The claim of a Gateway's class, where it is claimed and accepted.
  pub managing_claim : Gateway → Option ClassClaim
  managing_claim gw = elim (lookup gw.class_name claims) [
    | none ↦ none
    | some claim ↦ if not claim.claimed || not claim.accepted then none else some claim
  ]

  -- The body of the loop that finds the primary GatewayConfig.
  pub primary_step : NamespacedName → Option ClassClaim → Primary → Primary
  primary_step key none best = best
  primary_step key (some claim) best =
      if not (is_some best.config) || key_before key best.gateway
      then record { config = spec_of claim; gateway = key }
      else best

  pub primary_from : Map NamespacedName Gateway → Primary → Primary
  primary_from [] best = best
  primary_from ((key, gw) ∷ gateways) best =
      primary_from gateways (primary_step key (managing_claim gw) best)

  pub primary_config : Snapshot → Option GatewayConfigSpec
  primary_config snap =
      let none_yet : Primary = record {
        config = none;
        gateway = record { namespace = ""; name = "" };
      } in
      (primary_from snap.gateways none_yet).config

  -- The config of the first of the Gateways whose class has one.
  pub first_config : Snapshot → List NamespacedName → Option GatewayConfigSpec
  first_config snap [] = none
  first_config snap (g ∷ gs) =
      let rest = first_config snap gs in
      elim (lookup g snap.gateways) [
        | none ↦ rest
        | some gw ↦ elim (lookup gw.class_name claims) [
          | none ↦ rest
          | some claim ↦ elim claim.config [ none ↦ rest | some c ↦ some c.spec ]
        ]
      ]

  pub route_input : Snapshot → NamespacedName → RsyncRoute → List NamespacedName → RouteInput
  route_input snap key route gateways = record {
    route = key;
    modules = effective_modules route;
    backends = map route_backend (resolve_backends snap key route).0;
    config = first_config snap gateways;
  }

  -- The loop over the routes.
  pub route_inputs : Snapshot → Results → Map NamespacedName RsyncRoute → List RouteInput
  route_inputs snap results [] = []
  route_inputs snap results ((key, route) ∷ routes) =
      let rest = route_inputs snap results routes in
      elim (bound_gateways_for (slice_at key results)) [
        | [] ↦ rest
        | g ∷ gs ↦ route_input snap key route (g ∷ gs) ∷ rest
      ]

  -- buildTable
  pub build_table : ParseDuration → Snapshot → Results → Result Failure Config
  build_table parse_duration snap results =
      build_server_config parse_duration (primary_config snap)
        (route_inputs snap results snap.rsync_routes)
