-- ===== src/Controller/Statuses.antt =====
-- writeStatuses of internal/controller/reconciler.go: which statuses are written, in which order, and the events
-- that go with them.
pub mod Again
pub mod Returns
use rsync_gateway.Prelude.{
  ℕ, suc, Bool, true, false, not, ◌&&◌, ◌||◌, List, [], ◌∷◌, ◌++◌, Option, none, some, String,
  if◌then◌else◌, get_or, any_of,
}
use rsync_gateway.Prelude.Keys.{◌==◌, String_eq, ℕ_eq, Map, lookup, insert}
use rsync_gateway.Prelude.Text.{◌^^◌, quote}
use rsync_gateway.Gateway.Objects.{
  NamespacedName, NamespacedName_eq, key_text, Condition, Gateway, GatewayClass, GatewayConfig,
  RsyncRoute, RouteParentStatus, Snapshot,
}
use rsync_gateway.Gateway.Claim.{ClassClaim}
use rsync_gateway.Gateway.Backends.{BackendStatus, resolve_backends}
use rsync_gateway.Gateway.Bind.{ParentResult}
use rsync_gateway.Gateway.Conflicts.{Results}
use rsync_gateway.Gateway.Conditions.{
  conditions_equal, merge_conditions, listener_statuses_equal, parent_statuses_equal,
  parent_ref_string, find_parent_conditions,
}
use rsync_gateway.Gateway.Status.{
  untimed, class_condition, stabilise, build_gateway_status, build_route_status,
}
use rsync_gateway.Gateway.Ports.{served_ports}
use rsync_gateway.Server.{Config}
use rsync_gateway.Controller.{managing_claim}
use rsync_gateway.Controller.Events.{emit_route_events}
use rsync_gateway.Controller.Steps.{
  Effect, wrote_class, wrote_gateway, wrote_route, wrote_config, warned, UpdateError, Cluster, Step,
  failed, crashed, unchanged, dereference, is_nil, over, put, and_then,
}

-- The conditions of a status that is wanted to have `cond`, unless it has just this one.
pub conditions_update : (Condition → ℕ) → List Condition → Condition → Option (List Condition)
conditions_update now existing cond =
    let stable = stabilise now existing cond in
    if conditions_equal existing (stable ∷ [])
    then none
    else some (merge_conditions existing (stable ∷ []))

-- `claims[name]`, with the zero value where it is missing.
pub claim_at : String → Map String ClassClaim → ClassClaim
claim_at name claims = get_or (lookup name claims) (record {
  name = "";
  claimed = false;
  accepted = false;
  reason = "";
  message = "";
  config = none;
})

-- routeAccepted
pub route_accepted : List ParentResult → Bool
route_accepted results = any_of (λ (r : ParentResult). r.accepted) results

pub config_condition : Option String → GatewayConfig → Condition
config_condition none config =
    untimed "Accepted" "True" "Accepted" "configuration applied to the data plane" config.generation
config_condition (some e) config =
    untimed "Accepted" "False" "Invalid" ("failed to apply data-plane configuration: " ^^ e)
      config.generation

module _ (cluster : Cluster) where
  -- An update of a status, and the error with which its failure ends the function.
  pub save : {V : Type 0} → String → (V → Effect) → V → List Effect → Step V
  save what wrote v effects = record {
    value = v;
    effects = effects ++ wrote v ∷ [];
    halt = elim (cluster.update effects (wrote v)) [
      | none ↦ none
      | some e ↦ some (failed ("update " ^^ what ^^ " status: " ^^ e.message))
    ];
  }

  -- The object that is written, if it is.
  pub class_update : Condition → GatewayClass → Option GatewayClass
  class_update cond gc = elim (conditions_update cluster.now gc.conditions cond) [
    | none ↦ none
    | some conditions ↦ some (record gc { conditions = conditions })
  ]

  pub gateway_update : List ℕ → Gateway → Option Gateway
  gateway_update ports gw =
      let (listeners, conditions) = build_gateway_status cluster.now gw ports in
      if conditions_equal gw.conditions conditions
        && listener_statuses_equal gw.listener_statuses listeners
      then none
      else some (record gw { conditions = conditions; listener_statuses = listeners })

  pub backend_status : Snapshot → NamespacedName → RsyncRoute → List ParentResult → BackendStatus
  backend_status snap key route results =
      if route_accepted results
      then (resolve_backends snap key route).1
      else record { resolved = true; reason = "ResolvedRefs"; message = "" }

  pub route_update : BackendStatus → List ParentResult → RsyncRoute → Option RsyncRoute
  route_update backends results route =
      let parents = build_route_status cluster.now route results backends in
      if not (parent_statuses_equal route.parents parents)
      then some (record route { parents = parents })
      else none

  pub config_update : Option String → GatewayConfig → Option GatewayConfig
  config_update apply_error config =
      elim (conditions_update cluster.now config.conditions (config_condition apply_error config)) [
        | none ↦ none
        | some conditions ↦ some (record config { conditions = conditions })
      ]

  pub write_class : Map String ClassClaim → String → GatewayClass → List Effect → Step GatewayClass
  write_class claims name gc effects =
      let cond = class_condition (some gc) (claim_at name claims) in
      if is_nil cond
      then unchanged gc effects
      else dereference cond gc effects (λ c. elim (class_update c gc) [
        | none ↦ unchanged gc effects
        | some gc' ↦ save ("GatewayClass " ^^ name) wrote_class gc' effects
      ])

  pub write_gateway :
      Map String ClassClaim → List ℕ → NamespacedName → Gateway → List Effect → Step Gateway
  write_gateway claims ports key gw effects = elim (managing_claim claims gw) [
    | none ↦ unchanged gw effects
    | some _ ↦ elim (gateway_update ports gw) [
      | none ↦ unchanged gw effects
      | some gw' ↦ save ("Gateway " ^^ key_text key) wrote_gateway gw' effects
    ]
  ]

  -- The update of a route, whose events follow unless it fails; that the route is gone is no failure.
  pub save_route :
      NamespacedName
      → List ParentResult
      → Map ℕ Condition
      → RsyncRoute
      → List Effect
      → Step RsyncRoute
  save_route key results old route effects =
      let written = effects ++ wrote_route route ∷ [] in
      let done = emit_route_events cluster key results old route written in
      elim (cluster.update effects (wrote_route route)) [
        | none ↦ done
        | some e ↦
            if not e.is_not_found
            then record {
              value = route;
              effects = written;
              halt =
                  some (failed ("update RsyncRoute " ^^ key_text key ^^ " status: " ^^ e.message));
            }
            else done
      ]

  pub write_route : Snapshot → Results → NamespacedName → RsyncRoute → List Effect → Step RsyncRoute
  write_route snap results key route effects = elim (lookup key results) [
    | none ↦ unchanged route effects
    | some perParent ↦
        elim (route_update (backend_status snap key route perParent) perParent route) [
          | none ↦ unchanged route effects
          | some route' ↦
              save_route key perParent (find_parent_conditions route.parents perParent) route'
                effects
        ]
  ]

  -- The update of a config under its name.
  pub save_config :
      Option String
      → Map String GatewayConfig
      → List Effect
      → String
      → GatewayConfig
      → Step (Map String GatewayConfig)
  save_config apply_error configs effects name config = elim (config_update apply_error config) [
    | none ↦ unchanged configs effects
    | some config' ↦
        let s = save ("GatewayConfig " ^^ name) wrote_config config' effects in
        record { value = insert name config' configs; effects = s.effects; halt = s.halt }
  ]

  -- The body of the loop over the claims: the configs are those of the snapshot.
  pub write_config :
      Option String
      → ClassClaim
      → Map String GatewayConfig
      → List Effect
      → Step (Map String GatewayConfig)
  write_config apply_error claim configs effects =
      if not claim.claimed || is_nil claim.config
      then unchanged configs effects
      else dereference claim.config configs effects (λ c.
        if is_nil (lookup c.name configs)
        then unchanged configs effects
        else dereference (lookup c.name configs) configs effects
            (save_config apply_error configs effects c.name))

  pub write_configs :
      Option String
      → Map String ClassClaim
      → Map String GatewayConfig
      → List Effect
      → Step (Map String GatewayConfig)
  write_configs apply_error [] configs effects = unchanged configs effects
  write_configs apply_error ((name, claim) ∷ claims) configs effects =
      let s = write_config apply_error claim configs effects in
      let rest = write_configs apply_error claims s.value s.effects in
      elim s.halt [ some _ ↦ s | none ↦ rest ]

  -- writeStatuses
  pub write_statuses :
      Map String ClassClaim → Results → Option String → Snapshot → List Effect → Step Snapshot
  write_statuses claims results apply_error snap effects =
      let ports = served_ports cluster.bind_addrs in
      let classes =
        put (λ m. record snap { gateway_classes = m })
          (over (write_class claims) snap.gateway_classes effects) in
      let gateways =
        and_then
          (λ (s : Snapshot) effects.
            put (λ m. record s { gateways = m })
              (over (write_gateway claims ports) s.gateways effects))
          classes in
      let routes =
        and_then
          (λ (s : Snapshot) effects.
            put (λ m. record s { rsync_routes = m })
              (over (write_route s results) s.rsync_routes effects))
          gateways in
      and_then
        (λ (s : Snapshot) effects.
          put (λ m. record s { gateway_configs = m })
            (write_configs apply_error claims s.gateway_configs effects))
        routes
