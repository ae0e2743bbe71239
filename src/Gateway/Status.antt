-- ===== src/Gateway/Status.antt =====
-- internal/gateway/status.go: the statuses written to GatewayClasses, Gateways and routes. `now` is
-- the time that metav1.Now gives for a condition.
pub mod Routes
pub mod Gateways
use rsync_gateway.Prelude.{
  ℕ, ◌≡◌, Bool, true, false, not, ◌&&◌, ◌||◌, List, [], ◌∷◌, ◌++◌, map, Option, none, some, String,
  if◌then◌else◌, nat_eq, find_first, any_of, keep_if,
}
use rsync_gateway.Prelude.Keys.{◌==◌, String_eq}
use rsync_gateway.Prelude.Text.{◌^^◌, quote}
use rsync_gateway.Api.{controller_name, group_name, route_kind, protocol_rsync}
use rsync_gateway.Gateway.Objects.{
  NamespacedName, key_text, Condition, ListenerStatus, RouteGroupKind, RouteParentStatus,
  RouteNamespaces, AllowedRoutes, Listener, ParentReference, Gateway, GatewayClass, RsyncRoute,
}
use rsync_gateway.Gateway.Claim.{ClassClaim}
use rsync_gateway.Gateway.Backends.{BackendStatus}
use rsync_gateway.Gateway.Bind.{ParentResult}
use rsync_gateway.Gateway.Conditions.{
  stable_condition, merge_conditions, parent_refs_equal, own_entry,
}

-- conditionStatus
pub condition_status : Bool → String
condition_status true = "True"
condition_status false = "False"

-- A condition before StableCondition sets its time.
abbrev pub untimed : String → String → String → String → ℕ → Condition
untimed kind status reason message generation = record {
  kind = kind;
  status = status;
  reason = reason;
  message = message;
  observed_generation = generation;
  last_transition_time = 0;
}

-- ClassCondition
pub class_condition : Option GatewayClass → ClassClaim → Option Condition
class_condition none claim = none
class_condition (some gc) claim =
    if not claim.claimed
    then none
    else some (
        untimed "Accepted" (condition_status claim.accepted) claim.reason claim.message
          gc.generation)

-- isManagedListener
pub is_managed_listener : List Listener → String → Bool
is_managed_listener [] name = false
is_managed_listener (l ∷ ls) name =
    let rest = is_managed_listener ls name in
    if l.name == name then l.protocol == protocol_rsync else rest

pub namespaces_parse_error : RouteNamespaces → String → String
namespaces_parse_error ns from =
    if from == "All" || from == "Same"
    then ""
    else if from == "Selector"
    then elim ns.selector [
      | none ↦ "allowedRoutes.namespaces.from=Selector requires a selector"
      | some _ ↦ ""
    ]
    else "allowedRoutes.namespaces.from=" ^^ quote from ^^ " is not supported"

-- allowedRoutesParseError
pub allowed_routes_parse_error : Listener → String
allowed_routes_parse_error l = elim l.allowed_routes [
  | none ↦ ""
  | some a ↦ elim a.namespaces [
    | none ↦ ""
    | some ns ↦ elim ns.from [ none ↦ "" | some from ↦ namespaces_parse_error ns from ]
  ]
]

-- listenerAcceptedCondition
pub listener_accepted_condition : Gateway → Listener → Condition
listener_accepted_condition gw l =
    let why = allowed_routes_parse_error l in
    if l.has_tls
    then untimed "Accepted" "False" "TLSNotSupported"
        "rsync-gateway v0 does not terminate TLS on rsync listeners" gw.generation
    else if not (why == "")
    then untimed "Accepted" "False" "UnsupportedValue" why gw.generation
    else untimed "Accepted" "True" "Accepted" "listener is accepted" gw.generation

-- listenerProgrammedCondition
pub listener_programmed_condition : Gateway → Listener → List ℕ → Condition
listener_programmed_condition gw l served_ports =
    if any_of (λ p. nat_eq p l.port) served_ports
    then untimed "Programmed" "True" "Programmed" "listener port is served by the data plane"
        gw.generation
    else untimed "Programmed" "False" "RestartRequired"
        "listener port is not in the static bind set; restart the gateway to pick it up (v0 limitation)"
        gw.generation

abbrev pub supported : List RouteGroupKind
supported = record { group = some group_name; kind = route_kind } ∷ []

pub existing_listener : String → List ListenerStatus → List Condition
existing_listener name statuses = elim (find_first (λ ls. ls.name == name) statuses) [
  | none ↦ []
  | some ls ↦ ls.conditions
]

module _ (now : Condition → ℕ) where
  pub stabilise : List Condition → Condition → Condition
  stabilise existing cond = stable_condition (now cond) existing cond

  -- The body of listenerStatuses's loop.
  pub listener_status : Gateway → List ℕ → Listener → ListenerStatus
  listener_status gw served_ports l =
      let existing = existing_listener l.name gw.listener_statuses in
      record {
        name = l.name;
        attached_routes = 0;
        supported_kinds = supported;
        conditions = map (stabilise existing) (
            listener_accepted_condition gw l
            ∷ listener_programmed_condition gw l served_ports
            ∷ []);
      }

  -- listenerStatuses
  pub statuses_of : Gateway → List ℕ → List Listener → List ListenerStatus
  statuses_of gw served_ports [] = []
  statuses_of gw served_ports (l ∷ ls) =
      let rest = statuses_of gw served_ports ls in
      if not (l.protocol == protocol_rsync) then rest else listener_status gw served_ports l ∷ rest

  pub gateway_conditions : Gateway → List Condition
  gateway_conditions gw =
      untimed "Accepted" "True" "Accepted"
        ("GatewayClass " ^^ quote gw.class_name ^^ " is claimed and accepted") gw.generation
      ∷ untimed "Programmed" "True" "Programmed"
          ("routes bound to " ^^ gw.key.namespace ^^ "/" ^^ gw.key.name
            ^^ " are programmed into the data plane")
          gw.generation
      ∷ []

  -- BuildGatewayStatus: the listeners' statuses and the conditions.
  pub build_gateway_status : Gateway → List ℕ → List ListenerStatus × List Condition
  build_gateway_status gw served_ports = (
    keep_if (λ ls. not (is_managed_listener gw.listeners ls.name)) gw.listener_statuses
        ++ statuses_of gw served_ports gw.listeners,
    merge_conditions gw.conditions (map (stabilise gw.conditions) (gateway_conditions gw)),
  )

  -- findExistingConditions
  pub find_existing_conditions : RsyncRoute → ParentReference → List Condition
  find_existing_conditions route ref = elim (own_entry ref route.parents) [
    | none ↦ []
    | some p ↦ p.conditions
  ]

  -- The body of BuildRouteStatus's second loop.
  pub parent_status : RsyncRoute → BackendStatus → ParentResult → RouteParentStatus
  parent_status route backends res =
      let existing = find_existing_conditions route res.parent_ref in
      let accepted = stabilise existing (
        untimed "Accepted" (condition_status res.accepted) res.reason res.message
          route.generation) in
      let resolved = stabilise existing (
        untimed "ResolvedRefs" (condition_status backends.resolved) backends.reason backends.message
          route.generation) in
      record {
        parent_ref = res.parent_ref;
        controller_name = controller_name;
        conditions = if res.accepted then accepted ∷ resolved ∷ [] else accepted ∷ [];
      }

  -- BuildRouteStatus
  pub build_route_status : RsyncRoute → List ParentResult → BackendStatus → List RouteParentStatus
  build_route_status route results backends =
      keep_if (λ p. not (p.controller_name == controller_name)) route.parents
      ++ map (parent_status route backends) results
