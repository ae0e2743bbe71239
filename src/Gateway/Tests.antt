-- ===== src/Gateway/Tests.antt =====
-- A cluster with one Gateway, two routes and a Service in another namespace, and the theorems on
-- internal/gateway at it.
use mathlib.Core.Option
use rsync_gateway.Prelude.{
  ◌≡◌, refl, ◌↔◌, true, false, [], ◌∷◌, none, some, String, ok, err, All, Any, ℕ, keep_if,
  if◌then◌else◌,
}
use rsync_gateway.Prelude.Int.{pos}
use rsync_gateway.Prelude.Keys.{◌==◌, String_eq, lookup}
use rsync_gateway.Api.{
  GatewayConfigSpec, ParseDuration, group_name, protocol_rsync, route_kind, core_group,
  controller_name, validate,
}
use rsync_gateway.Api.Validation.{IsValidSpec, validate_iff}
use rsync_gateway.Gateway.Objects.{
  NamespacedName_eq, Condition, ParentReference, Listener, Gateway, GatewayClass, GatewayConfig,
  RsyncRoute, BackendRef, ReferenceGrant, Snapshot, grants_of,
}
use rsync_gateway.Gateway.Claim.{claim_classes}
use rsync_gateway.Gateway.Claim.Accepts.{Resolves, accepted_with, claim_classes_iff}
use rsync_gateway.Gateway.Backends.{BackendStatus, reference_grant_permits, resolve_backends}
use rsync_gateway.Gateway.Backends.Grants.{Permits, reference_grant_permits_iff}
use rsync_gateway.Gateway.Backends.Resolves.{Pool, Resolvable, resolve_backends-Pool}
use rsync_gateway.Gateway.Conditions.{
  merge_conditions, listener_statuses_equal, parent_statuses_equal,
}
use rsync_gateway.Gateway.Conditions.Merge.{of_kind, or_else, of_kind-merge_conditions}
use rsync_gateway.Gateway.Status.{build_gateway_status, build_route_status}
use rsync_gateway.Gateway.Status.Routes.{
  is_foreign, foreign-build_route_status, build_route_status-again,
}
use rsync_gateway.Gateway.Status.Gateways.{build_gateway_status-again}
use rsync_gateway.Gateway.Bind.{ParentResult, Selects, listener_allows, bind_parent}
use rsync_gateway.Gateway.Bind.Allows.{Allows, listener_allows_iff}
use rsync_gateway.Gateway.Bind.Attach.{Attachable, bind_parent_iff}

-- A parser that knows one text.
abbrev parse : ParseDuration
parse d = if d == "30s" then ok (pos 30000000000) else err "unknown"

-- A selector matches when it is empty.
abbrev selects : Selects
selects s labels = elim s.match_labels [ [] ↦ ok true | _ ∷ _ ↦ ok false ]

abbrev spec : GatewayConfigSpec
spec = record {
  motd = some "hello";
  relay_idle_timeout = some "30s";
  relay_max_duration = none;
  tcp_keep_alive = none;
  dial_timeout = none;
  per_ip_max_active_connections = some (pos 2);
  max_active_connections = none;
  max_queued_connections = none;
  throughput_floor = none;
}

validate_iff_example : (validate parse spec ≡ ok tt) ↔ IsValidSpec parse spec
validate_iff_example = validate_iff parse spec

abbrev config : GatewayConfig
config = record { name = "main"; generation = 1; spec = spec; conditions = [] }

abbrev class : GatewayClass
class = record {
  name = "rsync";
  generation = 1;
  controller_name = controller_name;
  parameters_ref =
      some record { group = group_name; kind = "GatewayConfig"; name = "main"; namespace = none };
  conditions = [];
}

abbrev listener : Listener
listener = record {
  name = "rsync";
  port = 873;
  protocol = protocol_rsync;
  has_tls = false;
  allowed_routes = none;
}

abbrev gateway : Gateway
gateway = record {
  key = record { namespace = "mirrors"; name = "edge" };
  generation = 1;
  class_name = "rsync";
  listeners = listener ∷ [];
  conditions = [];
  listener_statuses = [];
}

abbrev parent : ParentReference
parent = record {
  group = none;
  kind = none;
  namespace = none;
  name = "edge";
  section_name = none;
  port = none;
}

abbrev to : String → String → BackendRef
to namespace name = record {
  group = none;
  kind = none;
  namespace = some namespace;
  name = name;
  port = some 873;
  weight = none;
}

abbrev route : RsyncRoute
route = record {
  key = record { namespace = "mirrors"; name = "debian" };
  generation = 1;
  creation_timestamp = 5;
  labels = [];
  parent_refs = parent ∷ [];
  module_names = [];
  backend_refs = to "storage" "disk" ∷ to "mirrors" "gone" ∷ [];
  parents = [];
}

abbrev grant : ReferenceGrant
grant = record {
  namespace = "storage";
  from = record { group = group_name; kind = route_kind; namespace = "mirrors" } ∷ [];
  to = record { group = core_group; kind = "Service"; name = none } ∷ [];
}

abbrev snap : Snapshot
snap = record {
  gateway_classes = ("rsync", class) ∷ [];
  gateway_configs = ("main", config) ∷ [];
  gateways = (gateway.key, gateway) ∷ [];
  rsync_routes = (route.key, route) ∷ [];
  services =
      (
        record { namespace = "storage"; name = "disk" },
        record { key = record { namespace = "storage"; name = "disk" } },
      )
      ∷ [];
  reference_grants = ("storage", grant ∷ []) ∷ [];
}

claim_classes_iff_example :
    (Option.bind (lookup "rsync" (claim_classes parse snap)) accepted_with ≡ some config)
    ↔ ((class.controller_name ≡ controller_name) × Resolves parse snap class config)
unfolding lookup
claim_classes_iff_example = claim_classes_iff parse snap "rsync" class config refl

reference_grant_permits_iff_example :
    (reference_grant_permits snap "mirrors" "storage" "disk" ≡ true)
    ↔ Any (Permits "mirrors" "disk") (grants_of "storage" snap.reference_grants)
reference_grant_permits_iff_example = reference_grant_permits_iff snap "mirrors" "storage" "disk"

resolve_backends-Pool_example :
    Pool snap route.key route.backend_refs (resolve_backends snap route.key route).0
    × (((resolve_backends snap route.key route).1.resolved ≡ true)
        ↔ All (Resolvable snap route.key) route.backend_refs)
resolve_backends-Pool_example = resolve_backends-Pool snap route.key route

listener_allows_iff_example :
    ((listener_allows selects listener "mirrors" route.key route == "") ≡ true)
    ↔ Allows selects "mirrors" route.key route listener
listener_allows_iff_example = listener_allows_iff selects route.key route "mirrors" listener

bind_parent_iff_example :
    ((bind_parent selects snap (claim_classes parse snap) route.key route parent).accepted ≡ true)
    ↔ Attachable selects snap (claim_classes parse snap) route.key route parent
bind_parent_iff_example =
    bind_parent_iff selects snap (claim_classes parse snap) route.key route parent

abbrev condition : String → String → ℕ → Condition
condition kind status time = record {
  kind = kind;
  status = status;
  reason = "Accepted";
  message = "";
  observed_generation = 1;
  last_transition_time = time;
}

of_kind-merge_conditions_example :
    of_kind "Ready"
      (merge_conditions (condition "Ready" "True" 1 ∷ []) (condition "Accepted" "True" 2 ∷ []))
    ≡ or_else
        (of_kind "Ready" (condition "Accepted" "True" 2 ∷ []))
        (of_kind "Ready" (condition "Ready" "True" 1 ∷ []))
of_kind-merge_conditions_example =
    of_kind-merge_conditions "Ready" (condition "Ready" "True" 1 ∷ [])
      (condition "Accepted" "True" 2 ∷ [])

abbrev bound : ParentResult
bound = record {
  parent_ref = parent;
  gateway = gateway.key;
  listener = some listener;
  accepted = true;
  reason = "Accepted";
  message = "";
}

abbrev backends : BackendStatus
backends = record { resolved = true; reason = "ResolvedRefs"; message = "" }

abbrev at : ℕ → Condition → ℕ
at n c = n

build_route_status-again_example :
    parent_statuses_equal (build_route_status (at 1) route (bound ∷ []) backends) (
      build_route_status
        (at 2)
        (record route { parents = build_route_status (at 1) route (bound ∷ []) backends })
        (bound ∷ [])
        backends)
    ≡ true
build_route_status-again_example =
    build_route_status-again (at 1) (at 2) route (bound ∷ []) backends

foreign-build_route_status_example :
    keep_if is_foreign (build_route_status (at 1) route (bound ∷ []) backends)
    ≡ keep_if is_foreign route.parents
foreign-build_route_status_example = foreign-build_route_status (at 1) route backends (bound ∷ [])

build_gateway_status-again_example :
    listener_statuses_equal
      (build_gateway_status (at 1) gateway (873 ∷ [])).0
      (build_gateway_status
        (at 2)
        (record gateway {
          listener_statuses = (build_gateway_status (at 1) gateway (873 ∷ [])).0;
          conditions = (build_gateway_status (at 1) gateway (873 ∷ [])).1;
        })
        (873 ∷ [])).0
    ≡ true
build_gateway_status-again_example =
    build_gateway_status-again (at 1) (at 2) gateway (873 ∷ []) (tt, tt)
