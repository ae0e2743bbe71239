-- ===== src/Controller/Tests.antt =====
-- A cluster with one Gateway and one route, and the theorems on internal/controller at it.
use mathlib.Core.Option
use rsync_gateway.Prelude.{
  ◌≡◌, ◌↔◌, Option, String, true, false, [], ◌∷◌, none, some, ok, err, if◌then◌else◌,
}
use rsync_gateway.Prelude.Int.{pos}
use rsync_gateway.Prelude.Keys.{◌==◌, String_eq, Map}
use rsync_gateway.Api.{
  GatewayConfigSpec, ParseDuration, group_name, protocol_rsync, controller_name,
}
use rsync_gateway.Gateway.Objects.{
  Condition, ParentReference, Gateway, GatewayClass, GatewayConfig, RsyncRoute, BackendRef,
  Snapshot,
}
use rsync_gateway.Gateway.Claim.{ClassClaim, claim_classes}
use rsync_gateway.Gateway.Bind.{Selects}
use rsync_gateway.Gateway.Conflicts.{bind_routes}
use rsync_gateway.Gateway.Conditions.Lone.{Lone}
use rsync_gateway.Translate.Origins.{Safe, Values}
use rsync_gateway.Controller.{build_table}
use rsync_gateway.Controller.Table.{Serves, build_table-Safe}
use rsync_gateway.Controller.Steps.{Cluster}
use rsync_gateway.Controller.Statuses.{conditions_update, write_statuses}
use rsync_gateway.Controller.Statuses.Returns.{Calm}
use rsync_gateway.Controller.Statuses.Again.{conditions_update_again}
use rsync_gateway.Controller.Reconcile.{Reader, reconcile, panicked, reconcile-returned}

abbrev parse : ParseDuration
parse d = if d == "30s" then ok (pos 30000000000) else err "unknown"

abbrev selects : Selects
selects s labels = ok true

abbrev spec : GatewayConfigSpec
spec = record {
  motd = some "hello";
  relay_idle_timeout = some "30s";
  relay_max_duration = none;
  tcp_keep_alive = none;
  dial_timeout = none;
  per_ip_max_active_connections = none;
  max_active_connections = some (pos 4);
  max_queued_connections = none;
  throughput_floor = none;
}

abbrev class : GatewayClass
class = record {
  name = "rsync";
  generation = 1;
  controller_name = controller_name;
  parameters_ref =
      some record { group = group_name; kind = "GatewayConfig"; name = "main"; namespace = none };
  conditions = [];
}

abbrev gateway : Gateway
gateway = record {
  key = record { namespace = "mirrors"; name = "edge" };
  generation = 1;
  class_name = "rsync";
  listeners =
      record {
        name = "rsync";
        port = 873;
        protocol = protocol_rsync;
        has_tls = false;
        allowed_routes = none;
      }
      ∷ [];
  conditions = [];
  listener_statuses = [];
}

abbrev parent : ParentReference
parent = record {
  group = none;
  kind = none;
  namespace = none;
  name = "edge";
  section_name = none;
  port = none;
}

abbrev backend : BackendRef
backend = record {
  group = none;
  kind = none;
  namespace = none;
  name = "disk";
  port = some 873;
  weight = none;
}

abbrev route : RsyncRoute
route = record {
  key = record { namespace = "mirrors"; name = "debian" };
  generation = 1;
  creation_timestamp = 5;
  labels = [];
  parent_refs = parent ∷ [];
  module_names = [];
  backend_refs = backend ∷ [];
  parents = [];
}

abbrev reader : Reader
reader = record {
  classes = ok (class ∷ []);
  configs = ok (record { name = "main"; generation = 1; spec = spec; conditions = [] } ∷ []);
  gateways = ok (gateway ∷ []);
  routes = ok (route ∷ []);
  services = ok (record { key = record { namespace = "mirrors"; name = "disk" } } ∷ []);
  grants = ok [];
}

abbrev snap : Snapshot
snap = record {
  gateway_classes = ("rsync", class) ∷ [];
  gateway_configs =
      ("main", record { name = "main"; generation = 1; spec = spec; conditions = [] }) ∷ [];
  gateways = (gateway.key, gateway) ∷ [];
  rsync_routes = (route.key, route) ∷ [];
  services =
      (
        record { namespace = "mirrors"; name = "disk" },
        record { key = record { namespace = "mirrors"; name = "disk" } },
      )
      ∷ [];
  reference_grants = [];
}

build_table-Safe_example :
    Safe
      (λ c. Values (Serves snap (bind_routes selects snap (claim_classes parse snap))) c.upstreams)
      (build_table
        (claim_classes parse snap)
        parse
        snap
        (bind_routes selects snap (claim_classes parse snap)))
build_table-Safe_example = build_table-Safe parse selects snap

-- The first update is answered with a conflict.
abbrev cluster : Cluster
cluster = record {
  now = λ c. 7;
  update = λ done e. elim done [
    | [] ↦ some record { is_not_found = false; message = "conflict" }
    | _ ∷ _ ↦ none
  ];
  has_recorder = true;
  bind_addrs = "0.0.0.0:873" ∷ [];
}

-- A claim with a config that the snapshot lacks, behind one without a config.
abbrev strays : Map String ClassClaim
strays =
    ("rsync", stray none)
    ∷ ("other", stray (some record { name = "gone"; generation = 1; spec = spec; conditions = [] }))
    ∷ []
  where
    stray : Option GatewayConfig → ClassClaim
    stray config = record {
      name = "rsync";
      claimed = true;
      accepted = true;
      reason = "Accepted";
      message = "";
      config = config;
    }

reconcile-returned_example :
    ¬ ((reconcile parse selects (λ config. none) cluster reader).0 ≡ panicked)
    × Calm (write_statuses cluster strays [] (some "invalid") snap []).halt
reconcile-returned_example =
    reconcile-returned parse selects (λ config. none) cluster reader strays [] (some "invalid") snap
      []

abbrev pending : Condition
pending = record {
  kind = "Accepted";
  status = "Unknown";
  reason = "Pending";
  message = "";
  observed_generation = 0;
  last_transition_time = 1;
}

abbrev accepted : Condition
accepted = record pending { status = "True"; reason = "Accepted"; observed_generation = 1 }

conditions_update_again_example :
    (Option.bind
        (conditions_update (λ c. 7) (pending ∷ []) accepted)
        (λ cs. conditions_update (λ c. 9) cs accepted)
      ≡ none)
    ↔ Lone "Accepted" (pending ∷ [])
conditions_update_again_example = conditions_update_again (λ c. 7) (λ c. 9) (pending ∷ []) accepted
