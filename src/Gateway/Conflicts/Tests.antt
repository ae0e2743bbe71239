-- ===== src/Gateway/Conflicts/Tests.antt =====
-- Two routes on one Gateway whose modules differ, and the theorem on resolveModuleConflicts at them.
use rsync_gateway.Prelude.{◌≡◌, refl, true, false, [], ◌∷◌, none, inl}
use rsync_gateway.Prelude.Keys.{String_eq, lookup, insert}
use rsync_gateway.Gateway.Objects.{
  NamespacedName, NamespacedName_eq, ParentReference, RsyncRoute, Snapshot,
}
use rsync_gateway.Gateway.Bind.{ParentResult}
use rsync_gateway.Gateway.Conflicts.{
  Results, resolve_module_conflicts, settle_all, bound_routes, bind_once, settle, sort_routes,
  place, before, first_claimed, own_modules, modules_of, effective_modules, conflict_message,
  reject_route, reject_found, conflicted,
}
use rsync_gateway.Gateway.Conflicts.Settle.{Apart}
use rsync_gateway.Gateway.Conflicts.Winners.{Outcome}
use rsync_gateway.Gateway.Conflicts.Older.{resolve_module_conflicts-Outcome}
use rsync_gateway.Gateway.Conflicts.Disjoint.{resolve_module_conflicts-Apart}

abbrev edge : NamespacedName
edge = record { namespace = "mirrors"; name = "edge" }

abbrev parent : ParentReference
parent = record {
  group = none;
  kind = none;
  namespace = none;
  name = "edge";
  section_name = none;
  port = none;
}

abbrev route : RsyncRoute
route = record {
  key = record { namespace = "mirrors"; name = "debian" };
  generation = 1;
  creation_timestamp = 5;
  labels = [];
  parent_refs = parent ∷ [];
  module_names = [];
  backend_refs = [];
  parents = [];
}

abbrev other : RsyncRoute
other = record route {
  key = record { namespace = "mirrors"; name = "fedora" };
  creation_timestamp = 9;
  module_names = "fedora" ∷ "epel" ∷ [];
}

abbrev bound : ParentResult
bound = record {
  parent_ref = parent;
  gateway = edge;
  listener = none;
  accepted = true;
  reason = "Accepted";
  message = "";
}

abbrev snap : Snapshot
snap = record {
  gateway_classes = [];
  gateway_configs = [];
  gateways = [];
  rsync_routes = (route.key, route) ∷ (other.key, other) ∷ [];
  services = [];
  reference_grants = [];
}

abbrev results : Results
results = (route.key, bound ∷ []) ∷ (other.key, bound ∷ []) ∷ []

-- A third route, younger, that wants a module of the second.
abbrev late : RsyncRoute
late = record other {
  key = record { namespace = "mirrors"; name = "late" };
  creation_timestamp = 12;
  module_names = "epel" ∷ [];
}

resolve_module_conflicts-Apart_example : Apart snap route.key other.key
unfolding resolve_module_conflicts settle_all bound_routes bind_once settle sort_routes place before
    first_claimed own_modules modules_of effective_modules lookup insert reject_route reject_found
    conflicted
resolve_module_conflicts-Apart_example =
    resolve_module_conflicts-Apart snap results edge route.key other.key
      (λ e. cc ((NamespacedName_eq.eqb_iff route.key other.key).1 e)) (inl (refl, refl))
      (inl (refl, refl))

rejects_late :
    resolve_module_conflicts
      (record snap { rsync_routes = (late.key, late) ∷ (other.key, other) ∷ [] })
      ((late.key, bound ∷ []) ∷ (other.key, bound ∷ []) ∷ [])
    ≡ (
      late.key,
      record bound {
        accepted = false;
        reason = "ModuleConflicted";
        message = conflict_message edge other.key "epel";
      }
          ∷ [],
    )
      ∷ (other.key, bound ∷ [])
      ∷ []
unfolding resolve_module_conflicts settle_all bound_routes bind_once settle sort_routes place before
    first_claimed own_modules modules_of effective_modules lookup insert reject_route reject_found
    conflicted
rejects_late = refl

abbrev late_snap : Snapshot
late_snap = record snap { rsync_routes = (late.key, late) ∷ (other.key, other) ∷ [] }

abbrev late_results : Results
late_results = (late.key, bound ∷ []) ∷ (other.key, bound ∷ []) ∷ []

resolve_module_conflicts-Outcome_example :
    Outcome late_snap edge (resolve_module_conflicts late_snap late_results) late.key
unfolding lookup
resolve_module_conflicts-Outcome_example =
    resolve_module_conflicts-Outcome late_snap late_results edge late.key
      (((λ e. cc ((NamespacedName_eq.eqb_iff late.key other.key).1 e)), tt), (tt, tt))
      (inl (refl, refl))
