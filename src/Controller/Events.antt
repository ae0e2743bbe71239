-- ===== src/Controller/Events.antt =====
-- emitRouteEvents of internal/controller/reconciler.go: the warnings for the parents that turned a route away.
use rsync_gateway.Prelude.{
  ℕ, suc, Bool, true, not, ◌&&◌, List, [], ◌∷◌, ◌++◌, Option, none, some, if◌then◌else◌,
}
use rsync_gateway.Prelude.Keys.{◌==◌, String_eq, ℕ_eq, Map, lookup}
use rsync_gateway.Prelude.Text.{◌^^◌, quote}
use rsync_gateway.Gateway.Objects.{NamespacedName, NamespacedName_eq, Condition, RsyncRoute}
use rsync_gateway.Gateway.Bind.{ParentResult}
use rsync_gateway.Gateway.Conditions.{parent_ref_string}
use rsync_gateway.Controller.Steps.{Effect, warned, Cluster, Step, crashed, unchanged}

-- The test of emitRouteEvents on the condition before.
pub is_news : ParentResult → Option Condition → Bool
is_news res none = true
is_news res (some prev) =
    not (prev.status == "False" && prev.reason == res.reason && prev.message == res.message)

module _ (cluster : Cluster) where
  -- Recorder.Eventf, which panics where the Recorder is nil.
  unfoldable pub eventf : Effect → RsyncRoute → List Effect → Step RsyncRoute
  eventf event route effects =
      if cluster.has_recorder
      then unchanged route (effects ++ event ∷ [])
      else record { value = route; effects = effects; halt = some crashed }

  -- emitRouteEvents from index `i` on
  unfoldable pub events_from :
      NamespacedName
      → ℕ
      → List ParentResult
      → Map ℕ Condition
      → RsyncRoute
      → List Effect
      → Step RsyncRoute
  events_from key i [] previous route effects = unchanged route effects
  events_from key i (res ∷ results) previous route effects =
      let rest = events_from key (suc i) results previous route in
      if res.accepted
      then rest effects
      else if not (is_news res (lookup i previous))
      then rest effects
      else let event =
          warned key res.reason
            ("parent " ^^ quote (parent_ref_string res.parent_ref) ^^ ": " ^^ res.message) in
        let s = eventf event route effects in elim s.halt [ some _ ↦ s | none ↦ rest s.effects ]

  -- emitRouteEvents
  unfoldable pub emit_route_events :
      NamespacedName
      → List ParentResult
      → Map ℕ Condition
      → RsyncRoute
      → List Effect
      → Step RsyncRoute
  emit_route_events key results previous route effects =
      if not cluster.has_recorder
      then unchanged route effects
      else events_from key 0 results previous route effects
