-- ===== src/Controller/Reconcile.antt =====
-- Reconcile of internal/controller/reconciler.go: one rebuild of the table and the statuses.
use rsync_gateway.Prelude.{
  ◌≡◌, refl, List, [], ◌∷◌, map, Option, none, some, String, Result, ok, err, ◌>>=◌,
}
use rsync_gateway.Prelude.Keys.{Map}
use rsync_gateway.Prelude.Text.{◌^^◌}
use rsync_gateway.Api.{ParseDuration}
use rsync_gateway.Gateway.Objects.{
  GatewayClass, GatewayConfig, Gateway, RsyncRoute, Service, ReferenceGrant, Snapshot, new_snapshot,
}
use rsync_gateway.Gateway.Claim.{ClassClaim, claim_classes}
use rsync_gateway.Gateway.Bind.{Selects}
use rsync_gateway.Gateway.Conflicts.{Results, bind_routes}
use rsync_gateway.Server.{Config}
use rsync_gateway.Translate.{Failure, rejected, nil_dereference, prefixed}
use rsync_gateway.Controller.{build_table}
use rsync_gateway.Controller.Steps.{Effect, applied, Cluster, Halt, failed, crashed}
use rsync_gateway.Controller.Statuses.{write_statuses}
use rsync_gateway.Controller.Statuses.Returns.{Calm, write_statuses-Calm}
use rsync_gateway.Controller.Table.{build_table-no_nil}

-- What the client's List gives for each kind.
pub record Reader : Type 0 where
  pub classes : Result String (List GatewayClass)
  pub configs : Result String (List GatewayConfig)
  pub gateways : Result String (List Gateway)
  pub routes : Result String (List RsyncRoute)
  pub services : Result String (List Service)
  pub grants : Result String (List ReferenceGrant)

abbrev pub pointers : {A : Type 0} → List A → List (Option A)
pointers xs = map some xs

-- readSnapshot
pub read_snapshot : Reader → Result String Snapshot
read_snapshot r = do
  classes ← prefixed "list *v1.GatewayClass: " r.classes
  configs ← prefixed "list *v1alpha1.GatewayConfig: " r.configs
  gateways ← prefixed "list *v1.Gateway: " r.gateways
  routes ← prefixed "list *v1alpha1.RsyncRoute: " r.routes
  services ← prefixed "list *v1.Service: " r.services
  grants ← prefixed "list *v1.ReferenceGrant: " r.grants
  ok (
      new_snapshot (pointers classes) (pointers configs) (pointers gateways) (pointers routes)
        (pointers services) (pointers grants))

-- How Reconcile ends: with an error or nil, or with a panic.
pub data Ending : Type 0 where
  returned : Option String → Ending
  panicked : Ending

abbrev pub or_failure : Option String → Option String → Option String
or_failure none e = e
or_failure (some why) e = some why

-- The error that Reconcile had before writeStatuses, and how writeStatuses ended.
pub reconcile_ending : Option String → Option Halt → Ending
reconcile_ending e none = returned e
reconcile_ending e (some (failed why)) = returned (or_failure e (some why))
reconcile_ending e (some crashed) = panicked

module _ (parse_duration : ParseDuration) (selects : Selects) (apply : Config → Option String)
    (cluster : Cluster) where
  -- Reconcile from the computed table on
  pub reconcile_table :
      Snapshot → Map String ClassClaim → Results → Result Failure Config → Ending × List Effect
  reconcile_table snap claims results (err nil_dereference) = (panicked, [])
  reconcile_table snap claims results (err (rejected e)) =
      let s = write_statuses cluster claims results (some e) snap [] in
      (reconcile_ending none s.halt, s.effects)
  reconcile_table snap claims results (ok table) =
      let s = write_statuses cluster claims results (apply table) snap (applied table ∷ []) in
      (reconcile_ending (apply table) s.halt, s.effects)

  pub reconcile_snapshot : Snapshot → Ending × List Effect
  reconcile_snapshot snap =
      let claims = claim_classes parse_duration snap in
      let results = bind_routes selects snap claims in
      reconcile_table snap claims results (build_table claims parse_duration snap results)

  -- Reconcile
  pub reconcile : Reader → Ending × List Effect
  reconcile reader = elim (read_snapshot reader) [
    | err e ↦ (returned (some ("read cluster state: " ^^ e)), [])
    | ok snap ↦ reconcile_snapshot snap
  ]

  reconcile_ending-returned :
      (e : Option String) (halt : Option Halt) → Calm halt → ¬ (reconcile_ending e halt ≡ panicked)
  unfolding reconcile_ending
  reconcile_ending-returned e none c h = cc h
  reconcile_ending-returned e (some (failed why)) c h = cc h
  reconcile_ending-returned e (some crashed) c h = c

  table-returned :
      (snap : Snapshot) (claims : Map String ClassClaim) (results : Results)
      (r : Result Failure Config)
      → ¬ (r ≡ err nil_dereference)
      → ¬ ((reconcile_table snap claims results r).0 ≡ panicked)
  unfolding reconcile_table
  table-returned snap claims results (err nil_dereference) n h = n refl
  table-returned snap claims results (err (rejected e)) n h =
      reconcile_ending-returned none _ (write_statuses-Calm cluster claims results (some e) snap [])
        h
  table-returned snap claims results (ok table) n h =
      reconcile_ending-returned (apply table) _
        (write_statuses-Calm cluster claims results (apply table) snap (applied table ∷ [])) h

  snapshot-returned : (reader : Reader) → ¬ ((reconcile reader).0 ≡ panicked)
  unfolding reconcile reconcile_snapshot
  snapshot-returned reader = by_snapshot (read_snapshot reader) refl
    where
      by_snapshot :
          (r : Result String Snapshot)
          → read_snapshot reader ≡ r
          → ¬ ((reconcile reader).0 ≡ panicked)
      by_snapshot (err e) f h = cc (rw (f, reconcile) at h)
      by_snapshot (ok snap) f h =
          table-returned snap _ _ _ (build_table-no_nil parse_duration selects snap)
            (rw (f, reconcile) at h)

  -- Whatever the cluster holds, and however it, the data plane and the selectors answer, Reconcile does not panic. Nor
  -- does writeStatuses, which guards each pointer that it uses, also with claims and results that do not fit the
  -- snapshot, and with or without a Recorder: it goes through or returns an error.
  pub reconcile-returned :
      (reader : Reader) (claims : Map String ClassClaim) (results : Results)
      (apply_error : Option String) (snap : Snapshot) (effects : List Effect)
      → ¬ ((reconcile reader).0 ≡ panicked)
        × Calm (write_statuses cluster claims results apply_error snap effects).halt
  reconcile-returned reader claims results apply_error snap effects = (
    snapshot-returned reader,
    write_statuses-Calm cluster claims results apply_error snap effects,
  )
