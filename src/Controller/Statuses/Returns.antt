-- ===== src/Controller/Statuses/Returns.antt =====
-- writeStatuses of internal/controller/reconciler.go dereferences no nil pointer.
use rsync_gateway.Prelude.{
  ℕ, suc, ◌≡◌, true, List, [], ◌∷◌, ◌++◌, Option, none, some, String, if◌then◌else◌, Bool-cases,
  Option-cases, inl, inr,
}
use rsync_gateway.Prelude.Keys.{String_eq, ℕ_eq, Map, lookup}
use rsync_gateway.Prelude.Text.{◌^^◌}
use rsync_gateway.Gateway.Objects.{
  NamespacedName, NamespacedName_eq, key_text, Condition, Gateway, GatewayClass, GatewayConfig,
  RsyncRoute, Snapshot,
}
use rsync_gateway.Gateway.Claim.{ClassClaim}
use rsync_gateway.Gateway.Bind.{ParentResult}
use rsync_gateway.Gateway.Conflicts.{Results}
use rsync_gateway.Gateway.Conditions.{find_parent_conditions}
use rsync_gateway.Gateway.Ports.{served_ports}
use rsync_gateway.Gateway.Status.{class_condition}
use rsync_gateway.Controller.{managing_claim}
use rsync_gateway.Controller.Events.{eventf, events_from, emit_route_events, is_news}
use rsync_gateway.Controller.Steps.{
  Effect, Cluster, Step, Halt, failed, crashed, unchanged, dereference, is_nil, over, put, and_then,
  wrote_route, wrote_class, wrote_gateway, wrote_config,
}
use rsync_gateway.Controller.Statuses.{
  claim_at, save, class_update, gateway_update, backend_status, route_update, config_update,
  write_class, write_gateway, save_route, write_route, save_config, write_config, write_configs,
  write_statuses,
}

-- The function goes on or returns an error.
abbrev pub Calm : Option Halt → Type 0
Calm none = Unit
Calm (some (failed e)) = Unit
Calm (some crashed) = ⊥

-- A guard against nil, and the use of the pointer behind it.
guarded :
    {A V : Type 0} (o : Option A) (v : V) (effects : List Effect) (use_it : A → Step V)
    → ((a : A) → Calm (use_it a).halt)
    → Calm (if is_nil o then unchanged v effects else dereference o v effects use_it).halt
guarded none v effects use_it h = tt
guarded (some a) v effects use_it h = h a

over-Calm :
    {K V : Type 0} (body : K → V → List Effect → Step V)
    → ((k : K) (v : V) (effects : List Effect) → Calm (body k v effects).halt)
    → (m : Map K V) (effects : List Effect) → Calm (over body m effects).halt
unfolding over
over-Calm body h [] effects = tt
over-Calm body h ((k, v) ∷ m) effects = elim (Option-cases (body k v effects).halt) [
  | inl e ↦ rw (e, over) (over-Calm body h m (body k v effects).effects)
  | inr (halt, e) ↦ let c = h k v effects in rw (e, over) (rw e at c)
]

and_then-Calm :
    (next : Snapshot → List Effect → Step Snapshot) (s : Step Snapshot)
    → ((snap : Snapshot) (effects : List Effect) → Calm (next snap effects).halt)
    → Calm s.halt
    → Calm (and_then next s).halt
and_then-Calm next s h c = elim (Option-cases s.halt) [
  | inl e ↦ rw e (h s.value s.effects)
  | inr (halt, e) ↦ rw e (rw e at c)
]

module _ (cluster : Cluster) where
  save-Calm :
      {V : Type 0} (what : String) (wrote : V → Effect) (v : V) (effects : List Effect)
      → Calm (save cluster what wrote v effects).halt
  unfolding save
  save-Calm what wrote v effects = elim (Option-cases (cluster.update effects (wrote v))) [
    | inl e ↦ rw e tt
    | inr (x, e) ↦ rw e tt
  ]

  write_class-Calm :
      (claims : Map String ClassClaim) (name : String) (gc : GatewayClass) (effects : List Effect)
      → Calm (write_class cluster claims name gc effects).halt
  unfolding write_class
  write_class-Calm claims name gc effects =
      guarded (class_condition (some gc) (claim_at name claims)) gc effects _ (λ c.
        elim (Option-cases (class_update cluster c gc)) [
          | inl e ↦ rw e tt
          | inr (gc', e) ↦ rw e (save-Calm ("GatewayClass " ^^ name) wrote_class gc' effects)
        ])

  write_gateway-Calm :
      (claims : Map String ClassClaim) (ports : List ℕ) (key : NamespacedName) (gw : Gateway)
      (effects : List Effect)
      → Calm (write_gateway cluster claims ports key gw effects).halt
  unfolding write_gateway
  write_gateway-Calm claims ports key gw effects = elim (Option-cases (managing_claim claims gw)) [
    | inl e ↦ rw (e, write_gateway) tt
    | inr (claim, e) ↦ elim (Option-cases (gateway_update cluster ports gw)) [
      | inl f ↦ rw (e, f, write_gateway) tt
      | inr (gw', f) ↦
          rw (e, f, write_gateway)
            (save-Calm ("Gateway " ^^ key_text key) wrote_gateway gw' effects)
    ]
  ]

  events_from-Calm :
      cluster.has_recorder ≡ true
      → (key : NamespacedName) (i : ℕ) (results : List ParentResult) (previous : Map ℕ Condition)
        (route : RsyncRoute) (effects : List Effect)
      → Calm (events_from cluster key i results previous route effects).halt
  unfolding events_from eventf
  events_from-Calm on key i [] previous route effects = tt
  events_from-Calm on key i (res ∷ results) previous route effects =
      let rest = events_from-Calm on key (suc i) results previous route in
      elim (Bool-cases res.accepted) [
        | inl e ↦ simp e (rest effects)
        | inr e ↦ elim (Bool-cases (is_news res (lookup i previous))) [
          | inl f ↦ simp (e, f, on) (rest _)
          | inr f ↦ simp (e, f) (rest effects)
        ]
      ]

  emit_route_events-Calm :
      (key : NamespacedName) (results : List ParentResult) (previous : Map ℕ Condition)
      (route : RsyncRoute) (effects : List Effect)
      → Calm (emit_route_events cluster key results previous route effects).halt
  unfolding emit_route_events
  emit_route_events-Calm key results previous route effects =
      elim (Bool-cases cluster.has_recorder) [
        | inl e ↦
            simp (e, emit_route_events) (events_from-Calm e key 0 results previous route effects)
        | inr e ↦ simp (e, emit_route_events) tt
      ]

  save_route-Calm :
      (key : NamespacedName) (results : List ParentResult) (old : Map ℕ Condition)
      (route : RsyncRoute) (effects : List Effect)
      → Calm (save_route cluster key results old route effects).halt
  unfolding save_route
  save_route-Calm key results old route effects =
      let done = emit_route_events-Calm key results old route (effects ++ wrote_route route ∷ []) in
      elim (Option-cases (cluster.update effects (wrote_route route))) [
        | inl e ↦ rw (e, save_route) done
        | inr (x, e) ↦ elim (Bool-cases x.is_not_found) [
          | inl f ↦ rw (e, f, save_route) done
          | inr f ↦ rw (e, f, save_route) tt
        ]
      ]

  write_route-Calm :
      (snap : Snapshot) (results : Results) (key : NamespacedName) (route : RsyncRoute)
      (effects : List Effect)
      → Calm (write_route cluster snap results key route effects).halt
  unfolding write_route
  write_route-Calm snap results key route effects = elim (Option-cases (lookup key results)) [
    | inl e ↦ rw (e, write_route) tt
    | inr (rs, e) ↦
        elim (Option-cases
          (route_update cluster (backend_status cluster snap key route rs) rs route)) [
            | inl f ↦ rw (e, f, write_route) tt
            | inr (route', f) ↦
                rw (e, f, write_route)
                  (save_route-Calm key rs (find_parent_conditions route.parents rs) route' effects)
          ]
  ]

  save_config-Calm :
      (apply_error : Option String) (configs : Map String GatewayConfig) (effects : List Effect)
      (name : String) (config : GatewayConfig)
      → Calm (save_config cluster apply_error configs effects name config).halt
  unfolding save_config
  save_config-Calm apply_error configs effects name config =
      elim (Option-cases (config_update cluster apply_error config)) [
        | inl e ↦ rw (e, save_config) tt
        | inr (config', e) ↦
            rw (e, save_config) (save-Calm ("GatewayConfig " ^^ name) wrote_config config' effects)
      ]

  write_config-Calm :
      (apply_error : Option String) (claim : ClassClaim) (configs : Map String GatewayConfig)
      (effects : List Effect)
      → Calm (write_config cluster apply_error claim configs effects).halt
  unfolding write_config
  write_config-Calm apply_error claim configs effects = elim (Bool-cases claim.claimed) [
    | inr e ↦ rw (e, write_config) tt
    | inl e ↦
        rw (e, write_config)
          (guarded claim.config configs effects _ (λ c.
            guarded (lookup c.name configs) configs effects _
              (save_config-Calm apply_error configs effects c.name)))
  ]

  write_configs-Calm :
      (apply_error : Option String) (claims : Map String ClassClaim)
      (configs : Map String GatewayConfig) (effects : List Effect)
      → Calm (write_configs cluster apply_error claims configs effects).halt
  unfolding write_configs
  write_configs-Calm apply_error [] configs effects = tt
  write_configs-Calm apply_error ((name, claim) ∷ claims) configs effects =
      let s = write_config cluster apply_error claim configs effects in
      let c = write_config-Calm apply_error claim configs effects in
      elim (Option-cases s.halt) [
        | inl e ↦ rw (e, write_configs) (write_configs-Calm apply_error claims s.value s.effects)
        | inr (halt, e) ↦ rw (e, write_configs) c
      ]

  pub write_statuses-Calm :
      (claims : Map String ClassClaim) (results : Results) (apply_error : Option String)
      (snap : Snapshot) (effects : List Effect)
      → Calm (write_statuses cluster claims results apply_error snap effects).halt
  unfolding write_statuses
  write_statuses-Calm claims results apply_error snap effects =
      and_then-Calm configs _ (λ s e. write_configs-Calm apply_error claims s.gateway_configs e)
        (and_then-Calm routes _
          (λ s e.
            over-Calm (write_route cluster s results) (write_route-Calm s results) s.rsync_routes e)
          (and_then-Calm gateways _
            (λ s e.
              over-Calm (write_gateway cluster claims ports) (write_gateway-Calm claims ports)
                s.gateways e)
            (over-Calm (write_class cluster claims) (write_class-Calm claims) snap.gateway_classes
              effects)))
    where
      ports : List ℕ
      ports = served_ports cluster.bind_addrs

      gateways : Snapshot → List Effect → Step Snapshot
      gateways s e =
          put (λ m. record s { gateways = m })
            (over (write_gateway cluster claims ports) s.gateways e)

      routes : Snapshot → List Effect → Step Snapshot
      routes s e =
          put (λ m. record s { rsync_routes = m })
            (over (write_route cluster s results) s.rsync_routes e)

      configs : Snapshot → List Effect → Step Snapshot
      configs s e =
          put (λ m. record s { gateway_configs = m })
            (write_configs cluster apply_error claims s.gateway_configs e)
