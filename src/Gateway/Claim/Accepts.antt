-- ===== src/Gateway/Claim/Accepts.antt =====
-- internal/gateway/claim.go: a class is accepted exactly when its parameters resolve.
use mathlib.Core.Option
use rsync_gateway.Prelude.{
  ◌≡◌, refl, ap, ◌∙◌, ◌↔◌, inl, inr, false, ◌&&◌, [], ◌∷◌, Option, none, some, String, Result, ok,
  err, fail_if_iff, bind-ok, if◌then◌else◌, Bool-cases, Option-cases,
}
use rsync_gateway.Prelude.Keys.{◌==◌, String_eq, Map, lookup, other_kind_iff}
use rsync_gateway.Api.{ParseDuration, group_name, controller_name}
use rsync_gateway.Api.Validation.{IsValidSpec, validate_iff}
use rsync_gateway.Gateway.Objects.{GatewayClass, GatewayConfig, ParametersReference, Snapshot}
use rsync_gateway.Gateway.Claim.{
  ClassClaim, is_set, find_config, check_config, resolve_ref, resolve_class_config, claim_class,
  claim_each, claim_classes,
}

-- The parameters of a class name a GatewayConfig of the cluster, and its spec is valid.
pub record Resolves (parse : ParseDuration) (snap : Snapshot) (gc : GatewayClass)
    (c : GatewayConfig) : Type 0 where
  pub ref : ParametersReference
  pub refers : gc.parameters_ref ≡ some ref
  pub group : ref.group ≡ group_name
  pub kind : ref.kind ≡ "GatewayConfig"
  pub cluster_scoped : is_set ref.namespace ≡ false
  pub found : lookup ref.name snap.gateway_configs ≡ some c
  pub valid : IsValidSpec parse c.spec

check_config_iff :
    (name : String) (r : Result String (Unit {0})) → (check_config name r ≡ ok tt) ↔ (r ≡ ok tt)
unfolding check_config
check_config_iff name (ok _) = ((λ _. refl), λ _. refl)
check_config_iff name (err e) = ((λ h. cc), λ h. cc)

find_config-ok :
    (name : String) (o : Option GatewayConfig) {c : GatewayConfig}
    → find_config name o ≡ ok c
    → o ≡ some c
unfolding find_config
find_config-ok name none h = cc
find_config-ok name (some d) h = cc

-- The config with which a class is claimed and accepted, if it is.
abbrev pub accepted_with : ClassClaim → Option GatewayConfig
accepted_with claim = if claim.claimed && claim.accepted then claim.config else none

module _ (parse : ParseDuration) (snap : Snapshot) where
  resolve_ref_sound :
      (gc : GatewayClass) (ref : ParametersReference) (c : GatewayConfig)
      → gc.parameters_ref ≡ some ref
      → resolve_ref parse ref snap ≡ ok c
      → Resolves parse snap gc c
  unfolding resolve_ref
  resolve_ref_sound gc ref c r h =
      let (_, a, h) = bind-ok _ _ h in
      let (_, b, h) = bind-ok _ _ h in
      let (d, e, h) = bind-ok _ _ h in
      let (_, v, h) = bind-ok _ _ h in
      let kinds : (ref.group ≡ group_name) × (ref.kind ≡ "GatewayConfig") =
        (other_kind_iff ref.group group_name ref.kind "GatewayConfig").0 ((fail_if_iff _ _).0 a) in
      let p : d ≡ c = cc h in
      record {
        ref = ref;
        refers = r;
        group = kinds.0;
        kind = kinds.1;
        cluster_scoped = (fail_if_iff _ _).0 b;
        found = find_config-ok ref.name _ e ∙ ap some p;
        valid = rw (← p) ((validate_iff parse d.spec).0 ((check_config_iff ref.name _).0 v));
      }

  resolve_ref_complete :
      (gc : GatewayClass) (c : GatewayConfig) (v : Resolves parse snap gc c)
      → resolve_ref parse v.ref snap ≡ ok c
  unfolding resolve_ref find_config
  resolve_ref_complete gc c v = rw (
    (other_kind_iff v.ref.group group_name v.ref.kind "GatewayConfig").1 (v.group, v.kind),
    v.cluster_scoped,
    v.found,
    (check_config_iff v.ref.name _).1 ((validate_iff parse c.spec).1 v.valid),
  )

  resolve_class_config_sound :
      (gc : GatewayClass) (c : GatewayConfig) (m : String)
      → resolve_class_config parse gc snap ≡ ok (c, m)
      → Resolves parse snap gc c
  unfolding resolve_class_config
  resolve_class_config_sound gc c m h = elim (Option-cases gc.parameters_ref) [
    | inl e ↦ cc (rw (e, resolve_class_config) at h)
    | inr (ref, e) ↦
        let (d, p, q) =
          bind-ok (resolve_ref parse ref snap) _ (rw (e, resolve_class_config) at h) in
        let same : d ≡ c = cc q in rw (← same) (resolve_ref_sound gc ref d e p)
  ]

  claim_class_sound :
      (name : String) (gc : GatewayClass) (c : GatewayConfig)
      (r : Result String (GatewayConfig × String))
      → resolve_class_config parse gc snap ≡ r
      → accepted_with (claim_class parse name gc snap) ≡ some c
      → (gc.controller_name ≡ controller_name) × Resolves parse snap gc c
  unfolding claim_class
  claim_class_sound name gc c (ok (d, m)) e h =
      elim (Bool-cases (gc.controller_name == controller_name)) [
        | inl own ↦
            let same : d ≡ c = cc (rw (own, e) at h) in
            (
              (String_eq.eqb_iff gc.controller_name controller_name).0 own,
              rw (← same) (resolve_class_config_sound gc d m e),
            )
        | inr other ↦ cc (rw other at h)
      ]
  claim_class_sound name gc c (err m) e h =
      elim (Bool-cases (gc.controller_name == controller_name)) [
        | inl own ↦ cc (rw (own, e) at h)
        | inr other ↦ cc (rw other at h)
      ]

  claim_class_complete :
      (name : String) (gc : GatewayClass) (c : GatewayConfig)
      → gc.controller_name ≡ controller_name
      → Resolves parse snap gc c
      → accepted_with (claim_class parse name gc snap) ≡ some c
  unfolding claim_class resolve_class_config
  claim_class_complete name gc c own v = rw (
    (String_eq.eqb_iff gc.controller_name controller_name).1 own,
    v.refers,
    resolve_ref_complete gc c v,
  )

  pub lookup-claim_each :
      (name : String) (m : Map String GatewayClass)
      → lookup name (claim_each parse snap m)
        ≡ Option.map (λ gc. claim_class parse name gc snap) (lookup name m)
  unfolding lookup claim_each
  lookup-claim_each name [] = refl
  lookup-claim_each name ((j, gc) ∷ m) = elim (Bool-cases (j == name)) [
    | inl e ↦ rw (e, (String_eq.eqb_iff j name).0 e)
    | inr e ↦ rw e (lookup-claim_each name m)
  ]

  -- In ClaimClasses's result a class of the snapshot is claimed and accepted with the config `c`
  -- exactly when it names this controller and its parameters resolve to `c`.
  pub claim_classes_iff :
      (name : String) (gc : GatewayClass) (c : GatewayConfig)
      → lookup name snap.gateway_classes ≡ some gc
      → (Option.bind (lookup name (claim_classes parse snap)) accepted_with ≡ some c)
        ↔ ((gc.controller_name ≡ controller_name) × Resolves parse snap gc c)
  unfolding claim_classes Option.bind claim_class
  claim_classes_iff name gc c e =
      rw (lookup-claim_each name snap.gateway_classes, e)
        (
          claim_class_sound name gc c (resolve_class_config parse gc snap) refl,
          λ h. claim_class_complete name gc c h.0 h.1,
        )
