-- ===== src/Gateway/Claim/Configs.antt =====
-- ClaimClasses of internal/gateway/claim.go: an accepted class has its GatewayConfig.
use rsync_gateway.Prelude.{
  ◌≡◌, refl, ◌∙◌, sym, subst, inl, inr, true, some, String, Result, ok, err, Bool-cases,
  Option-cases,
}
use rsync_gateway.Prelude.Keys.{◌==◌, String_eq, lookup}
use rsync_gateway.Api.{ParseDuration, controller_name}
use rsync_gateway.Gateway.Objects.{GatewayClass, GatewayConfig, Snapshot}
use rsync_gateway.Gateway.Claim.{ClassClaim, resolve_class_config, claim_class, claim_classes}
use rsync_gateway.Gateway.Claim.Accepts.{lookup-claim_each}

module _ (parse : ParseDuration) (snap : Snapshot) where
  abbrev HasConfig : ClassClaim → Type 0
  HasConfig claim = claim.accepted ≡ true → (c : GatewayConfig) × (claim.config ≡ some c)

  claim_class-config :
      (name : String) (gc : GatewayClass) (r : Result String (GatewayConfig × String))
      → resolve_class_config parse gc snap ≡ r
      → HasConfig (claim_class parse name gc snap)
  unfolding claim_class
  claim_class-config name gc (ok (c, message)) e h =
      elim (Bool-cases (gc.controller_name == controller_name)) [
        | inr other ↦ cc (rw other at h)
        | inl own ↦ (c, rw (own, e) refl)
      ]
  claim_class-config name gc (err message) e h =
      elim (Bool-cases (gc.controller_name == controller_name)) [
        | inr other ↦ cc (rw other at h)
        | inl own ↦ cc (rw (own, e) at h)
      ]

  -- A claim of ClaimClasses that is accepted has a config.
  pub claim_classes-config :
      (name : String) (claim : ClassClaim)
      → lookup name (claim_classes parse snap) ≡ some claim
      → HasConfig claim
  unfolding claim_classes
  claim_classes-config name claim e =
      let known = sym (lookup-claim_each parse snap name snap.gateway_classes) ∙ e in
      elim (Option-cases (lookup name snap.gateway_classes)) [
        | inl f ↦ cc (rw f at known)
        | inr (gc, f) ↦
            let same : claim_class parse name gc snap ≡ claim = cc (rw f at known) in
            subst HasConfig same
              (claim_class-config name gc (resolve_class_config parse gc snap) refl)
      ]
