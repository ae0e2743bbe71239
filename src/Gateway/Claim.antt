-- ===== src/Gateway/Claim.antt =====
-- internal/gateway/claim.go: which GatewayClasses are ours, and with which GatewayConfig.
pub mod Accepts
pub mod Configs
use rsync_gateway.Prelude.{
  ℕ, ◌≡◌, refl, Bool, true, false, not, ◌&&◌, ◌||◌, List, [], ◌∷◌, Option, none, some, String,
  Result, ok, err, ◌>>=◌, ◌>>◌, fail_if, if◌then◌else◌, is_some,
}
use rsync_gateway.Prelude.Keys.{◌==◌, String_eq, Map, lookup}
use rsync_gateway.Prelude.Text.{◌^^◌, quote}
use rsync_gateway.Api.{GatewayConfigSpec, ParseDuration, group_name, controller_name, validate}
use rsync_gateway.Gateway.Objects.{GatewayClass, GatewayConfig, ParametersReference, Snapshot}

pub record ClassClaim : Type 0 where
  pub name : String
  pub claimed : Bool
  pub accepted : Bool
  pub reason : String
  pub message : String
  pub config : Option GatewayConfig

-- The pointer is set and not the empty text.
abbrev pub is_set : Option String → Bool
is_set none = false
is_set (some s) = not (s == "")

abbrev accepted_reason : String
accepted_reason = "Accepted"

abbrev invalid_parameters : String
invalid_parameters = "InvalidParameters"

-- `snap.GatewayConfigs[ref.Name]`, with the message of a missing one
pub find_config : String → Option GatewayConfig → Result String GatewayConfig
find_config name none = err ("GatewayConfig " ^^ quote name ^^ " not found")
find_config name (some c) = ok c

-- The outcome of `config.Spec.Validate()`
pub check_config : String → Result String (Unit {0}) → Result String (Unit {0})
check_config name (ok _) = ok tt
check_config name (err e) = err ("GatewayConfig " ^^ quote name ^^ " is invalid: " ^^ e)

module _ (parse_duration : ParseDuration) where
  -- resolveClassConfig once parametersRef is there: the config, or the message of `invalid`.
  pub resolve_ref : ParametersReference → Snapshot → Result String GatewayConfig
  resolve_ref ref snap = do
    fail_if (not (ref.group == group_name) || not (ref.kind == "GatewayConfig")) (
        "unsupported parametersRef group/kind " ^^ ref.group ^^ "/" ^^ ref.kind ^^ "; want "
        ^^ group_name ^^ "/GatewayConfig")
    fail_if (is_set ref.namespace)
        "parametersRef.namespace must be empty; GatewayConfig is cluster-scoped"
    config ← find_config ref.name (lookup ref.name snap.gateway_configs)
    check_config ref.name (validate parse_duration config.spec)
    ok config

  pub resolve_class_config : GatewayClass → Snapshot → Result String (GatewayConfig × String)
  resolve_class_config gc snap = elim gc.parameters_ref [
    | none ↦ err ("GatewayClass " ^^ gc.name ^^ " must set spec.parametersRef to a GatewayConfig")
    | some ref ↦ do
      config ← resolve_ref ref snap
      ok (config, "GatewayConfig " ^^ quote ref.name ^^ " is valid")
  ]

  -- The body of ClaimClasses's loop.
  pub claim_class : String → GatewayClass → Snapshot → ClassClaim
  claim_class name gc snap =
      if not (gc.controller_name == controller_name)
      then record {
        name = name;
        claimed = false;
        accepted = false;
        reason = "";
        message = "";
        config = none;
      }
      else elim (resolve_class_config gc snap) [
        | ok (config, message) ↦ record {
          name = name;
          claimed = true;
          accepted = true;
          reason = accepted_reason;
          message = message;
          config = some config;
        }
        | err message ↦ record {
          name = name;
          claimed = true;
          accepted = false;
          reason = invalid_parameters;
          message = message;
          config = none;
        }
      ]

  pub claim_each : Snapshot → Map String GatewayClass → Map String ClassClaim
  claim_each snap [] = []
  claim_each snap ((name, gc) ∷ m) = (name, claim_class name gc snap) ∷ claim_each snap m

  -- ClaimClasses
  pub claim_classes : Snapshot → Map String ClassClaim
  unfolding claim_each
  claim_classes snap = claim_each snap snap.gateway_classes
