-- ===== src/Translate/Upstreams.antt =====
-- BuildServerConfig of internal/translate/translate.go: the limits of the upstreams of its result, against the check of
-- the per-IP limit in loadConfig of pkg/server/server.go.
use rsync_gateway.Prelude.{
  ℕ, suc, ◌≡◌, refl, subst, false, List, [], ◌∷◌, Option, none, some, String, Result, ok, err,
  bind-ok,
}
use rsync_gateway.Prelude.Int.{ℤ, is_negative}
use rsync_gateway.Prelude.Keys.{Map}
use rsync_gateway.Api.{GatewayConfigSpec, ParseDuration, validate}
use rsync_gateway.Api.Validation.{NonNegative, IsValidSpec, validate_iff}
use rsync_gateway.Gateway.Objects.{NamespacedName}
use rsync_gateway.Server.{Upstream}
use rsync_gateway.Translate.{
  RouteBackend, RouteInput, rejecting, deref, backend_upstream, add_backends, or_primary,
  check_spec, add_routes,
}
use rsync_gateway.Translate.Origins.{Values, Values-insert}

-- No limit of the upstream is negative.
pub record LimitsOk (u : Upstream) : Type 0 where
  pub per_ip : is_negative u.per_ip_max_active_conns ≡ false
  pub active : is_negative u.max_active_conns ≡ false
  pub queued : is_negative u.max_queued_conns ≡ false

pub deref-NonNegative : (o : Option ℤ) → NonNegative o → is_negative (deref o) ≡ false
deref-NonNegative none h = refl
deref-NonNegative (some v) h = h

module _ (parse : ParseDuration) where
  abbrev Validated : Option GatewayConfigSpec → Type 0
  Validated none = Unit {0}
  Validated (some spec) = IsValidSpec parse spec

  rejecting-ok : (m : String) (r : Result String (Unit {0})) → rejecting m r ≡ ok tt → r ≡ ok tt
  unfolding rejecting
  rejecting-ok m (ok tt) e = refl
  rejecting-ok m (err x) e = cc e

  check_spec-Validated :
      (route : NamespacedName) (o : Option GatewayConfigSpec)
      → check_spec parse route o ≡ ok tt
      → Validated o
  unfolding check_spec
  check_spec-Validated route none e = tt
  check_spec-Validated route (some spec) e =
      (validate_iff parse spec).0 (rejecting-ok _ (validate parse spec) e)

  backend_upstream-LimitsOk :
      (r : RouteInput) (spec : GatewayConfigSpec) (b : RouteBackend)
      → IsValidSpec parse spec
      → LimitsOk (backend_upstream r spec b)
  unfolding backend_upstream
  backend_upstream-LimitsOk r spec b v = record {
    per_ip = deref-NonNegative spec.per_ip_max_active_connections v.per_ip;
    active = deref-NonNegative spec.max_active_connections v.active;
    queued = deref-NonNegative spec.max_queued_connections v.queued;
  }

  add_backends-LimitsOk :
      (r : RouteInput) (o : Option GatewayConfigSpec) (i : ℕ) (bs : List RouteBackend)
      (m : Map String Upstream) {m' : Map String Upstream}
      → Validated o
      → Values LimitsOk m
      → add_backends r o i bs m ≡ ok m'
      → Values LimitsOk m'
  unfolding add_backends
  add_backends-LimitsOk r o i [] m {m'} v h e =
      let same : m ≡ m' = cc e in subst (Values LimitsOk) same h
  add_backends-LimitsOk r none i (b ∷ bs) m v h e = cc e
  add_backends-LimitsOk r (some spec) i (b ∷ bs) m v h e =
      add_backends-LimitsOk r (some spec) (suc i) bs _ v
        (Values-insert LimitsOk _ _ m (backend_upstream-LimitsOk r spec b v) h) e

  pub add_routes-LimitsOk :
      (primary : Option GatewayConfigSpec) (rs : List RouteInput) (m : Map String Upstream)
      {m' : Map String Upstream}
      → Values LimitsOk m
      → add_routes parse primary rs m ≡ ok m'
      → Values LimitsOk m'
  unfolding add_routes
  add_routes-LimitsOk primary [] m {m'} h e =
      let same : m ≡ m' = cc e in subst (Values LimitsOk) same h
  add_routes-LimitsOk primary (r ∷ rs) m h e =
      let (tt, a, e) = bind-ok _ _ e in
      let (m1, b, e) = bind-ok _ _ e in
      add_routes-LimitsOk primary rs m1
        (add_backends-LimitsOk r (or_primary r.config primary) 0 r.backends m
          (check_spec-Validated r.route _ a) h b)
        e
