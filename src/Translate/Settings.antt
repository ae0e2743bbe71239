-- ===== src/Translate/Settings.antt =====
-- What BuildServerConfig of internal/translate/translate.go makes, against the checks of loadConfig in
-- pkg/server/server.go.
use rsync_gateway.Prelude.{
  ◌≡◌, refl, subst, false, List, [], Option, none, some, String, Result, ok, err, bind-ok,
  Bool-cases, inl, inr,
}
use rsync_gateway.Prelude.Int.{ℤ, pos, negsuc, int_eq, is_negative, is_positive}
use rsync_gateway.Api.{
  GatewayConfigSpec, ThroughputFloorSpec, ParseDuration, throughput_floor_window,
  throughput_floor_grace,
}
use rsync_gateway.Api.Validation.{FloorOk, IsValidSpec, validate_iff}
use rsync_gateway.Server.{ProxySettings, Config, or_default}
use rsync_gateway.Server.Load.{check_numbers, check_non_negative}
use rsync_gateway.Server.Load.Numbers.{NumbersOk, check_numbers_iff}
use rsync_gateway.Translate.Origins.{Values}
use rsync_gateway.Translate.Upstreams.{LimitsOk, deref-NonNegative, add_routes-LimitsOk}
use rsync_gateway.Translate.{
  whole_seconds, prefixed, rejecting, floor_bytes, floor_defaults, duration_secs, proxy_settings,
  RouteInput, add_routes, build_server_config,
}

same_ok : {p q : ProxySettings} {r : Result String ProxySettings} → r ≡ ok p → r ≡ ok q → p ≡ q
same_ok e h = cc h

whole_seconds-NonNegative :
    (d : String) (v : ℤ) {s : ℤ} → whole_seconds d v ≡ ok s → is_negative s ≡ false
unfolding whole_seconds
whole_seconds-NonNegative d (pos n) {s} e = cc e
whole_seconds-NonNegative d (negsuc n) e = cc e

prefixed-ok : (p : String) (r : Result String ℤ) {v : ℤ} → prefixed p r ≡ ok v → r ≡ ok v
unfolding prefixed
prefixed-ok p (ok a) e = e
prefixed-ok p (err m) e = cc e

floor-NonNegative :
    (f : Option ThroughputFloorSpec) → FloorOk f → is_negative (floor_bytes f) ≡ false
unfolding floor_bytes
floor-NonNegative none h = refl
floor-NonNegative (some f) h = deref-NonNegative f.min_bytes h

or_default-NonNegative :
    (v d : ℤ) → is_negative v ≡ false → is_negative d ≡ false → is_negative (or_default v d) ≡ false
or_default-NonNegative v d e f = elim (Bool-cases (int_eq v (pos 0))) [
  | inl g ↦ rw g f
  | inr g ↦ rw g e
]

floor_defaults-NonNegative :
    (b window grace : ℤ)
    → is_negative window ≡ false
    → is_negative grace ≡ false
    → (is_negative (floor_defaults b window grace).0 ≡ false)
      × (is_negative (floor_defaults b window grace).1 ≡ false)
unfolding floor_defaults
floor_defaults-NonNegative b window grace e f = elim (Bool-cases (is_positive b)) [
  | inl g ↦
      let w = or_default-NonNegative window (pos 60) e refl in
      rw g (w, or_default-NonNegative grace (or_default window (pos 60)) f w)
  | inr g ↦ rw g (e, f)
]

module _ (parse : ParseDuration) where
  duration_secs-NonNegative :
      (d : Option String) {s : ℤ} → duration_secs parse d ≡ ok s → is_negative s ≡ false
  unfolding duration_secs
  duration_secs-NonNegative none e = cc e
  duration_secs-NonNegative (some d) e =
      let (v, _, f) = bind-ok _ (whole_seconds d) e in whole_seconds-NonNegative d v f

  -- The settings that ProxySettings makes pass every check of numbers in loadConfig.
  pub proxy_settings-NumbersOk :
      (spec : Option GatewayConfigSpec) {p : ProxySettings}
      → proxy_settings parse spec ≡ ok p
      → NumbersOk p
  unfolding proxy_settings
  proxy_settings-NumbersOk none {p} h = subst NumbersOk (same_ok refl h) (record {
    idle = refl;
    max_duration = refl;
    keep_alive = refl;
    per_ip = refl;
    dial = refl;
    bytes = refl;
    window = refl;
    grace = refl;
  })
  proxy_settings-NumbersOk (some cfg) {p} h =
      let (_, v, h) = bind-ok _ _ h in
      let (idle, a, h) = bind-ok _ _ h in
      let (max_duration, b, h) = bind-ok _ _ h in
      let (keep_alive, c, h) = bind-ok _ _ h in
      let (dial, d, h) = bind-ok _ _ h in
      let (window, e, h) = bind-ok _ _ h in
      let (grace, f, h) = bind-ok _ _ h in
      let valid : IsValidSpec parse cfg = (validate_iff parse cfg).0 v in
      let defaults =
        floor_defaults-NonNegative (floor_bytes cfg.throughput_floor) window grace
          (duration_secs-NonNegative (throughput_floor_window cfg) (prefixed-ok _ _ e))
          (duration_secs-NonNegative (throughput_floor_grace cfg) (prefixed-ok _ _ f)) in
      subst NumbersOk (same_ok refl h) (record {
        idle = duration_secs-NonNegative cfg.relay_idle_timeout (prefixed-ok _ _ a);
        max_duration = duration_secs-NonNegative cfg.relay_max_duration (prefixed-ok _ _ b);
        keep_alive = duration_secs-NonNegative cfg.tcp_keep_alive (prefixed-ok _ _ c);
        per_ip = deref-NonNegative cfg.per_ip_max_active_connections valid.per_ip;
        dial = duration_secs-NonNegative cfg.dial_timeout (prefixed-ok _ _ d);
        bytes = floor-NonNegative cfg.throughput_floor valid.min_bytes;
        window = defaults.0;
        grace = defaults.1;
      })

  rejecting-ok :
      (m : String) (r : Result String ProxySettings) {p : ProxySettings}
      → rejecting m r ≡ ok p
      → r ≡ ok p
  unfolding rejecting
  rejecting-ok m (ok a) e = cc e
  rejecting-ok m (err x) e = cc e

  -- A configuration that BuildServerConfig returns passes every check of numbers in loadConfig: those of the proxy's
  -- settings, and that of each upstream's per_ip_max_active_connections, since no limit of an upstream is negative.
  pub build_server_config-checked :
      (primary : Option GatewayConfigSpec) (routes : List RouteInput) {c : Config}
      → build_server_config parse primary routes ≡ ok c
      → (check_numbers c.proxy ≡ ok tt)
        × (check_non_negative "relay_idle_timeout" c.proxy.relay_idle_timeout_secs ≡ ok tt)
        × Values LimitsOk c.upstreams
  unfolding build_server_config
  build_server_config-checked primary routes {c} h =
      let (p, a, h) = bind-ok _ _ h in
      let (us, b, h) =
        bind-ok (add_routes parse primary routes [])
          (λ us. ok (record { proxy = p; upstreams = us })) h in
      let same : p ≡ c.proxy = cc h in
      let all : us ≡ c.upstreams = cc h in
      let (x, y) = (check_numbers_iff c.proxy).1 (
        subst NumbersOk same
          (proxy_settings-NumbersOk primary (rejecting-ok _ (proxy_settings parse primary) a))) in
      (x, y, subst (Values LimitsOk) all (add_routes-LimitsOk parse primary routes [] tt b))
