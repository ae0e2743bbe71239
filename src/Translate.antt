-- ===== src/Translate.antt =====
-- internal/translate/translate.go: the data plane's configuration for the routes that are bound.
pub mod Names
pub mod Settings
pub mod Origins
pub mod Upstreams
mod Tests
use Prim.Native.Char.{Char, code}
use Prim.Native.String.{count}
use rsync_gateway.Prelude.{
  ℕ, suc, ◌+◌, ◌-◌, ◌/◌, ◌≡◌, Bool, true, false, not, ◌&&◌, ◌||◌, List, [], ◌∷◌, ◌++◌, Option, none,
  some, String, Result, ok, err, ◌>>=◌, ◌>>◌, fail_if, if◌then◌else◌, get_or, nat_eq, ltb, leb,
}
use rsync_gateway.Prelude.Int.{ℤ, pos, negsuc, int_eq, is_negative, is_positive}
use rsync_gateway.Prelude.Keys.{◌==◌, String_eq, Map, lookup, insert}
use rsync_gateway.Prelude.Text.{◌^^◌, quote, decimal}
use rsync_gateway.Api.{
  GatewayConfigSpec, ThroughputFloorSpec, ParseDuration, throughput_floor_window,
  throughput_floor_grace, validate,
}
use rsync_gateway.Gateway.Objects.{NamespacedName, key_text}
use rsync_gateway.Server.{Upstream, ProxySettings, Config, or_default}

pub record RouteBackend : Type 0 where
  pub name : String
  pub namespace : String
  pub port : ℕ

pub record RouteInput : Type 0 where
  pub route : NamespacedName
  pub modules : List String
  pub backends : List RouteBackend
  pub config : Option GatewayConfigSpec

-- The character at a position. It serves `lower`: the runes that strings.ToLower maps to a lower-case
-- ASCII letter are the capitals, U+0130 and U+212A.
char_at : ℕ → String → Char
char_at n String.[] = "-"
char_at ℕ.zero (String.◌∷◌ c s) = c
char_at (ℕ.suc n) (String.◌∷◌ c s) = char_at n s

is_capital : ℕ → Bool
is_capital n = leb 65 n && leb n 90

lower : Char → Char
unfolding char_at is_capital
lower c =
    if is_capital (code c)
    then char_at (code c - 65) "abcdefghijklmnopqrstuvwxyz"
    else if nat_eq (code c) 304
    then "i"
    else if nat_eq (code c) 8490
    then "k"
    else c

-- The case of the switch that keeps a rune.
pub is_kept : ℕ → Bool
is_kept n = leb 97 n && leb n 122 || leb 48 n && leb n 57 || nat_eq n 45

pub sanitise : String → String
unfolding lower
sanitise String.[] = ""
sanitise (String.◌∷◌ c s) =
    let rest = sanitise s in String.◌∷◌ (if is_kept (code (lower c)) then lower c else "-") rest

-- name[:n], or the whole name where it is shorter; its characters are all of one byte.
pub truncate : ℕ → String → String
truncate ℕ.zero s = ""
truncate (ℕ.suc n) String.[] = ""
truncate (ℕ.suc n) (String.◌∷◌ c s) = String.◌∷◌ c (truncate n s)

-- UpstreamName
pub upstream_name : NamespacedName → ℕ → String
upstream_name route index =
    truncate 63 (sanitise (route.namespace ^^ "-" ^^ route.name ^^ "-" ^^ decimal index))

pub whole_seconds : String → ℤ → Result String ℤ
whole_seconds d (pos n) = ok (pos (n / 1000000000))
whole_seconds d (negsuc n) = err ("duration must be non-negative, got " ^^ d)

-- A panic of the code is an error of the model's own.
pub data Failure : Type 0 where
  rejected : String → Failure
  nil_dereference : Failure

pub prefixed {ℓ} : {A : Type ℓ} → String → Result String A → Result String A
prefixed p (ok a) = ok a
prefixed p (err e) = err (p ^^ e)

pub rejecting {ℓ} : {A : Type ℓ} → String → Result String A → Result Failure A
rejecting p (ok a) = ok a
rejecting p (err e) = err (rejected (p ^^ e))

-- derefInt32
abbrev pub deref : Option ℤ → ℤ
deref v = get_or v (pos 0)

abbrev pub no_settings : ProxySettings
no_settings = record {
  listen = "";
  listen_tls = "";
  listen_http = "";
  motd = "";
  access_log = "";
  error_log = "";
  tls_cert_file = "";
  tls_key_file = "";
  relay_idle_timeout_secs = pos 0;
  relay_max_duration_secs = pos 0;
  tcp_keep_alive_secs = pos 0;
  per_ip_max_active_conns = pos 0;
  dial_timeout_secs = pos 0;
  min_throughput_bytes = pos 0;
  min_throughput_window_secs = pos 0;
  min_throughput_grace_secs = pos 0;
}

floor_bytes : Option ThroughputFloorSpec → ℤ
floor_bytes none = pos 0
floor_bytes (some f) = deref f.min_bytes

-- The window and the grace period once the floor is known.
pub floor_defaults : ℤ → ℤ → ℤ → ℤ × ℤ
floor_defaults min_bytes window grace =
    let window' = or_default window (pos 60) in
    if is_positive min_bytes then (window', or_default grace window') else (window, grace)

unfoldable pub backend_upstream : RouteInput → GatewayConfigSpec → RouteBackend → Upstream
backend_upstream r spec b = record {
  address = b.name ^^ "." ^^ b.namespace ^^ ".svc:" ^^ decimal b.port;
  modules = r.modules;
  discover_modules = false;
  use_proxy_protocol = false;
  max_active_conns = deref spec.max_active_connections;
  max_queued_conns = deref spec.max_queued_connections;
  per_ip_max_active_conns = deref spec.per_ip_max_active_connections;
}

-- The inner loop of BuildServerConfig, from index `i` on.
pub add_backends :
    RouteInput
    → Option GatewayConfigSpec
    → ℕ
    → List RouteBackend
    → Map String Upstream
    → Result Failure (Map String Upstream)
add_backends r spec i [] upstreams = ok upstreams
add_backends r none i (b ∷ bs) upstreams = err nil_dereference
add_backends r (some spec) i (b ∷ bs) upstreams =
    add_backends r (some spec) (suc i) bs
      (insert (upstream_name r.route i) (backend_upstream r spec b) upstreams)

abbrev pub or_primary :
    Option GatewayConfigSpec → Option GatewayConfigSpec → Option GatewayConfigSpec
or_primary none primary = primary
or_primary (some spec) primary = some spec

module _ (parse_duration : ParseDuration) where
  -- DurationSecs
  pub duration_secs : Option String → Result String ℤ
  duration_secs none = ok (pos 0)
  duration_secs (some d) =
      prefixed ("invalid duration " ^^ quote d ^^ ": ") (parse_duration d) >>= whole_seconds d

  -- ProxySettings
  pub proxy_settings : Option GatewayConfigSpec → Result String ProxySettings
  unfolding floor_bytes
  proxy_settings none = ok no_settings
  proxy_settings (some cfg) = do
    validate parse_duration cfg
    idle ← prefixed "relayIdleTimeout: " (duration_secs cfg.relay_idle_timeout)
    max_duration ← prefixed "relayMaxDuration: " (duration_secs cfg.relay_max_duration)
    keep_alive ← prefixed "tcpKeepAlive: " (duration_secs cfg.tcp_keep_alive)
    dial_timeout ← prefixed "dialTimeout: " (duration_secs cfg.dial_timeout)
    window ← prefixed "throughputFloor.window: " (duration_secs (throughput_floor_window cfg))
    grace ← prefixed "throughputFloor.grace: " (duration_secs (throughput_floor_grace cfg))
    ok (record no_settings {
      motd = get_or cfg.motd "";
      relay_idle_timeout_secs = idle;
      relay_max_duration_secs = max_duration;
      tcp_keep_alive_secs = keep_alive;
      dial_timeout_secs = dial_timeout;
      per_ip_max_active_conns = deref cfg.per_ip_max_active_connections;
      min_throughput_bytes = floor_bytes cfg.throughput_floor;
      min_throughput_window_secs =
          (floor_defaults (floor_bytes cfg.throughput_floor) window grace).0;
      min_throughput_grace_secs =
          (floor_defaults (floor_bytes cfg.throughput_floor) window grace).1;
    })

  pub check_spec : NamespacedName → Option GatewayConfigSpec → Result Failure (Unit {0})
  check_spec route none = ok tt
  check_spec route (some spec) =
      rejecting ("route " ^^ key_text route ^^ ": invalid GatewayConfig: ")
        (validate parse_duration spec)

  pub add_routes :
      Option GatewayConfigSpec
      → List RouteInput
      → Map String Upstream
      → Result Failure (Map String Upstream)
  add_routes primary [] upstreams = ok upstreams
  add_routes primary (r ∷ rs) upstreams = do
    check_spec r.route (or_primary r.config primary)
    upstreams' ← add_backends r (or_primary r.config primary) 0 r.backends upstreams
    add_routes primary rs upstreams'

  -- BuildServerConfig
  pub build_server_config : Option GatewayConfigSpec → List RouteInput → Result Failure Config
  build_server_config primary routes = do
    proxy ← rejecting "invalid GatewayConfig: " (proxy_settings primary)
    upstreams ← add_routes primary routes []
    ok (record { proxy = proxy; upstreams = upstreams })
