-- ===== src/Translate/Tests.antt =====
-- A GatewayConfig and a route, and the theorems on internal/translate at them.
use Prim.Native.String.{count}
use rsync_gateway.Prelude.{◌≤◌, ◌≡◌, refl, false, [], ◌∷◌, none, some, ok, err, if◌then◌else◌}
use rsync_gateway.Prelude.Int.{pos}
use rsync_gateway.Prelude.Keys.{◌==◌, String_eq, insert}
use rsync_gateway.Api.{
  GatewayConfigSpec, ParseDuration, throughput_floor_window, throughput_floor_grace,
}
use rsync_gateway.Api.Validation.{IsValidSpec, validate_iff}
use rsync_gateway.Gateway.Objects.{NamespacedName}
use rsync_gateway.Prelude.Text.{decimal}
use rsync_gateway.Server.{ProxySettings, Config}
use rsync_gateway.Server.Load.{check_numbers, check_non_negative}
use rsync_gateway.Translate.{
  RouteInput, upstream_name, proxy_settings, build_server_config, rejecting, prefixed,
  duration_secs, whole_seconds, floor_bytes, floor_defaults, add_routes, check_spec, add_backends,
  backend_upstream, truncate, sanitise, lower, char_at, is_capital, is_kept,
}
use rsync_gateway.Translate.Names.{Clean, upstream_name_lem}
use rsync_gateway.Translate.Origins.{Values}
use rsync_gateway.Translate.Upstreams.{LimitsOk}
use rsync_gateway.Translate.Settings.{build_server_config-checked}

-- A parser that knows one text.
abbrev parse : ParseDuration
parse d = if d == "30s" then ok (pos 30000000000) else err "unknown"

abbrev spec : GatewayConfigSpec
spec = record {
  motd = some "hello";
  relay_idle_timeout = some "30s";
  relay_max_duration = none;
  tcp_keep_alive = none;
  dial_timeout = none;
  per_ip_max_active_connections = some (pos 2);
  max_active_connections = none;
  max_queued_connections = none;
  throughput_floor = some record { min_bytes = some (pos 1024); window = none; grace = some "30s" };
}

abbrev route : NamespacedName
route = record { namespace = "mirrors"; name = "Debian.Main" }

abbrev input : RouteInput
input = record {
  route = route;
  modules = "debian" ∷ [];
  backends = record { name = "disk"; namespace = "storage"; port = 873 } ∷ [];
  config = none;
}

upstream_name_lem_example : (count (upstream_name route 0) ≤ 63) × Clean (upstream_name route 0)
upstream_name_lem_example = upstream_name_lem route 0

abbrev proxy : ProxySettings
proxy = record {
  listen = "";
  listen_tls = "";
  listen_http = "";
  motd = "hello";
  access_log = "";
  error_log = "";
  tls_cert_file = "";
  tls_key_file = "";
  relay_idle_timeout_secs = pos 30;
  relay_max_duration_secs = pos 0;
  tcp_keep_alive_secs = pos 0;
  per_ip_max_active_conns = pos 2;
  dial_timeout_secs = pos 0;
  min_throughput_bytes = pos 1024;
  min_throughput_window_secs = pos 60;
  min_throughput_grace_secs = pos 30;
}

abbrev built : Config
built = record {
  proxy = proxy;
  upstreams =
      (
        "mirrors-debian-main-0",
        record {
          address = "disk.storage.svc:873";
          modules = "debian" ∷ [];
          discover_modules = false;
          use_proxy_protocol = false;
          max_active_conns = pos 0;
          max_queued_conns = pos 0;
          per_ip_max_active_conns = pos 2;
        },
      )
      ∷ [];
}

spec-IsValidSpec : IsValidSpec parse spec
unfolding throughput_floor_window throughput_floor_grace
spec-IsValidSpec = record {
  per_ip = refl;
  active = tt;
  queued = tt;
  idle = (30000000000, refl);
  max_duration = tt;
  keep_alive = tt;
  dial = tt;
  window = tt;
  grace = (30000000000, refl);
  min_bytes = refl;
}

build_server_config-input : build_server_config parse (some spec) (input ∷ []) ≡ ok built
unfolding build_server_config proxy_settings rejecting prefixed duration_secs whole_seconds
    floor_bytes floor_defaults add_routes check_spec add_backends backend_upstream upstream_name
    truncate sanitise lower char_at is_capital is_kept insert decimal throughput_floor_window
    throughput_floor_grace
build_server_config-input = rw ((validate_iff parse spec).1 spec-IsValidSpec) refl

build_server_config-checked_example :
    (check_numbers proxy ≡ ok tt)
    × (check_non_negative "relay_idle_timeout" proxy.relay_idle_timeout_secs ≡ ok tt)
    × Values LimitsOk built.upstreams
build_server_config-checked_example =
    build_server_config-checked parse (some spec) (input ∷ []) build_server_config-input
