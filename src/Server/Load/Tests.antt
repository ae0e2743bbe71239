-- ===== src/Server/Load/Tests.antt =====
-- A server, a configuration and a system that answers everything, and the theorems on loadConfig of
-- pkg/server at them.
use rsync_gateway.Prelude.{◌≡◌, refl, true, false, [], ◌∷◌, none, ok, err, Ensures}
use rsync_gateway.Prelude.Int.{pos}
use rsync_gateway.Prelude.Keys.{String_eq}
use rsync_gateway.Queue.{new}
use rsync_gateway.Queue.History.{new-IsSound}
use rsync_gateway.Server.{Upstream, ProxySettings, Config, Server}
use rsync_gateway.Server.Load.{
  World, check_numbers, check_non_negative, load_config, prepare, check_listen_tls, server_started,
  load_certificate, sort_upstreams, place_upstream, build_upstream, build_upstreams, wrap, is_empty,
}
use rsync_gateway.Server.Load.Reload.{QueuesSound, load_config-QueuesSound, load_config-unchanged}

abbrev world : World
world = record {
  resolve_unix = λ _. ok tt;
  resolve_tcp = λ _. ok tt;
  load_key_pair = λ _ _. err "no such file";
  set_file = λ _. ok tt;
  discover = λ _. ok ("debian" ∷ []);
}

abbrev server : Server
server = record {
  listen_addr = ":873";
  tls_listen_addr = "";
  http_listen_addr = "";
  relay_idle_timeout = pos 0;
  relay_max_duration = pos 0;
  tcp_keep_alive = pos 0;
  min_throughput_bytes = pos 0;
  min_throughput_window = pos 0;
  min_throughput_grace = pos 0;
  motd = "";
  access_log = "";
  error_log = "";
  dialer_keep_alive = pos 0;
  dialer_timeout = pos 0;
  modules = [];
  upstreams = [];
  tls_certificate = none;
  upstream_queues = ("u1", new (pos 2) (pos 0)) ∷ [];
  tcp_listener = true;
  tls_listener = false;
  http_listener = false;
}

abbrev settings : ProxySettings
settings = record {
  listen = ":873";
  listen_tls = "";
  listen_http = "";
  motd = "hello";
  access_log = "";
  error_log = "";
  tls_cert_file = "";
  tls_key_file = "";
  relay_idle_timeout_secs = pos 600;
  relay_max_duration_secs = pos 0;
  tcp_keep_alive_secs = pos 0;
  per_ip_max_active_conns = pos 2;
  dial_timeout_secs = pos 0;
  min_throughput_bytes = pos 0;
  min_throughput_window_secs = pos 0;
  min_throughput_grace_secs = pos 0;
}

abbrev upstream : Upstream
upstream = record {
  address = "10.0.0.1:873";
  modules = "debian" ∷ "fedora" ∷ [];
  discover_modules = false;
  use_proxy_protocol = false;
  max_active_conns = pos 4;
  max_queued_conns = pos 8;
  per_ip_max_active_conns = pos 0;
}

abbrev config : Config
config = record { proxy = settings; upstreams = ("u1", upstream) ∷ [] }

load_config-QueuesSound_example : Ensures QueuesSound (load_config world server config true)
load_config-QueuesSound_example =
    load_config-QueuesSound world server config true (new-IsSound (pos 2) (pos 0), tt)

-- An upstream without modules.
abbrev bad : Config
bad = record config { upstreams = ("u1", record upstream { modules = [] }) ∷ [] }

load_config-unchanged_example : server ≡ server
unfolding load_config prepare check_listen_tls server_started load_certificate check_numbers
    check_non_negative sort_upstreams place_upstream build_upstreams build_upstream is_empty wrap
load_config-unchanged_example =
    load_config-unchanged world server bad server "upstream=u1 must set modules or discover_modules"
      refl refl
