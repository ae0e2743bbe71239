-- ===== src/Dataplane/Tests.antt =====
-- Two servers, and the theorems on internal/dataplane at them.
use rsync_gateway.Prelude.{ℕ, refl, true, false, [], ◌∷◌, none, String, ok, err, if◌then◌else◌}
use rsync_gateway.Prelude.Int.{pos}
use rsync_gateway.Server.{Config, Server}
use rsync_gateway.Server.Load.{World}
use rsync_gateway.Prelude.Keys.{◌==◌, String_eq, ℕ_eq}
use rsync_gateway.Server.Listen.{Net, Sockets}
use rsync_gateway.Server.Listen.Leaves.{Leaves}
use rsync_gateway.Dataplane.{Dataplane}
use rsync_gateway.Dataplane.Create.{Options, create}
use rsync_gateway.Dataplane.Create.Clean.{owns_all, create-Leaves}

abbrev world : World
world = record {
  resolve_unix = λ a. ok tt;
  resolve_tcp = λ a. ok tt;
  load_key_pair = λ c k. ok 0;
  set_file = λ f. ok tt;
  discover = λ u. ok [];
}

abbrev server : String → Server
server addr = record {
  listen_addr = addr;
  tls_listen_addr = "";
  http_listen_addr = "";
  relay_idle_timeout = pos 0;
  relay_max_duration = pos 0;
  tcp_keep_alive = pos 0;
  min_throughput_bytes = pos 0;
  min_throughput_window = pos 0;
  min_throughput_grace = pos 0;
  motd = "";
  access_log = "";
  error_log = "";
  dialer_keep_alive = pos 0;
  dialer_timeout = pos 0;
  modules = [];
  upstreams = [];
  tls_certificate = none;
  upstream_queues = [];
  tcp_listener = true;
  tls_listener = false;
  http_listener = true;
}

abbrev two : Dataplane
two = record { servers = server "0.0.0.0:873" ∷ server "0.0.0.0:1873" ∷ [] }

abbrev config : Config
config = record {
  proxy = record {
    listen = "";
    listen_tls = "";
    listen_http = "";
    motd = "hello";
    access_log = "";
    error_log = "";
    tls_cert_file = "";
    tls_key_file = "";
    relay_idle_timeout_secs = pos 30;
    relay_max_duration_secs = pos 0;
    tcp_keep_alive_secs = pos 0;
    per_ip_max_active_conns = pos 0;
    dial_timeout_secs = pos 0;
    min_throughput_bytes = pos 0;
    min_throughput_window_secs = pos 0;
    min_throughput_grace_secs = pos 0;
  };
  upstreams =
      (
        "mirrors-debian-0",
        record {
          address = "disk.mirrors.svc:873";
          modules = "debian" ∷ [];
          discover_modules = false;
          use_proxy_protocol = false;
          max_active_conns = pos 4;
          max_queued_conns = pos 0;
          per_ip_max_active_conns = pos 0;
        },
      )
      ∷ [];
}

-- The name of the backend resolves for the first server and no longer for the second.
abbrev answers : ℕ → World
answers n = if n == 0 then world else record world { resolve_tcp = λ a. err "no such host" }

-- The second address is in use.
abbrev net : Net
net = record {
  listen =
      λ network addr id. if addr == "0.0.0.0:1873" then err "address already in use" else ok addr;
  chmod = λ addr. ok tt;
}

abbrev options : Options
options = record {
  bind_addrs = "/run/rsync.sock" ∷ "0.0.0.0:1873" ∷ [];
  admin_addr = "127.0.0.1:9528";
  read_timeout = pos 0;
  write_timeout = pos 0;
}

abbrev nothing_open : Sockets
nothing_open = record { next = 0; opened = [] }

create-Leaves_example : Leaves owns_all nothing_open (create net world options nothing_open)
create-Leaves_example = create-Leaves net (λ addr. refl) world options nothing_open tt
