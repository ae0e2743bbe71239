-- ===== src/Dataplane/Create.antt =====
-- New of internal/dataplane/dataplane.go: the servers and their listeners. The error of Server.Listen leaves no server
-- behind.
pub mod Clean
use rsync_gateway.Prelude.{
  ℕ, Bool, true, false, List, [], ◌∷◌, ◌++◌, map, Option, none, some, String, Result, ok, err,
  if◌then◌else◌,
}
use rsync_gateway.Prelude.Int.{ℤ, pos}
use rsync_gateway.Prelude.Keys.{◌==◌, String_eq}
use rsync_gateway.Prelude.Text.{◌^^◌}
use rsync_gateway.Queue.Channel.{Fault}
use rsync_gateway.Server.{Config, Server, or_default}
use rsync_gateway.Server.Load.{World, load_config}
use rsync_gateway.Server.Listen.{
  Listener, Sockets, Net, Trouble, reported, faulted, Action, ◌>>=◌, ◌>>◌, pure, report, on_error,
  named, close, is_unix, net_listen, set_mode, Instance, close_server, listen,
}
use rsync_gateway.Translate.{no_settings}
use rsync_gateway.Dataplane.{Dataplane}

-- Options
pub record Options : Type 0 where
  pub bind_addrs : List String
  pub admin_addr : String
  pub read_timeout : ℤ
  pub write_timeout : ℤ

-- emptyTableConfig
abbrev pub empty_table_config : Config
empty_table_config = record { proxy = no_settings; upstreams = [] }

-- server.New
abbrev pub new_server : Server
new_server = record {
  listen_addr = "";
  tls_listen_addr = "";
  http_listen_addr = "";
  relay_idle_timeout = pos 0;
  relay_max_duration = pos 0;
  tcp_keep_alive = pos 0;
  min_throughput_bytes = pos 0;
  min_throughput_window = pos 0;
  min_throughput_grace = pos 0;
  motd = "";
  access_log = "";
  error_log = "";
  dialer_keep_alive = pos 0;
  dialer_timeout = pos 0;
  modules = [];
  upstreams = [];
  tls_certificate = none;
  upstream_queues = [];
  tcp_listener = false;
  tls_listener = false;
  http_listener = false;
}

-- Zero means one minute.
abbrev pub timeout : ℤ → ℤ
timeout t = or_default t (pos 60000000000)

-- The outcome of the initial ApplyConfig.
pub initial : Result Fault (Server × Option String) → Action Server
initial (err f) s = (err (faulted f), s)
initial (ok (srv, some e)) s = (err (reported ("dataplane: apply initial config: " ^^ e)), s)
initial (ok (srv, none)) s = (ok srv, s)

pub close_all : List Instance → Sockets → Sockets
close_all [] s = s
close_all (i ∷ is) s = close_all is (close_server i s)

module _ (net : Net) where
  -- bindAddr
  pub bind_addr : String → Action Listener
  bind_addr addr =
      if is_unix addr
      then (do
        l ← net_listen net "unix" addr
        on_error (close (some l)) (set_mode net addr)
        pure l)
      else net_listen net "tcp" addr

  -- The listener of an additional server, and its dummy listener for HTTP, which is closed at once.
  pub bind_later : Instance → String → Action Instance
  bind_later i addr = do
    l ← named ("dataplane: listen on " ^^ addr ^^ ": ") (bind_addr addr)
    dummy ←
        on_error (close (some l))
          (named "dataplane: create dummy http listener: " (net_listen net "tcp" "127.0.0.1:0"))
    (λ s. (
      ok (record i {
        server = record i.server {
          listen_addr = l.addr;
          tcp_listener = true;
          http_listener = true;
        };
        tcp = some l;
        http = some dummy;
      }),
      close (some dummy) s,
    ))

  module _ (w : World) (opts : Options) where
    pub fresh_instance : Server → Instance
    fresh_instance srv = record {
      server = srv;
      tcp = none;
      tls = none;
      http = none;
      read_timeout = timeout opts.read_timeout;
      write_timeout = timeout opts.write_timeout;
    }

    -- The first server owns the admin listener.
    pub bind_first : Server → String → Action Instance
    bind_first srv addr = named ("dataplane: listen on " ^^ addr ^^ ": ") (
        listen net
          (fresh_instance (record srv { listen_addr = addr; http_listen_addr = opts.admin_addr })))

    -- The body of New's loop.
    pub new_instance : Bool → String → Action Instance
    new_instance is_first addr = do
      srv ← initial (load_config w new_server empty_table_config false)
      if is_first then bind_first srv addr else bind_later (fresh_instance srv) addr

    pub create_from : Bool → List Instance → List String → Action (List Instance)
    create_from is_first made [] = pure made
    create_from is_first made (addr ∷ later) =
        on_error (close_all made) (new_instance is_first addr) >>= λ i.
        create_from false (made ++ i ∷ []) later

    -- New
    pub create : Action (List Instance)
    create = elim opts.bind_addrs [
      | [] ↦ report "dataplane: at least one bind address is required"
      | addr ∷ later ↦
          if opts.admin_addr == ""
          then report "dataplane: admin address is required"
          else create_from true [] (addr ∷ later)
    ]

-- The data plane of the servers.
abbrev pub dataplane_of : List Instance → Dataplane
dataplane_of made = record { servers = map (λ (i : Instance). i.server) made }
