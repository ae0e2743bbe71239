-- ===== src/Server/Relay/Session/Tests.antt =====
-- A session that waits for its turn and is relayed, and lines in two pieces.
use rsync_gateway.Prelude.{
  ◌≡◌, refl, true, false, List, [], ◌∷◌, some, none, arith, inl, inr, String,
}
use rsync_gateway.Prelude.Int.{pos}
use rsync_gateway.Prelude.Text.{◌^^◌, decimal, quote}
use rsync_gateway.Prelude.Bytes.{ends_line, has_prefix, take, drop, behind_line}
use rsync_gateway.Queue.{new}
use rsync_gateway.Queue.Channel.{granted_status, waiting_status}
use rsync_gateway.Server.{
  Server, UpstreamConfig, Target, get_targets_for_module, get_queue_for_upstream,
  get_per_ip_limit_for_upstream,
}
use rsync_gateway.Server.Wire.{Arrival, tcp, read_line, proxy_header, net_addr_to_string, network}
use rsync_gateway.Server.Wire.Lines.{Reads, pending, read_line-Reads}
use rsync_gateway.Server.Relay.{
  upstream, Effect, send, notice, minute, Env, World, read_or_quit, send_or_quit,
}
use rsync_gateway.Server.Relay.Session.{handle_conn}
use rsync_gateway.Server.Relay.Line.{take_turn}
use rsync_gateway.Server.Relay.Forward.{connect}
use rsync_gateway.Server.Balance.{choose_target_by_client_ip}
use rsync_gateway.Api.{int_text}
use rsync_gateway.Prelude.Keys.{String_eq, lookup}
use rsync_gateway.Server.Relay.Session.Returns.{Departs, handle_conn-Departs}
use rsync_gateway.Server.Relay.Session.Obeys.{Follows, handle_conn-Follows}

abbrev pieces : List Arrival
pieces =
    record { bytes = "@RSYNCD: 3"; failure = none }
    ∷ record { bytes = "1.0\ndebian\n"; failure = none }
    ∷ []

read_line-Reads_example : Reads 256 ("" ^^ pending pieces) (read_line 256 "" pieces)
read_line-Reads_example = read_line-Reads 256 "" pieces (omega arith) (unfold ends_line in refl)

abbrev target : Target
target = record { upstream = "u1"; addr = "10.0.0.1:873"; use_proxy_protocol = true }

abbrev upstream_config : UpstreamConfig
upstream_config = record {
  name = "u1";
  target = target;
  modules = "debian" ∷ [];
  discover_modules = false;
  max_active_conns = pos 1;
  max_queued_conns = pos 8;
  per_ip_max_active_conns = pos 2;
}

abbrev server : Server
server = record {
  listen_addr = ":873";
  tls_listen_addr = "";
  http_listen_addr = "";
  relay_idle_timeout = pos 0;
  relay_max_duration = pos 0;
  tcp_keep_alive = pos 0;
  min_throughput_bytes = pos 0;
  min_throughput_window = pos 0;
  min_throughput_grace = pos 0;
  motd = "hello";
  access_log = "";
  error_log = "";
  dialer_keep_alive = pos 0;
  dialer_timeout = pos 0;
  modules = ("debian", target ∷ []) ∷ [];
  upstreams = upstream_config ∷ [];
  tls_certificate = none;
  upstream_queues = ("u1", new (pos 1) (pos 8)) ∷ [];
  tcp_listener = true;
  tls_listener = false;
  http_listener = true;
}

abbrev env : Env
env = record {
  index = 7;
  client_addr = tcp (10 ∷ 0 ∷ 0 ∷ 7 ∷ []) 40000;
  addr_text = λ a. "10.0.0.7:40000";
  ip_text = λ bytes. "10.0.0.7";
  parse_ip = λ text. 10 ∷ 0 ∷ 0 ∷ 7 ∷ [];
  view = λ moment. server;
  counter_value = pos 1;
  queue_max = pos 1;
  events = notice (waiting_status (pos 0) (pos 1)) ∷ minute ∷ notice granted_status ∷ [];
  dial_failure = none;
  upstream_addr = tcp (10 ∷ 0 ∷ 0 ∷ 1 ∷ []) 873;
  transferred = some (5000, 20, upstream);
}

abbrev world : World
world = record {
  from_client =
      record { bytes = "@RSYNCD: 31.0\n"; failure = none }
      ∷ record { bytes = "debian\n"; failure = none }
      ∷ [];
  from_upstream = record { bytes = "@RSYNCD: 31.0\nwelcome\n"; failure = none } ∷ [];
  writes = [];
  trace = [];
}

handle_conn-Follows_example : Follows (handle_conn env world)
handle_conn-Follows_example = handle_conn-Follows env world refl

-- What the upstream is sent, the latest first.
abbrev sent_upstream : List Effect → List String
sent_upstream [] = []
sent_upstream (send upstream text ∷ effects) = text ∷ sent_upstream effects
sent_upstream (_ ∷ effects) = sent_upstream effects

handle_conn-world :
    sent_upstream (handle_conn env world).1.trace
    ≡ "debian\n" ∷ "@RSYNCD: 31.0\n" ∷ "PROXY TCP4 10.0.0.7 10.0.0.7 40000 873\r\n" ∷ []
unfolding handle_conn read_or_quit send_or_quit read_line take_turn connect get_targets_for_module
    get_queue_for_upstream get_per_ip_limit_for_upstream choose_target_by_client_ip int_text
    proxy_header net_addr_to_string network lookup has_prefix take ends_line behind_line drop
    decimal quote
handle_conn-world = refl

-- A read that has waited as long as its deadline allows.
abbrev timeout : Arrival
timeout = record { bytes = ""; failure = some "i/o timeout" }

-- The client falls silent after its version.
abbrev silent : World
silent = record {
  from_client = record { bytes = "@RSYNCD: 31.0\n"; failure = none } ∷ timeout ∷ timeout ∷ [];
  from_upstream = timeout ∷ [];
  writes = [];
  trace = [];
}

handle_conn-Departs_example : Departs (handle_conn env silent)
handle_conn-Departs_example =
    handle_conn-Departs env silent 5000 20 upstream refl (omega arith) (omega arith)
      (inr (inr (inl refl))) refl
