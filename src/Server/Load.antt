-- ===== src/Server/Load.antt =====
-- loadConfig of pkg/server/server.go. Name resolution, the key pair's files, the log files and the
-- discovery of an upstream's modules are parameters: each answers with a value or an error's text.
pub mod Numbers
pub mod Reload
pub mod Alike
mod Tests
use Prim.Native.Char.{code}
use rsync_gateway.Prelude.{
  ℕ, ◌≡◌, Bool, true, false, not, ◌&&◌, ◌||◌, List, [], ◌∷◌, ◌++◌, map, Option, none, some, String,
  Result, ok, err, ◌>>=◌, ◌>>◌, fail_if, if◌then◌else◌, get_or, nat_eq,
}
use rsync_gateway.Prelude.Int.{ℤ, pos, int_eq, is_negative}
use rsync_gateway.Prelude.Keys.{◌==◌, String_eq, Map, lookup, insert}
use rsync_gateway.Prelude.Text.{◌^^◌, str_lt}
use rsync_gateway.Api.{int_text}
use rsync_gateway.Queue.{Queue, new, set_max}
use rsync_gateway.Queue.Channel.{Fault}
use rsync_gateway.Server.{
  Upstream, ProxySettings, Config, UpstreamConfig, Server, seconds, or_default,
  build_module_targets, resolve_upstream,
}

-- What the code asks of the operating system and the network.
pub record World : Type 0 where
  pub resolve_unix : String → Result String (Unit {0})
  pub resolve_tcp : String → Result String (Unit {0})
  pub load_key_pair : String → String → Result String ℕ
  pub set_file : String → Result String (Unit {0})
  pub discover : UpstreamConfig → Result String (List String)

pub check_non_negative : String → ℤ → Result String (Unit {0})
check_non_negative name v =
    fail_if (is_negative v) (name ^^ " must be non-negative, got " ^^ int_text v)

-- An error's text with a text in front, as `%w` gives it.
unfoldable pub wrap {ℓ} : {A : Type ℓ} → (String → String) → Result String A → Result String A
wrap f (ok a) = ok a
wrap f (err e) = err (f e)

pub server_started : Server → Bool
server_started s = s.tcp_listener || s.http_listener || s.tls_listener

pub check_listen_tls : Server → ProxySettings → Result String (Unit {0})
unfolding server_started
check_listen_tls s p = do
  fail_if (server_started s && (not s.tls_listener && not (p.listen_tls == "")))
      "listen_tls cannot be enabled on reload; restart required"
  fail_if (server_started s && (s.tls_listener && p.listen_tls == ""))
      "listen_tls cannot be disabled on reload; restart required"

-- The seven checks of the proxy's numbers that come first.
pub check_numbers : ProxySettings → Result String (Unit {0})
check_numbers p = do
  check_non_negative "relay_max_duration" p.relay_max_duration_secs
  check_non_negative "tcp_keepalive" p.tcp_keep_alive_secs
  check_non_negative "per_ip_max_active_connections" p.per_ip_max_active_conns
  check_non_negative "dial_timeout" p.dial_timeout_secs
  check_non_negative "min_throughput_bytes" p.min_throughput_bytes
  check_non_negative "min_throughput_window" p.min_throughput_window_secs
  check_non_negative "min_throughput_grace" p.min_throughput_grace_secs

-- The entries of the map in the order that sort.Strings gives their names.
pub place_upstream : String × Upstream → List (String × Upstream) → List (String × Upstream)
place_upstream x [] = x ∷ []
place_upstream x (y ∷ ys) =
    let rest = place_upstream x ys in if str_lt y.0 x.0 then y ∷ rest else x ∷ y ∷ ys

pub sort_upstreams : Map String Upstream → List (String × Upstream)
sort_upstreams [] = []
sort_upstreams (x ∷ xs) = place_upstream x (sort_upstreams xs)

is_unix_addr : String → Bool
is_unix_addr String.[] = false
is_unix_addr (String.◌∷◌ c s) = nat_eq (code c) 47

is_empty : List String → Bool
is_empty [] = true
is_empty (_ ∷ _) = false

module _ (w : World) where
  -- validateTCPOrUnixAddr
  pub validate_addr : String → Result String (Unit {0})
  unfolding is_unix_addr
  validate_addr addr = if is_unix_addr addr then w.resolve_unix addr else w.resolve_tcp addr

  pub load_certificate : ProxySettings → Result String (Option ℕ)
  load_certificate p =
      if p.listen_tls == ""
      then ok none
      else if p.tls_cert_file == "" || p.tls_key_file == ""
      then err "listen_tls requires tls_cert_file and tls_key_file"
      else (do
        cert ←
            wrap (λ e. "load tls certificate: " ^^ e)
              (w.load_key_pair p.tls_cert_file p.tls_key_file)
        ok (some cert))

  -- The body of the loop over the sorted upstreams.
  pub build_upstream : ProxySettings → String → Upstream → Result String UpstreamConfig
  unfolding is_empty
  build_upstream p name v = do
    fail_if (is_empty v.modules && not v.discover_modules)
        ("upstream=" ^^ name ^^ " must set modules or discover_modules")
    fail_if (is_negative v.per_ip_max_active_conns) (
        "upstream="
        ^^ name
        ^^ ": per_ip_max_active_connections must be non-negative, got "
        ^^ int_text v.per_ip_max_active_conns)
    wrap (λ e. "resolve address: " ^^ e ^^ ", upstream=" ^^ name ^^ ", address=" ^^ v.address)
        (validate_addr v.address)
    ok (record {
      name = name;
      target = record {
        upstream = name;
        addr = v.address;
        use_proxy_protocol = v.use_proxy_protocol;
      };
      modules = v.modules;
      discover_modules = v.discover_modules;
      max_active_conns = v.max_active_conns;
      max_queued_conns = v.max_queued_conns;
      per_ip_max_active_conns = or_default v.per_ip_max_active_conns p.per_ip_max_active_conns;
    })

  pub build_upstreams :
      ProxySettings → List (String × Upstream) → Result String (List UpstreamConfig)
  build_upstreams p [] = ok []
  build_upstreams p ((name, v) ∷ vs) = do
    u ← build_upstream p name v
    us ← build_upstreams p vs
    ok (u ∷ us)

  -- discoverConfiguredModules, without its log lines.
  pub discover_configured :
      List UpstreamConfig → Map String (List String) → Result String (Map String (List String))
  discover_configured [] found = ok found
  discover_configured (u ∷ us) found =
      if not u.discover_modules then discover_configured us found else (do
        modules ←
            wrap
              (λ e.
                "discover modules from upstream " ^^ u.name ^^ " (" ^^ u.target.addr ^^ "): " ^^ e)
              (w.discover u)
        discover_configured us (insert u.name modules found))

  -- loadConfig up to the point where it starts to write: the certificate, the resolved upstreams.
  pub prepare : Server → Config → Bool → Result String (Option ℕ × List UpstreamConfig)
  prepare s c open_log = do
    check_listen_tls s c.proxy
    cert ← load_certificate c.proxy
    check_numbers c.proxy
    upstreams ← build_upstreams c.proxy (sort_upstreams c.upstreams)
    found ← if open_log then discover_configured upstreams [] else ok []
    ok (cert, map (resolve_upstream found) upstreams)

  -- The two SetFile calls, each of which may return early; its file name is set all the same.
  pub open_logs : Server → ProxySettings → Server × Option String
  open_logs s p = elim (w.set_file p.access_log) [
    | err e ↦ (record s { access_log = p.access_log }, some e)
    | ok _ ↦ elim (w.set_file p.error_log) [
      | err e ↦ (record s { access_log = p.access_log; error_log = p.error_log }, some e)
      | ok _ ↦ (record s { access_log = p.access_log; error_log = p.error_log }, none)
    ]
  ]

-- updateUpstreamQueuesLocked: a queue that is there is resized in place. Upstreams have different
-- names, so none is met twice.
pub update_upstream_queues :
    Map String Queue → List UpstreamConfig → Map String Queue → Result Fault (Map String Queue)
update_upstream_queues old [] queues = ok queues
update_upstream_queues old (u ∷ us) queues = do
  q ← elim (lookup u.name old) [
    | none ↦ ok (new u.max_active_conns u.max_queued_conns)
    | some q ↦ set_max u.max_active_conns u.max_queued_conns q
  ]
  update_upstream_queues old us (insert u.name q queues)

-- The addresses that are still unset, and their lines of loadConfig.
pub set_addresses : Server → ProxySettings → Server
set_addresses s p = record s {
  listen_addr = if s.listen_addr == "" then p.listen else s.listen_addr;
  tls_listen_addr = if s.tls_listen_addr == "" then p.listen_tls else s.tls_listen_addr;
  http_listen_addr = if s.http_listen_addr == "" then p.listen_http else s.http_listen_addr;
}

-- The assignments behind the check of relay_idle_timeout.
pub set_settings :
    Server → ProxySettings → Option ℕ → List UpstreamConfig → Map String Queue → Server
set_settings s p cert upstreams queues =
    let window = or_default p.min_throughput_window_secs (pos 60) in
    record s {
      relay_idle_timeout = seconds p.relay_idle_timeout_secs;
      relay_max_duration = seconds p.relay_max_duration_secs;
      tcp_keep_alive = seconds p.tcp_keep_alive_secs;
      min_throughput_bytes = p.min_throughput_bytes;
      min_throughput_window = seconds window;
      min_throughput_grace = seconds (or_default p.min_throughput_grace_secs window);
      dialer_keep_alive = seconds p.tcp_keep_alive_secs;
      dialer_timeout = seconds p.dial_timeout_secs;
      modules = build_module_targets upstreams;
      upstreams = upstreams;
      upstream_queues = queues;
      tls_certificate = cert;
    }

-- loadConfig from the message of the day on.
pub commit :
    Server → ProxySettings → Option ℕ → List UpstreamConfig → Result Fault (Server × Option String)
commit s p cert upstreams =
    let s' = record s { motd = p.motd } in
    elim (check_non_negative "relay_idle_timeout" p.relay_idle_timeout_secs) [
      | err e ↦ ok (s', some e)
      | ok _ ↦ do
        queues ← update_upstream_queues s.upstream_queues upstreams []
        ok (set_settings s' p cert upstreams queues, none)
    ]

-- loadConfig behind the log files: an error of theirs is returned.
pub commit_after :
    Server × Option String
    → ProxySettings
    → Option ℕ
    → List UpstreamConfig
    → Result Fault (Server × Option String)
commit_after (s, some why) p cert upstreams = ok (s, some why)
commit_after (s, none) p cert upstreams = commit s p cert upstreams

-- The server afterwards, and the error.
pub load_config : World → Server → Config → Bool → Result Fault (Server × Option String)
load_config w s c open_log = elim (prepare w s c open_log) [
  | err e ↦ ok (s, some e)
  | ok (cert, upstreams) ↦
      commit_after
        (if open_log
          then open_logs w (set_addresses s c.proxy) c.proxy
          else (set_addresses s c.proxy, none))
        c.proxy cert upstreams
]
