-- ===== src/Server.antt =====
-- pkg/server: the proxy's configuration (config.go) and the state that a load of it sets (server.go).
pub mod Load
pub mod Admission
pub mod Balance
pub mod Modules
pub mod Wire
pub mod Listing
pub mod Discovery
pub mod Listen
pub mod Relay
pub mod Watch
pub mod Metrics
mod Tests
use rsync_gateway.Prelude.{
  ℕ, suc, ◌+◌, ◌-◌, ◌*◌, ◌%◌, ◌^◌, ◌≡◌, Bool, true, false, not, ◌&&◌, ◌||◌, List, [], ◌∷◌, ◌++◌,
  Option, none, some, String, if◌then◌else◌, get_or, ltb,
}
use rsync_gateway.Prelude.Int.{ℤ, pos, negsuc, int_eq}
use rsync_gateway.Prelude.Keys.{◌==◌, String_eq, Map, lookup, insert}
use rsync_gateway.Queue.{Queue}

-- Upstream
pub record Upstream : Type 0 where
  pub address : String
  pub modules : List String
  pub discover_modules : Bool
  pub use_proxy_protocol : Bool
  pub max_active_conns : ℤ
  pub max_queued_conns : ℤ
  pub per_ip_max_active_conns : ℤ

pub record ProxySettings : Type 0 where
  pub listen : String
  pub listen_tls : String
  pub listen_http : String
  pub motd : String
  pub access_log : String
  pub error_log : String
  pub tls_cert_file : String
  pub tls_key_file : String
  pub relay_idle_timeout_secs : ℤ
  pub relay_max_duration_secs : ℤ
  pub tcp_keep_alive_secs : ℤ
  pub per_ip_max_active_conns : ℤ
  pub dial_timeout_secs : ℤ
  pub min_throughput_bytes : ℤ
  pub min_throughput_window_secs : ℤ
  pub min_throughput_grace_secs : ℤ

pub record Config : Type 0 where
  pub proxy : ProxySettings
  pub upstreams : Map String Upstream

pub record Target : Type 0 where
  pub upstream : String
  pub addr : String
  pub use_proxy_protocol : Bool

pub record UpstreamConfig : Type 0 where
  pub name : String
  pub target : Target
  pub modules : List String
  pub discover_modules : Bool
  pub max_active_conns : ℤ
  pub max_queued_conns : ℤ
  pub per_ip_max_active_conns : ℤ

-- The fields of Server that loadConfig reads and writes; of the listeners, whether they are there,
-- of a logger, its file, and a certificate is an identity.
pub record Server : Type 0 where
  pub listen_addr : String
  pub tls_listen_addr : String
  pub http_listen_addr : String
  pub relay_idle_timeout : ℤ
  pub relay_max_duration : ℤ
  pub tcp_keep_alive : ℤ
  pub min_throughput_bytes : ℤ
  pub min_throughput_window : ℤ
  pub min_throughput_grace : ℤ
  pub motd : String
  pub access_log : String
  pub error_log : String
  pub dialer_keep_alive : ℤ
  pub dialer_timeout : ℤ
  pub modules : Map String (List Target)
  pub upstreams : List UpstreamConfig
  pub tls_certificate : Option ℕ
  pub upstream_queues : Map String Queue
  pub tcp_listener : Bool
  pub tls_listener : Bool
  pub http_listener : Bool

-- An int64 from its 64 bits.
pub signed : ℕ → ℤ
signed m = if ltb m (2 ^ 63) then pos m else negsuc (2 ^ 64 - m - 1)

-- int64 arithmetic wraps.
pub int64 : ℤ → ℤ
unfolding signed
int64 (pos n) = signed (n % 2 ^ 64)
int64 (negsuc n) = signed ((2 ^ 64 - suc n % 2 ^ 64) % 2 ^ 64)

pub billion_times : ℤ → ℤ
billion_times (pos n) = pos (n * 1000000000)
billion_times (negsuc n) = negsuc (suc n * 1000000000 - 1)

-- time.Duration(s) * time.Second
pub seconds : ℤ → ℤ
unfolding int64 billion_times
seconds s = int64 (billion_times s)

-- A number with a default in place of 0.
abbrev pub or_default : ℤ → ℤ → ℤ
or_default v d = if int_eq v (pos 0) then d else v

-- buildModuleTargets: the inner loop, and the outer one.
pub add_targets : Target → List String → Map String (List Target) → Map String (List Target)
add_targets t [] modules = modules
add_targets t (m ∷ ms) modules =
    add_targets t ms (insert m (get_or (lookup m modules) [] ++ t ∷ []) modules)

pub module_targets_from : List UpstreamConfig → Map String (List Target) → Map String (List Target)
module_targets_from [] modules = modules
module_targets_from (u ∷ us) modules =
    module_targets_from us (add_targets u.target u.modules modules)

pub build_module_targets : List UpstreamConfig → Map String (List Target)
build_module_targets upstreams = module_targets_from upstreams []

-- resolveUpstreams
pub resolve_upstream : Map String (List String) → UpstreamConfig → UpstreamConfig
resolve_upstream discovered u = record u {
  modules = if u.discover_modules then get_or (lookup u.name discovered) [] else u.modules;
}

-- getTargetsForModule, getQueueForUpstream
unfoldable pub get_targets_for_module : Server → String → Option (List Target)
get_targets_for_module s m = lookup m s.modules

unfoldable pub get_queue_for_upstream : Server → String → Option Queue
get_queue_for_upstream s name = lookup name s.upstream_queues

-- The loop of getPerIPLimitForUpstream.
pub per_ip_limit : List UpstreamConfig → String → ℤ
per_ip_limit [] name = pos 0
per_ip_limit (u ∷ us) name =
    let rest = per_ip_limit us name in if u.name == name then u.per_ip_max_active_conns else rest

unfoldable pub get_per_ip_limit_for_upstream : Server → String → ℤ
unfolding per_ip_limit
get_per_ip_limit_for_upstream s name = per_ip_limit s.upstreams name
