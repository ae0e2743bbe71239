-- ===== src/Api.antt =====
-- api/v1alpha1: the identity constants of identity.go and groupversion_info.go, the spec of a
-- GatewayConfig (gatewayconfig_types.go), and its validation (gatewayconfig_validation.go).
pub mod Validation
use rsync_gateway.Prelude.{
  ℕ, ◌≡◌, Bool, true, false, List, [], ◌∷◌, Option, none, some, String, Result, ok, err, ◌>>=◌,
  ◌>>◌, fail_if, if◌then◌else◌,
}
use rsync_gateway.Prelude.Int.{ℤ, pos, negsuc, is_negative, pos_part, neg_part}
use rsync_gateway.Prelude.Text.{◌^^◌, decimal, quote}

abbrev pub group_name : String
group_name = "gateway.rsync.zjusct.io"

abbrev pub protocol_rsync : String
protocol_rsync = "rsync.zjusct.io/rsync"

abbrev pub controller_name : String
controller_name = "gateway.rsync.zjusct.io/rsync-gateway"

abbrev pub route_kind : String
route_kind = "RsyncRoute"

abbrev pub core_group : String
core_group = ""

-- A GEP-2257 duration is kept as its text.
pub record ThroughputFloorSpec : Type 0 where
  pub min_bytes : Option ℤ
  pub window : Option String
  pub grace : Option String

pub record GatewayConfigSpec : Type 0 where
  pub motd : Option String
  pub relay_idle_timeout : Option String
  pub relay_max_duration : Option String
  pub tcp_keep_alive : Option String
  pub dial_timeout : Option String
  pub per_ip_max_active_connections : Option ℤ
  pub max_active_connections : Option ℤ
  pub max_queued_connections : Option ℤ
  pub throughput_floor : Option ThroughputFloorSpec

-- ThroughputFloorWindow, ThroughputFloorGrace
unfoldable pub throughput_floor_window : GatewayConfigSpec → Option String
throughput_floor_window s = elim s.throughput_floor [ none ↦ none | some f ↦ f.window ]

unfoldable pub throughput_floor_grace : GatewayConfigSpec → Option String
throughput_floor_grace s = elim s.throughput_floor [ none ↦ none | some f ↦ f.grace ]

-- %d of an int.
unfoldable pub int_text : ℤ → String
int_text (pos n) = decimal n
int_text (negsuc n) = "-" ^^ decimal (ℕ.suc n)

-- One field of the first loop of Validate.
pub check_int : String → Option ℤ → Result String (Unit {0})
check_int name none = ok tt
check_int name (some v) =
    fail_if (is_negative v) (name ^^ " must be non-negative, got " ^^ int_text v)

-- The last check of Validate.
pub check_min_bytes : Option ThroughputFloorSpec → Result String (Unit {0})
check_min_bytes none = ok tt
check_min_bytes (some f) = check_int "throughputFloor.minBytes" f.min_bytes

-- time.ParseDuration: nanoseconds, or an error's text.
abbrev pub ParseDuration : Type 0
ParseDuration = String → Result String ℤ

module _ (parse_duration : ParseDuration) where
  -- One field of the second loop.
  pub check_duration : String → Option String → Result String (Unit {0})
  check_duration name none = ok tt
  check_duration name (some d) = elim (parse_duration d) [
    | err e ↦ err (name ^^ ": invalid duration " ^^ quote d ^^ ": " ^^ e)
    | ok dur ↦ fail_if (is_negative dur) (name ^^ " must be non-negative, got " ^^ d)
  ]

  -- GatewayConfigSpec.Validate
  pub validate : GatewayConfigSpec → Result String (Unit {0})
  validate s = do
    check_int "perIPMaxActiveConnections" s.per_ip_max_active_connections
    check_int "maxActiveConnections" s.max_active_connections
    check_int "maxQueuedConnections" s.max_queued_connections
    check_duration "relayIdleTimeout" s.relay_idle_timeout
    check_duration "relayMaxDuration" s.relay_max_duration
    check_duration "tcpKeepAlive" s.tcp_keep_alive
    check_duration "dialTimeout" s.dial_timeout
    check_duration "throughputFloor.window" (throughput_floor_window s)
    check_duration "throughputFloor.grace" (throughput_floor_grace s)
    check_min_bytes s.throughput_floor
