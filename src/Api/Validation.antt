-- ===== src/Api/Validation.antt =====
-- GatewayConfigSpec.Validate (api/v1alpha1/gatewayconfig_validation.go) against a description of
-- the specs that it lets pass.
use rsync_gateway.Prelude.{
  ℕ, ◌≡◌, refl, ◌↔◌, false, Option, none, some, String, Result, ok, err, ◌>>◌,
}
use rsync_gateway.Prelude.Int.{ℤ, pos, negsuc, is_negative}
use rsync_gateway.Api.{
  GatewayConfigSpec, ThroughputFloorSpec, ParseDuration, check_int, check_duration, check_min_bytes,
  throughput_floor_window, throughput_floor_grace, validate,
}

-- A number that is set is at least 0.
abbrev pub NonNegative : Option ℤ → Type 0
NonNegative none = Unit {0}
NonNegative (some v) = is_negative v ≡ false

abbrev pub FloorOk : Option ThroughputFloorSpec → Type 0
FloorOk none = Unit {0}
FloorOk (some f) = NonNegative f.min_bytes

-- A duration that is set parses to one of at least 0.
abbrev pub IsDuration : ParseDuration → Option String → Type 0
IsDuration parse none = Unit {0}
IsDuration parse (some d) = (n : ℕ) × (parse d ≡ ok (pos n))

pub record IsValidSpec (parse : ParseDuration) (s : GatewayConfigSpec) : Type 0 where
  pub per_ip : NonNegative s.per_ip_max_active_connections
  pub active : NonNegative s.max_active_connections
  pub queued : NonNegative s.max_queued_connections
  pub idle : IsDuration parse s.relay_idle_timeout
  pub max_duration : IsDuration parse s.relay_max_duration
  pub keep_alive : IsDuration parse s.tcp_keep_alive
  pub dial : IsDuration parse s.dial_timeout
  pub window : IsDuration parse (throughput_floor_window s)
  pub grace : IsDuration parse (throughput_floor_grace s)
  pub min_bytes : FloorOk s.throughput_floor

check_int_iff : (name : String) (v : Option ℤ) → (check_int name v ≡ ok tt) ↔ NonNegative v
unfolding check_int
check_int_iff name none = ((λ _. tt), λ _. refl)
check_int_iff name (some (pos n)) = ((λ _. refl), λ _. refl)
check_int_iff name (some (negsuc n)) = ((λ h. cc), λ h. cc)

check_min_bytes_iff : (f : Option ThroughputFloorSpec) → (check_min_bytes f ≡ ok tt) ↔ FloorOk f
unfolding check_min_bytes
check_min_bytes_iff none = ((λ _. tt), λ _. refl)
check_min_bytes_iff (some f) = check_int_iff "throughputFloor.minBytes" f.min_bytes

-- A sequence of checks passes when each does.
seq_iff : (m k : Result String (Unit {0})) → ((m >> k) ≡ ok tt) ↔ ((m ≡ ok tt) × (k ≡ ok tt))
seq_iff (ok tt) k = ((λ h. (refl, h)), λ h. h.1)
seq_iff (err e) k = ((λ h. cc), λ h. cc h.0)

module _ (parse : ParseDuration) where
  check_parsed_iff :
      (name d : String) (r : Result String ℤ)
      → parse d ≡ r
      → (check_duration parse name (some d) ≡ ok tt) ↔ IsDuration parse (some d)
  unfolding check_duration
  check_parsed_iff name d (ok (pos n)) e = ((λ _. (n, e)), λ _. rw (e, check_duration))
  check_parsed_iff name d (ok (negsuc n)) e = ((λ h. cc (rw (e, check_duration) at h)), λ h. cc h.1)
  check_parsed_iff name d (err x) e = ((λ h. cc (rw (e, check_duration) at h)), λ h. cc h.1)

  check_duration_iff :
      (name : String) (d : Option String)
      → (check_duration parse name d ≡ ok tt) ↔ IsDuration parse d
  check_duration_iff name none = unfold check_duration in ((λ _. tt), λ _. refl)
  check_duration_iff name (some d) = check_parsed_iff name d (parse d) refl

  -- Validate succeeds on exactly the specs whose numbers are at least 0 and whose durations parse
  -- to a span of at least 0, with any duration parser.
  pub validate_iff : (s : GatewayConfigSpec) → (validate parse s ≡ ok tt) ↔ IsValidSpec parse s
  unfolding validate
  validate_iff s = (sound, complete)
    where
      sound : validate parse s ≡ ok tt → IsValidSpec parse s
      sound h =
          let (a, h) = (seq_iff _ _).0 h in
          let (b, h) = (seq_iff _ _).0 h in
          let (c, h) = (seq_iff _ _).0 h in
          let (d, h) = (seq_iff _ _).0 h in
          let (e, h) = (seq_iff _ _).0 h in
          let (f, h) = (seq_iff _ _).0 h in
          let (g, h) = (seq_iff _ _).0 h in
          let (i, h) = (seq_iff _ _).0 h in
          let (j, k) = (seq_iff _ _).0 h in
          record {
            per_ip = (check_int_iff _ _).0 a;
            active = (check_int_iff _ _).0 b;
            queued = (check_int_iff _ _).0 c;
            idle = (check_duration_iff _ _).0 d;
            max_duration = (check_duration_iff _ _).0 e;
            keep_alive = (check_duration_iff _ _).0 f;
            dial = (check_duration_iff _ _).0 g;
            window = (check_duration_iff _ _).0 i;
            grace = (check_duration_iff _ _).0 j;
            min_bytes = (check_min_bytes_iff _).0 k;
          }

      complete : IsValidSpec parse s → validate parse s ≡ ok tt
      complete v =
          rw
            (
              (check_int_iff "perIPMaxActiveConnections" _).1 v.per_ip,
              (check_int_iff "maxActiveConnections" _).1 v.active,
              (check_int_iff "maxQueuedConnections" _).1 v.queued,
              (check_duration_iff "relayIdleTimeout" _).1 v.idle,
              (check_duration_iff "relayMaxDuration" _).1 v.max_duration,
              (check_duration_iff "tcpKeepAlive" _).1 v.keep_alive,
              (check_duration_iff "dialTimeout" _).1 v.dial,
              (check_duration_iff "throughputFloor.window" _).1 v.window,
              (check_duration_iff "throughputFloor.grace" _).1 v.grace,
            )
            ((check_min_bytes_iff _).1 v.min_bytes)
