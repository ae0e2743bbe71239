-- ===== src/Server/Load/Numbers.antt =====
-- The checks of numbers in loadConfig of pkg/server/server.go.
use rsync_gateway.Prelude.{◌≡◌, refl, ◌↔◌, false, String, Result, ok, err, ◌>>◌, fail_if_iff}
use rsync_gateway.Prelude.Int.{ℤ, is_negative}
use rsync_gateway.Server.{ProxySettings}
use rsync_gateway.Server.Load.{check_numbers, check_non_negative}

-- The numbers that loadConfig checks are at least 0.
pub record NumbersOk (p : ProxySettings) : Type 0 where
  pub idle : is_negative p.relay_idle_timeout_secs ≡ false
  pub max_duration : is_negative p.relay_max_duration_secs ≡ false
  pub keep_alive : is_negative p.tcp_keep_alive_secs ≡ false
  pub per_ip : is_negative p.per_ip_max_active_conns ≡ false
  pub dial : is_negative p.dial_timeout_secs ≡ false
  pub bytes : is_negative p.min_throughput_bytes ≡ false
  pub window : is_negative p.min_throughput_window_secs ≡ false
  pub grace : is_negative p.min_throughput_grace_secs ≡ false

check_iff : (name : String) (v : ℤ) → (check_non_negative name v ≡ ok tt) ↔ (is_negative v ≡ false)
unfolding check_non_negative
check_iff name v = fail_if_iff (is_negative v) _

seq_iff : (m k : Result String (Unit {0})) → ((m >> k) ≡ ok tt) ↔ ((m ≡ ok tt) × (k ≡ ok tt))
seq_iff (ok tt) k = ((λ h. (refl, h)), λ h. h.1)
seq_iff (err e) k = ((λ h. cc), λ h. cc h.0)

-- The early checks of loadConfig and its later one of relay_idle_timeout pass exactly when all eight
-- numbers are at least 0.
pub check_numbers_iff :
    (p : ProxySettings)
    → ((check_numbers p ≡ ok tt)
        × (check_non_negative "relay_idle_timeout" p.relay_idle_timeout_secs ≡ ok tt))
      ↔ NumbersOk p
unfolding check_numbers
check_numbers_iff p = (forth, back)
  where
    forth :
        (check_numbers p ≡ ok tt)
          × (check_non_negative "relay_idle_timeout" p.relay_idle_timeout_secs ≡ ok tt)
        → NumbersOk p
    forth (h, i) =
        let (a, h) = (seq_iff _ _).0 h in
        let (b, h) = (seq_iff _ _).0 h in
        let (c, h) = (seq_iff _ _).0 h in
        let (d, h) = (seq_iff _ _).0 h in
        let (e, h) = (seq_iff _ _).0 h in
        let (f, g) = (seq_iff _ _).0 h in
        record {
          idle = (check_iff _ _).0 i;
          max_duration = (check_iff _ _).0 a;
          keep_alive = (check_iff _ _).0 b;
          per_ip = (check_iff _ _).0 c;
          dial = (check_iff _ _).0 d;
          bytes = (check_iff _ _).0 e;
          window = (check_iff _ _).0 f;
          grace = (check_iff _ _).0 g;
        }

    back :
        NumbersOk p
        → (check_numbers p ≡ ok tt)
          × (check_non_negative "relay_idle_timeout" p.relay_idle_timeout_secs ≡ ok tt)
    back n = (
      rw
          (
            (check_iff "relay_max_duration" _).1 n.max_duration,
            (check_iff "tcp_keepalive" _).1 n.keep_alive,
            (check_iff "per_ip_max_active_connections" _).1 n.per_ip,
            (check_iff "dial_timeout" _).1 n.dial,
            (check_iff "min_throughput_bytes" _).1 n.bytes,
            (check_iff "min_throughput_window" _).1 n.window,
          )
          ((check_iff "min_throughput_grace" _).1 n.grace),
      (check_iff "relay_idle_timeout" _).1 n.idle,
    )
