-- ===== src/Server/Watch.antt =====
-- The watcher of relay in pkg/server/server.go, which ends a relay that is idle, too long or too slow. Times
-- are nanoseconds of one clock.
pub mod Interval
pub mod Justified
pub mod Silence
mod Tests
use rsync_gateway.Prelude.{
  ℕ, zero, suc, ◌+◌, ◌/◌, Bool, true, false, not, ◌&&◌, ◌||◌, List, [], ◌∷◌, Option, none, some,
  if◌then◌else◌,
}
use rsync_gateway.Prelude.Int.{ℤ, pos, negsuc, sub_ℕ, ltb_ℤ, int_eq}
use rsync_gateway.Server.{Server}

-- relayTimings
pub record Timings : Type 0 where
  pub idle : ℤ
  pub max_duration : ℤ
  pub tcp_keep_alive : ℤ
  pub min_bytes : ℤ
  pub min_window : ℤ
  pub min_grace : ℤ

-- getRelayTimings
pub get_relay_timings : Server → Timings
get_relay_timings s = record {
  idle = s.relay_idle_timeout;
  max_duration = s.relay_max_duration;
  tcp_keep_alive = s.tcp_keep_alive;
  min_bytes = s.min_throughput_bytes;
  min_window = s.min_throughput_window;
  min_grace = s.min_throughput_grace;
}

abbrev pub is_on : ℤ → Bool
is_on d = ltb_ℤ (pos 0) d

-- a >= b
abbrev pub at_least : ℤ → ℤ → Bool
at_least a b = not (ltb_ℤ a b)

abbrev pub throughput_enabled : Timings → Bool
throughput_enabled t = is_on t.min_bytes && is_on t.min_window

-- Go's division by 4, which rounds towards 0.
abbrev pub quarter : ℤ → ℤ
quarter (pos n) = pos (n / 4)
quarter (negsuc n) = if int_eq (pos (suc n / 4)) (pos 0) then pos 0 else sub_ℕ 0 (suc n / 4)

abbrev pub second : ℕ
second = 1000000000

-- bumpInterval, with the interval that it changes.
pub bump_interval : ℤ → ℤ → ℤ
bump_interval interval d =
    if not (ltb_ℤ (pos 0) d)
    then interval
    else if int_eq interval (pos 0) || ltb_ℤ d interval
    then d
    else interval

abbrev pub bump_if : Bool → ℤ → ℤ → ℤ
bump_if enabled d interval = if enabled then bump_interval interval (quarter d) else interval

-- The interval of the ticker.
pub wake_interval : Timings → ℤ
unfolding bump_interval
wake_interval t =
    let bumped =
      bump_if (throughput_enabled t) t.min_window
        (bump_if (is_on t.max_duration) t.max_duration (bump_if (is_on t.idle) t.idle (pos 0))) in
    if ltb_ℤ bumped (pos second) then pos second else bumped

-- What the watcher meets: a tick, with the last activity and the bytes that it reads there, or the end
-- of the copying in one direction.
pub record Tick : Type 0 where
  pub now : ℕ
  pub last_activity : ℕ
  pub bytes : ℕ

pub data Signal : Type 0 where
  tick : Tick → Signal
  copy_ended : Signal

-- lastSampleTime and lastSampleBytes
pub record Sample : Type 0 where
  pub time : ℕ
  pub bytes : ℕ

-- Why a relay is ended.
pub data Reason : Type 0 where
  idle_timeout max_duration_reached below_floor : Reason

pub data Verdict : Type 0 where
  watch_on : Sample → Verdict
  closing : Reason → Verdict

module _ (t : Timings) (started : ℕ) where
  -- The throughput floor at a tick.
  pub check_floor : Sample → Tick → Verdict
  check_floor s k =
      if throughput_enabled t
        && at_least (sub_ℕ k.now started) t.min_grace
        && at_least (sub_ℕ k.now s.time) t.min_window
      then (if ltb_ℤ (sub_ℕ k.bytes s.bytes) t.min_bytes
          then closing below_floor
          else watch_on (record { time = k.now; bytes = k.bytes }))
      else watch_on s

  -- The body of the watcher's loop at a tick.
  pub watch_tick : Sample → Tick → Verdict
  unfolding check_floor
  watch_tick s k =
      if is_on t.idle && at_least (sub_ℕ k.now k.last_activity) t.idle
      then closing idle_timeout
      else if is_on t.max_duration && at_least (sub_ℕ k.now started) t.max_duration
      then closing max_duration_reached
      else check_floor s k

  resume : Tick → Verdict → (Sample → Option (Tick × Reason)) → Option (Tick × Reason)
  resume k (closing why) rest = some (k, why)
  resume k (watch_on s) rest = rest s

  -- The watcher's loop: the tick at which it ends the relay, and why. Where no signal is left, it waits.
  pub watch : Sample → List Signal → Option (Tick × Reason)
  unfolding watch_tick resume
  watch s [] = none
  watch s (copy_ended ∷ signals) = none
  watch s (tick k ∷ signals) = resume k (watch_tick s k) (λ s'. watch s' signals)

  -- The goroutine, which is started if any of the three is on.
  pub watcher : List Signal → Option (Tick × Reason)
  unfolding watch
  watcher signals =
      if is_on t.idle || is_on t.max_duration || throughput_enabled t
      then watch (record { time = started; bytes = 0 }) signals
      else none
