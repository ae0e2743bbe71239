-- ===== src/Server/Watch/Silence.antt =====
-- A relay on which nothing moves is ended by the watcher of pkg/server/server.go.
use rsync_gateway.Prelude.{
  ℕ, ◌≡◌, ◌+◌, ◌*◌, ◌/◌, ◌≤◌, ◌<◌, refl, true, ◌&&◌, ◌||◌, inl, inr, List, [], ◌∷◌, Option, none,
  some, arith, if◌then◌else◌, Bool-cases, All, length, leb,
}
use rsync_gateway.Prelude.Int.{pos, sub_ℕ}
use rsync_gateway.Server.Watch.{
  Timings, Tick, Signal, tick, Sample, Reason, idle_timeout, Verdict, watch_on, closing, second,
  is_on, at_least, throughput_enabled, watch_tick, resume, watch, watcher, wake_interval,
}
use rsync_gateway.Server.Watch.Interval.{wake_interval_bounds}

-- What is read at the ticks: the last activity and the bytes.
pub record Reading : Type 0 where
  pub last_activity : ℕ
  pub bytes : ℕ

-- The ticks of a ticker, the first an interval after a time.
abbrev pub ticks_from : ℕ → ℕ → List Reading → List Signal
ticks_from time interval [] = []
ticks_from time interval (r ∷ readings) =
    tick (record { now = time + interval; last_activity = r.last_activity; bytes = r.bytes })
    ∷ ticks_from (time + interval) interval readings

-- The relay is ended before a time.
abbrev pub EndsBefore : ℕ → Option (Tick × Reason) → Type 0
EndsBefore limit none = ⊥
EndsBefore limit (some (k, why)) = k.now < limit

module _ (t : Timings) (started d interval last : ℕ) (on : 0 < d) (idle : t.idle ≡ pos d) where
  due :
      (s : Sample) (k : Tick)
      → k.last_activity + d ≤ k.now
      → watch_tick t started s k ≡ closing idle_timeout
  unfolding watch_tick
  due s k h = rw (idle_now s k h) refl
    where
      idle_now :
          (s : Sample) (k : Tick)
          → k.last_activity + d ≤ k.now
          → (is_on t.idle && at_least (sub_ℕ k.now k.last_activity) t.idle) ≡ true
      idle_now s k h = rw idle (ground arith)

  resume-EndsBefore :
      (limit : ℕ) (k : Tick) (v : Verdict) (rest : Sample → Option (Tick × Reason))
      → k.now < limit
      → ((s : Sample) → EndsBefore limit (rest s))
      → EndsBefore limit (resume t started k v rest)
  unfolding resume
  resume-EndsBefore limit k (closing why) rest h ih = h
  resume-EndsBefore limit k (watch_on s) rest h ih = ih s

  watch-EndsBefore :
      (s : Sample) (time : ℕ) (readings : List Reading)
      → All (λ r. r.last_activity ≤ last) readings
      → time < last + d
      → last + d ≤ time + length readings * interval
      → EndsBefore (last + d + interval) (watch t started s (ticks_from time interval readings))
  unfolding watch
  watch-EndsBefore s time [] silent before enough = absurd (omega arith)
  watch-EndsBefore s time (r ∷ readings) silent before enough =
      elim (Bool-cases (leb (last + d) (time + interval))) [
        | inl e ↦
            rw
              (
                due s
                    (record {
                      now = time + interval;
                      last_activity = r.last_activity;
                      bytes = r.bytes;
                    })
                    (ground arith),
                resume,
              )
              (omega arith)
        | inr e ↦
            resume-EndsBefore (last + d + interval) _ (watch_tick t started s _) _ (ground arith)
              (λ s'.
                watch-EndsBefore s' (time + interval) readings silent.1 (ground arith)
                  (grind arith))
      ]

-- The longer of a second and a quarter of the timeout.
abbrev pub slack : ℕ → ℕ
slack d = if leb second (d / 4) then d / 4 else second

interval-le-slack :
    (t : Timings) (d interval : ℕ)
    → 4 ≤ d
    → t.idle ≡ pos d
    → wake_interval t ≡ pos interval
    → interval ≤ slack d
interval-le-slack t d interval long idle wake =
    ground (
      arith,
      rw (wake, idle) at (wake_interval_bounds t t.idle (rw idle (omega arith), inl refl)).1,
    )

EndsBefore-weaken : (m n : ℕ) (r : Option (Tick × Reason)) → m ≤ n → EndsBefore m r → EndsBefore n r
EndsBefore-weaken m n none h e = e
EndsBefore-weaken m n (some (k, why)) h e = omega arith

-- With an idle timeout of at least 4 ns, a relay on which nothing has moved since some time is ended within the
-- timeout and, on top of it, a quarter of it or a second, whichever is longer, as long as the ticker
-- goes on to that time and neither direction ends before.
pub watcher-EndsBefore :
    (t : Timings) (started d interval last : ℕ) (readings : List Reading)
    → 4 ≤ d
    → t.idle ≡ pos d
    → wake_interval t ≡ pos interval
    → started ≤ last
    → All (λ r. r.last_activity ≤ last) readings
    → last + d ≤ started + length readings * interval
    → EndsBefore (last + d + slack d) (watcher t started (ticks_from started interval readings))
unfolding watcher
watcher-EndsBefore t started d interval last readings long idle wake order silent enough = rw on (
    EndsBefore-weaken (last + d + interval) (last + d + slack d) _
      (omega (arith, interval-le-slack t d interval long idle wake))
      (watch-EndsBefore t started d interval last (omega arith) idle _ started readings silent
        (omega arith) enough))
  where
    on : (is_on t.idle || is_on t.max_duration || throughput_enabled t) ≡ true
    on = let e : is_on t.idle ≡ true = rw idle (ground arith) in rw e refl
