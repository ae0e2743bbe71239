-- ===== src/Server/Watch/Tests.antt =====
-- The watcher of pkg/server/server.go at a relay that goes silent and at one that is slow.
use rsync_gateway.Prelude.{◌≡◌, ◌+◌, refl, List, [], ◌∷◌, some, ℕ, inl, arith}
use rsync_gateway.Prelude.Int.{pos, ◌≤ℤ◌}
use rsync_gateway.Server.Watch.{Timings, Signal, tick, below_floor, second, watcher, wake_interval}
use rsync_gateway.Server.Watch.Interval.{Prompt, wake_interval_bounds}
use rsync_gateway.Server.Watch.Justified.{Justified, watcher-Justified}
use rsync_gateway.Server.Watch.Silence.{Reading, ticks_from, EndsBefore, slack, watcher-EndsBefore}

-- 8 s idle, and 1000 bytes in 4 s.
abbrev timings : Timings
timings = record {
  idle = pos 8000000000;
  max_duration = pos 0;
  tcp_keep_alive = pos 0;
  min_bytes = pos 1000;
  min_window = pos 4000000000;
  min_grace = pos 0;
}

wake_interval_bounds_example :
    (pos second ≤ℤ wake_interval timings) × Prompt (wake_interval timings) (pos 8000000000)
wake_interval_bounds_example = wake_interval_bounds timings (pos 8000000000) (omega arith, inl refl)

abbrev moved : ℕ → ℕ → Signal
moved now bytes = tick (record { now = now; last_activity = now; bytes = bytes })

-- Enough in the first window, too little in the second.
abbrev slow : List Signal
slow = moved 2000000000 600 ∷ moved 4000000000 1200 ∷ moved 8000000000 1300 ∷ []

watcher-slow :
    watcher timings 0 slow
    ≡ some (record { now = 8000000000; last_activity = 8000000000; bytes = 1300 }, below_floor)
unfolding watcher
watcher-slow = refl

watcher-Justified_example :
    Justified timings 0 (record { time = 0; bytes = 0 }) slow (watcher timings 0 slow)
watcher-Justified_example = watcher-Justified timings 0 slow

abbrev idle_only : Timings
idle_only = record timings { min_bytes = pos 0 }

abbrev still : Reading
still = record { last_activity = 5; bytes = 10 }

watcher-EndsBefore_example :
    EndsBefore
      (5 + 8000000000 + slack 8000000000)
      (watcher idle_only 0 (ticks_from 0 2000000000 (still ∷ still ∷ still ∷ still ∷ still ∷ [])))
watcher-EndsBefore_example =
    watcher-EndsBefore idle_only 0 8000000000 2000000000 5
      (still ∷ still ∷ still ∷ still ∷ still ∷ []) (omega arith) refl interval (omega arith)
      (omega arith) (omega arith)
  where
    interval : wake_interval idle_only ≡ pos 2000000000
    interval = unfold wake_interval in refl
