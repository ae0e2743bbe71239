-- ===== src/Server/Watch/Interval.antt =====
-- The interval at which the watcher of pkg/server/server.go wakes up.
use rsync_gateway.Prelude.{
  ◌≡◌, refl, Bool, true, ◌&&◌, ◌⊎◌, inl, inr, arith, if◌then◌else◌, Bool-cases,
}
use rsync_gateway.Prelude.Int.{ℤ, pos, negsuc, ◌≤ℤ◌, ◌<ℤ◌, ltb_ℤ}
use rsync_gateway.Server.Watch.{
  Timings, is_on, throughput_enabled, quarter, second, bump_interval, bump_if, wake_interval,
}

-- A timeout that is on, of at least 4 nanoseconds.
abbrev pub Window : Timings → ℤ → Type 0
Window t d =
    (pos 4 ≤ℤ d)
    × ((d ≡ t.idle) ⊎ (d ≡ t.max_duration) ⊎ ((d ≡ t.min_window) × (pos 0 <ℤ t.min_bytes)))

quarter_pos : (d : ℤ) → pos 4 ≤ℤ d → pos 0 <ℤ quarter d
quarter_pos (pos n) h = ground arith
quarter_pos (negsuc n) h = absurd (omega arith)

bump-NonNeg : (i d : ℤ) → pos 0 ≤ℤ i → pos 0 ≤ℤ bump_interval i d
unfolding bump_interval
bump-NonNeg i d h = ground arith

bump-le : (i d : ℤ) → pos 0 <ℤ d → bump_interval i d ≤ℤ d
unfolding bump_interval
bump-le i d h = ground arith

bump-pos : (i d : ℤ) → pos 0 ≤ℤ i → pos 0 <ℤ d → pos 0 <ℤ bump_interval i d
unfolding bump_interval
bump-pos i d h k = ground arith

bump-kept : (i d : ℤ) → pos 0 <ℤ i → (bump_interval i d ≤ℤ i) × (pos 0 <ℤ bump_interval i d)
unfolding bump_interval
bump-kept i d h = ground arith

module _ (enabled : Bool) (d i : ℤ) where
  bump_if-kept : pos 0 <ℤ i → (bump_if enabled d i ≤ℤ i) × (pos 0 <ℤ bump_if enabled d i)
  bump_if-kept h = elim (Bool-cases enabled) [
    | inl e ↦ rw e (bump-kept i (quarter d) h)
    | inr e ↦ rw e (omega arith, h)
  ]

  bump_if-NonNeg : pos 0 ≤ℤ i → pos 0 ≤ℤ bump_if enabled d i
  bump_if-NonNeg h = elim (Bool-cases enabled) [
    | inl e ↦ rw e (bump-NonNeg i (quarter d) h)
    | inr e ↦ rw e h
  ]

  bump_if-hit :
      pos 0 ≤ℤ i
      → pos 4 ≤ℤ d
      → enabled ≡ true
      → (bump_if enabled d i ≤ℤ quarter d) × (pos 0 <ℤ bump_if enabled d i)
  bump_if-hit k h e =
      rw e (bump-le i (quarter d) (quarter_pos d h), bump-pos i (quarter d) k (quarter_pos d h))

-- The interval is one second, or no more than a quarter of the timeout.
abbrev pub Prompt : ℤ → ℤ → Type 0
Prompt interval d = (interval ≤ℤ pos second) ⊎ (interval ≤ℤ quarter d)

clamped : (i d : ℤ) → i ≤ℤ quarter d → Prompt (if ltb_ℤ i (pos second) then pos second else i) d
clamped i d h = elim (Bool-cases (ltb_ℤ i (pos second))) [
  | inl e ↦ rw e (inl (omega arith))
  | inr e ↦ rw e (inr h)
]

clamped-second : (i : ℤ) → pos second ≤ℤ (if ltb_ℤ i (pos second) then pos second else i)
clamped-second i = ground arith

both : (a b : Bool) → a ≡ true → b ≡ true → (a && b) ≡ true
both a b p q = rw (p, q) refl

module _ (t : Timings) (d : ℤ) (long : pos 4 ≤ℤ d) where
  abbrev i1 : ℤ
  i1 = bump_if (is_on t.idle) t.idle (pos 0)

  abbrev i2 : ℤ
  i2 = bump_if (is_on t.max_duration) t.max_duration i1

  i1-NonNeg : pos 0 ≤ℤ i1
  i1-NonNeg = bump_if-NonNeg (is_on t.idle) t.idle (pos 0) (omega arith)

  is_on-long : is_on d ≡ true
  is_on-long = ground arith

  -- The interval once all three timeouts have been looked at.
  bumped_le :
      (d ≡ t.idle) ⊎ (d ≡ t.max_duration) ⊎ ((d ≡ t.min_window) × (pos 0 <ℤ t.min_bytes))
      → bump_if (throughput_enabled t) t.min_window i2 ≤ℤ quarter d
  bumped_le (inl e) =
      let hit : (i1 ≤ℤ quarter d) × (pos 0 <ℤ i1) = rw e (
        bump_if-hit (is_on t.idle) t.idle (pos 0) (omega arith) (rw (← e) long)
          (rw (← e) is_on-long)) in
      let kept : (i2 ≤ℤ i1) × (pos 0 <ℤ i2) =
        bump_if-kept (is_on t.max_duration) t.max_duration i1 hit.1 in
      omega (arith, hit.0, kept.0, (bump_if-kept (throughput_enabled t) t.min_window i2 kept.1).0)
  bumped_le (inr (inl e)) =
      let hit : (i2 ≤ℤ quarter d) × (pos 0 <ℤ i2) = rw e (
        bump_if-hit (is_on t.max_duration) t.max_duration i1 i1-NonNeg (rw (← e) long)
          (rw (← e) is_on-long)) in
      omega (arith, hit.0, (bump_if-kept (throughput_enabled t) t.min_window i2 hit.1).0)
  bumped_le (inr (inr (e, b))) = rw e (
      (bump_if-hit (throughput_enabled t) t.min_window i2
        (bump_if-NonNeg (is_on t.max_duration) t.max_duration i1 i1-NonNeg) (rw (← e) long)
        (both (is_on t.min_bytes) (is_on t.min_window) (ground arith) (rw (← e) is_on-long))).0)

-- The watcher wakes up no more than once a second and, for each timeout of at least 4 ns that is on, at
-- the latest after a quarter of it where that is longer than a second.
pub wake_interval_bounds :
    (t : Timings) (d : ℤ)
    → Window t d
    → (pos second ≤ℤ wake_interval t) × Prompt (wake_interval t) d
unfolding wake_interval
wake_interval_bounds t d (long, which) = (
  clamped-second (bump_if (throughput_enabled t) t.min_window (i2 t d long)),
  clamped (bump_if (throughput_enabled t) t.min_window (i2 t d long)) d (bumped_le t d long which),
)
