-- ===== src/Server/Watch/Justified.antt =====
-- The reasons for which the watcher of pkg/server/server.go ends a relay.
use rsync_gateway.Prelude.{
  ℕ, ◌≡◌, refl, ap, ◌∙◌, ◌&&◌, ◌||◌, ◌⊎◌, inl, inr, List, [], ◌∷◌, ◌++◌, Option, none, some, arith,
  Bool-cases, All,
}
use rsync_gateway.Prelude.Int.{pos, ◌≤ℤ◌, ◌<ℤ◌, sub_ℕ}
use rsync_gateway.Server.Watch.{
  Timings, Tick, Signal, tick, copy_ended, Sample, Reason, idle_timeout, max_duration_reached,
  below_floor, Verdict, watch_on, closing, is_on, at_least, throughput_enabled, check_floor,
  watch_tick, resume, watch, watcher,
}

abbrev pub sample_of : Tick → Sample
sample_of k = record { time = k.now; bytes = k.bytes }

module _ (t : Timings) (started : ℕ) where
  -- At a tick the relay is idle, has lasted too long, or has moved too little since a sample.
  abbrev pub Idle : Tick → Type 0
  Idle k = (pos 0 <ℤ t.idle) × (t.idle ≤ℤ sub_ℕ k.now k.last_activity)

  abbrev pub TooLong : Tick → Type 0
  TooLong k = (pos 0 <ℤ t.max_duration) × (t.max_duration ≤ℤ sub_ℕ k.now started)

  abbrev pub TooSlow : Sample → Tick → Type 0
  TooSlow s k =
      (sub_ℕ k.bytes s.bytes <ℤ t.min_bytes)
      × (pos 0 <ℤ t.min_window)
      × (t.min_window ≤ℤ sub_ℕ k.now s.time)
      × (t.min_grace ≤ℤ sub_ℕ k.now started)

  abbrev Explains : Sample → Tick → Verdict → Type 0
  Explains s k (closing idle_timeout) = Idle k
  Explains s k (closing max_duration_reached) = TooLong k
  Explains s k (closing below_floor) = TooSlow s k
  Explains s k (watch_on s') = (s' ≡ s) ⊎ (s' ≡ sample_of k)

  check_floor-Explains : (s : Sample) (k : Tick) → Explains s k (check_floor t started s k)
  unfolding check_floor
  check_floor-Explains s k = ground arith

  watch_tick-Explains : (s : Sample) (k : Tick) → Explains s k (watch_tick t started s k)
  unfolding watch_tick
  watch_tick-Explains s k =
      elim (Bool-cases (is_on t.idle && at_least (sub_ℕ k.now k.last_activity) t.idle)) [
        | inl e ↦ rw e (ground arith)
        | inr e ↦
            elim (Bool-cases
              (is_on t.max_duration && at_least (sub_ℕ k.now started) t.max_duration)) [
                | inl f ↦ rw (e, f) (ground arith)
                | inr f ↦ rw (e, f) (check_floor-Explains s k)
              ]
      ]

  -- A sample that was there at first, or was taken at one of these signals.
  abbrev pub Known : Sample → List Signal → Sample → Type 0
  Known first [] s = s ≡ first
  Known first (x ∷ earlier) s =
      ((j : Tick) × (x ≡ tick j) × (s ≡ sample_of j)) ⊎ Known first earlier s

  -- The reason holds at a tick with the signals before it, which are ticks.
  abbrev pub Holds : Sample → List Signal → Tick → Reason → Type 0
  Holds first earlier k idle_timeout = Idle k
  Holds first earlier k max_duration_reached = TooLong k
  Holds first earlier k below_floor = (s : Sample) × Known first earlier s × TooSlow s k

  abbrev pub IsTick : Signal → Type 0
  IsTick (tick k) = Unit {0}
  IsTick copy_ended = ⊥

  -- The relay was ended at a tick among the signals, for a reason that holds there.
  abbrev pub Justified : Sample → List Signal → Option (Tick × Reason) → Type 0
  Justified first signals none = Unit {0}
  Justified first signals (some (k, why)) =
      (earlier : List Signal) × (later : List Signal) × (signals ≡ earlier ++ tick k ∷ later)
      × All IsTick earlier
      × Holds first earlier k why

  Known-later :
      (s s' s'' : Sample) (k : Tick) (earlier : List Signal)
      → (s' ≡ s) ⊎ (s' ≡ sample_of k)
      → Known s' earlier s''
      → Known s (tick k ∷ earlier) s''
  Known-later s s' s'' k [] (inl e) h = inr (h ∙ e)
  Known-later s s' s'' k [] (inr e) h = inl (k, refl, h ∙ e)
  Known-later s s' s'' k (x ∷ earlier) e (inl h) = inr (inl h)
  Known-later s s' s'' k (x ∷ earlier) e (inr h) = elim (Known-later s s' s'' k earlier e h) [
    | inl now ↦ inl now
    | inr before ↦ inr (inr before)
  ]

  Holds-later :
      (s s' : Sample) (j k : Tick) (why : Reason) (earlier : List Signal)
      → (s' ≡ s) ⊎ (s' ≡ sample_of j)
      → Holds s' earlier k why
      → Holds s (tick j ∷ earlier) k why
  Holds-later s s' j k idle_timeout earlier e h = h
  Holds-later s s' j k max_duration_reached earlier e h = h
  Holds-later s s' j k below_floor earlier e (s'', known, slow) =
      (s'', Known-later s s' s'' j earlier e known, slow)

  Justified-later :
      (s s' : Sample) (j : Tick) (signals : List Signal) (r : Option (Tick × Reason))
      → (s' ≡ s) ⊎ (s' ≡ sample_of j)
      → Justified s' signals r
      → Justified s (tick j ∷ signals) r
  Justified-later s s' j signals none e h = tt
  Justified-later s s' j signals (some (k, why)) e (earlier, later, split, ticks, holds) = (
    tick j ∷ earlier,
    later,
    ap (λ xs. tick j ∷ xs) split,
    (tt, ticks),
    Holds-later s s' j k why earlier e holds,
  )

  resume-Justified :
      (s : Sample) (k : Tick) (signals : List Signal) (v : Verdict)
      (rest : Sample → Option (Tick × Reason))
      → Explains s k v
      → ((s' : Sample) → Justified s' signals (rest s'))
      → Justified s (tick k ∷ signals) (resume t started k v rest)
  unfolding resume
  resume-Justified s k signals (closing idle_timeout) rest e ih = ([], signals, refl, tt, e)
  resume-Justified s k signals (closing max_duration_reached) rest e ih = ([], signals, refl, tt, e)
  resume-Justified s k signals (closing below_floor) rest e ih =
      ([], signals, refl, tt, (s, refl, e))
  resume-Justified s k signals (watch_on s') rest e ih =
      Justified-later s s' k signals (rest s') e (ih s')

  pub watch-Justified :
      (s : Sample) (signals : List Signal) → Justified s signals (watch t started s signals)
  unfolding watch
  watch-Justified s [] = tt
  watch-Justified s (copy_ended ∷ signals) = tt
  watch-Justified s (tick k ∷ signals) =
      resume-Justified s k signals (watch_tick t started s k) (λ s'. watch t started s' signals)
        (watch_tick-Explains s k) (λ s'. watch-Justified s' signals)

  -- The watcher ends a relay only at a tick before either direction has ended, and only for a reason that
  -- holds there: no activity for the idle timeout, a duration past the cap, or, once the grace is over, too
  -- few bytes since the start or since an earlier tick that is a window away.
  pub watcher-Justified :
      (signals : List Signal)
      → Justified (record { time = started; bytes = 0 }) signals (watcher t started signals)
  unfolding watcher
  watcher-Justified signals =
      elim (Bool-cases (is_on t.idle || is_on t.max_duration || throughput_enabled t)) [
        | inl e ↦ rw e (watch-Justified (record { time = started; bytes = 0 }) signals)
        | inr e ↦ rw e tt
      ]
