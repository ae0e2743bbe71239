-- ===== src/Queue/Capacity.antt =====
-- The limits of pkg/queue/queue.go over a history: as long as SetMax is not called, neither the
-- active handles nor those that wait outgrow them.
use rsync_gateway.Prelude.{
  ℕ, ◌≤◌, ◌≡◌, refl, ap, ◌∙◌, ◌⊎◌, inl, inr, false, List, [], ◌∷◌, arith, length, All, Ensures,
  Ensures-map, Ensures-bind, Ensures-both, Bool-cases,
}
use rsync_gateway.Prelude.Int.{ℤ, pos, negsuc, ◌≤ℤ◌, is_positive, pos_part, neg_part}
use rsync_gateway.Queue.{Queue, new, acquire, release}
use rsync_gateway.Queue.Invariant.{IsBounded}
use rsync_gateway.Queue.Release.{Released, release_lem}
use rsync_gateway.Queue.Acquire.{Acquired, IsQueueBounded, acquire_lem}
use rsync_gateway.Queue.History.{
  Event, acquires, releases, resizes, receives, step, run, IsSound, new-IsSound, step-IsSound,
}

abbrev pub NoResize : Event → Type 0
NoResize (resizes max max_queued) = ⊥
NoResize _ = Unit {0}

-- The limits are those given, and they are kept.
pub record IsCapped (limit wait_limit : ℤ) (q : Queue) : Type 0 where
  pub bounded : IsBounded q
  pub queue_bounded : IsQueueBounded q
  pub max : q.max ≡ limit
  pub max_queued : q.max_queued ≡ wait_limit

still_bounded :
    (q q' : Queue)
    → IsQueueBounded q
    → q'.max_queued ≡ q.max_queued
    → length q'.queued ≤ length q.queued
    → IsQueueBounded q'
still_bounded q q' (inl e) m l = inl (rw m e)
still_bounded q q' (inr h) m l = inr (omega (arith, ap pos_part m, ap neg_part m))

nobody_waits : (m : ℤ) → (is_positive m ≡ false) ⊎ (pos 0 ≤ℤ m)
nobody_waits (pos n) = inr (omega arith)
nobody_waits (negsuc n) = inl refl

module _ (max max_queued : ℤ) where
  new-IsCapped : pos 0 ≤ℤ max → IsCapped max max_queued (new max max_queued)
  unfolding new
  new-IsCapped h = record {
    bounded = inr h;
    queue_bounded = nobody_waits max_queued;
    max = refl;
    max_queued = refl;
  }

  release-IsCapped :
      (x : ℕ) (q : Queue)
      → IsSound q
      → IsCapped max max_queued q
      → Ensures (IsCapped max max_queued) (release x q)
  release-IsCapped x q s c = elim (Bool-cases (q.released x)) [
    | inl e ↦ unfold release in rw e c
    | inr e ↦
        Ensures-map (Released x q) (IsCapped max max_queued) (release x q)
          (λ q' r. record {
            bounded = r.bounded c.bounded;
            queue_bounded = still_bounded q q' c.queue_bounded r.max_queued r.shorter;
            max = r.max ∙ c.max;
            max_queued = r.max_queued ∙ c.max_queued;
          })
          (release_lem x q s.valid s.settled e)
  ]

  step-IsCapped :
      (e : Event) (q : Queue)
      → NoResize e
      → IsSound q
      → IsCapped max max_queued q
      → Ensures (IsCapped max max_queued) (step e q)
  unfolding step
  step-IsCapped acquires q n s c =
      Ensures-map (Acquired q) (IsCapped max max_queued) (acquire q)
        (λ q' a. record {
          bounded = a.bounded c.bounded;
          queue_bounded = a.queue_bounded c.queue_bounded;
          max = a.max ∙ c.max;
          max_queued = a.max_queued ∙ c.max_queued;
        })
        (acquire_lem q s.valid s.settled)
  step-IsCapped (releases x) q n s c = release-IsCapped x q s c
  step-IsCapped (resizes m k) q n s c = absurd n
  step-IsCapped (receives x) q n s c = record {
    bounded = c.bounded;
    queue_bounded = c.queue_bounded;
    max = c.max;
    max_queued = c.max_queued;
  }

  abbrev Holds : Queue → Type 0
  Holds q = IsSound q × IsCapped max max_queued q

  run-IsCapped_from :
      (es : List Event) (q : Queue)
      → All NoResize es
      → Holds q
      → Ensures (IsCapped max max_queued) (run es q)
  unfolding run
  run-IsCapped_from [] q n h = h.1
  run-IsCapped_from (e ∷ es) q n h =
      Ensures-bind Holds (IsCapped max max_queued) (step e q) (run es)
        (Ensures-both IsSound (IsCapped max max_queued) (step e q) (step-IsSound e q h.0)
          (step-IsCapped e q n.0 h.0 h.1))
        λ q' h'. run-IsCapped_from es q' n.1 h'

  -- A queue that is made with a limit of at least 0 and never resized runs any history without a
  -- fault and keeps both limits: at most `max` handles are active, unless `max` is 0, and at most
  -- `max_queued` wait, unless that is not positive.
  pub run-new-IsCapped :
      (es : List Event)
      → pos 0 ≤ℤ max
      → All NoResize es
      → Ensures (IsCapped max max_queued) (run es (new max max_queued))
  run-new-IsCapped es h n =
      run-IsCapped_from es (new max max_queued) n (new-IsSound max max_queued, new-IsCapped h)
