-- ===== src/Queue/Release.antt =====
-- SetMax and Release of pkg/queue/queue.go: what leaves, who moves up, and what the others hear.
use rsync_gateway.Prelude.{
  ℕ, ◌<◌, ◌≤◌, ◌≡◌, ◌≢◌, refl, sym, ap, ◌∙◌, inl, inr, true, false, not, List, [], ◌∷◌, ◌++◌,
  append_assoc, arith, nat_eq, length, length-append, if◌then◌else◌, keep_if-append, All, Any,
  All-append_right, All-keep_if, Distinct, Distinct-keep_if, ◌>>=◌, Ensures, Ensures-map,
  Ensures-bind,
}
use rsync_gateway.Prelude.Int.{ℤ}
use rsync_gateway.Queue.{
  Queue, has_room, promote, broadcast_status, set_max, without, release_from_handle, release,
}
use rsync_gateway.Queue.Invariant.{
  IsWaiting, IsGranted, IsValid, IsSettled, IsBounded, Apart, line, without_cases, without_absent,
  length-without_le, length-without_lt, Distinct-disjoint, Distinct-right,
}
use rsync_gateway.Queue.Broadcast.{
  Accurate, announced, broadcast_status_lem, announced-IsValid, announced-Accurate, chans-announced,
}
use rsync_gateway.Queue.Promote.{Promoted, promote_lem, granted_chan}

-- The promotions, with every remaining waiter told its position.
pub record Resumed (q q' : Queue) : Type 0 where
  pub done : Promoted q q'
  pub accurate : Accurate q'

moved-Apart : (xs ys : List ℕ) → Distinct (xs ++ ys) → All (λ c. Apart c ys) xs
moved-Apart [] ys d = tt
moved-Apart (x ∷ xs) ys d = (All-append_right (λ z. x ≢ z) xs ys d.0, moved-Apart xs ys d.1)

module _ (q p : Queue) (d : Promoted q p) where
  still_told :
      (xs : List ℕ)
      → All (λ c. Apart c p.queued) xs
      → All (λ c. p.chans c ≡ granted_chan) xs
      → All (λ c. (announced p).chans c ≡ granted_chan) xs
  still_told [] a t = tt
  still_told (x ∷ xs) a t = (chans-announced p d.valid x a.0 ∙ t.0, still_told xs a.1 t.1)

  announced-Resumed : IsValid q → Resumed q (announced p)
  announced-Resumed v = record {
    done = record {
      moved = d.moved;
      active = unfold announced in d.active;
      queued = unfold announced in d.queued;
      told =
          still_told d.moved
            (moved-Apart d.moved p.queued
              (rw d.queued at (Distinct-right q.active q.queued v.distinct)))
            d.told;
      valid = announced-IsValid p d.valid;
      settled = unfold announced has_room in d.settled;
      bounded = unfold announced in d.bounded;
      max = unfold announced in d.max;
      max_queued = unfold announced in d.max_queued;
      next = unfold announced in d.next;
      untouched = λ c a.
          chans-announced p d.valid c
            (All-append_right (λ x. c ≢ x) d.moved p.queued (rw d.queued at a))
          ∙ d.untouched c a;
    };
    accurate = announced-Accurate p d.valid;
  }

-- `for … { q.popHead() }; q.broadcastStatus()`
pub resume_lem :
    (q : Queue) → IsValid q → Ensures (Resumed q) (promote q.queued q >>= broadcast_status)
resume_lem q v =
    Ensures-bind (Promoted q) (Resumed q) (promote q.queued q) broadcast_status
      (promote_lem q.queued q refl v)
      λ p d. rw (broadcast_status_lem p d.valid) (announced-Resumed q p d v)

-- From a valid queue SetMax never faults: it sets both limits, gives the oldest waiters the
-- go-ahead in order until there is no room or nobody waits, and tells all others their positions.
pub set_max_lem :
    (max max_queued : ℤ) (q : Queue)
    → IsValid q
    → Ensures (Resumed (record q { max = max; max_queued = max_queued })) (set_max max max_queued q)
unfolding set_max
set_max_lem max max_queued q v =
    resume_lem (record q { max = max; max_queued = max_queued })
      (record { distinct = v.distinct; below = v.below; waiting = v.waiting; granted = v.granted })

-- A handle has gone: the line is the old one without it, and it is as settled as before.
pub record Released (c : ℕ) (q q' : Queue) : Type 0 where
  pub valid : IsValid q'
  pub settled : IsSettled q'
  pub bounded : IsBounded q → IsBounded q'
  pub line : line q' ≡ without c (line q)
  pub max : q'.max ≡ q.max
  pub max_queued : q'.max_queued ≡ q.max_queued
  pub next : q'.next ≡ q.next
  pub shorter : length q'.queued ≤ length q.queued
  pub accurate : Accurate q'

module _ (c : ℕ) (q : Queue) (v : IsValid q) where
  line-without :
      (xs ys : List ℕ)
      → xs ≡ without c q.active
      → ys ≡ without c q.queued
      → xs ++ ys ≡ without c (line q)
  unfolding without
  line-without xs ys ex ey = rw (keep_if-append, ex, ey)

  -- Keeping the elements that are not `c` keeps validity.
  IsValid-without :
      (q' : Queue)
      → q'.active ≡ without c q.active
      → q'.queued ≡ without c q.queued
      → q'.next ≡ q.next
      → q'.chans ≡ q.chans
      → IsValid q'
  unfolding without
  IsValid-without q' ea eq en ec = record {
    distinct = rw (line-without q'.active q'.queued ea eq) (Distinct-keep_if _ (line q) v.distinct);
    below =
        rw (line-without q'.active q'.queued ea eq, en)
          (All-keep_if (λ d. d < q.next) _ (line q) v.below);
    waiting = rw (eq, ec) (All-keep_if (λ d. IsWaiting (q.chans d)) _ q.queued v.waiting);
    granted = rw (ea, ec) (All-keep_if (λ d. IsGranted (q.chans d)) _ q.active v.granted);
  }

  left_queue : Queue
  left_queue = record q { queued = without c q.queued }

  unfoldable pub left_active : Queue
  left_active = record q { active = without c q.active }

  -- A handle that waits is taken out of the queue, and the active ones are not touched.
  release_waiting :
      IsSettled q → Any (λ d. c ≡ d) q.queued → Ensures (Released c q) (release_from_handle c q)
  unfolding release_from_handle left_queue announced has_room
  release_waiting s a =
      rw (shorter, broadcast_status_lem left_queue v')
        (record {
          valid = announced-IsValid left_queue v';
          settled = settled s;
          bounded = λ b. b;
          line = line-without q.active (without c q.queued) (sym active) refl;
          max = refl;
          max_queued = refl;
          next = refl;
          shorter = length-without_le c q.queued;
          accurate = announced-Accurate left_queue v';
        })
    where
      active : without c q.active ≡ q.active
      active = without_absent c q.active (Distinct-disjoint c q.active q.queued v.distinct a)

      shorter : not (nat_eq (length (without c q.queued)) (length q.queued)) ≡ true
      shorter = ground (arith, length-without_lt c q.queued a)

      v' : IsValid left_queue
      v' = IsValid-without left_queue (sym active) refl refl refl

      settled : IsSettled q → IsSettled (announced left_queue)
      settled (inl e) = inl (rw e (unfold without in refl))
      settled (inr e) = inr e

  -- A handle that is active, or in neither list, leaves the active list, and waiters may move up.
  pub release_active :
      Apart c q.queued
      → Ensures (λ q'. Released c q q' × Resumed left_active q') (release_from_handle c q)
  unfolding release_from_handle left_active
  release_active a = rw same (
      Ensures-map (Resumed left_active) (λ q'. Released c q q' × Resumed left_active q')
        (promote q.queued left_active >>= broadcast_status)
        (λ q' r. (
          record {
            valid = r.done.valid;
            settled = r.done.settled;
            bounded = λ b. r.done.bounded (fewer b);
            line =
                rw (r.done.active, append_assoc, ← r.done.queued)
                  (line-without (without c q.active) q.queued refl (sym queued));
            max = r.done.max;
            max_queued = r.done.max_queued;
            next = r.done.next;
            shorter = omega (arith, ap length r.done.queued, length-append r.done.moved q'.queued);
            accurate = r.accurate;
          },
          r,
        ))
        (resume_lem left_active v'))
    where
      queued : without c q.queued ≡ q.queued
      queued = without_absent c q.queued a

      same : not (nat_eq (length (without c q.queued)) (length q.queued)) ≡ false
      same = rw queued (ground arith)

      v' : IsValid left_active
      v' = IsValid-without left_active refl (sym queued) refl refl

      fewer : IsBounded q → IsBounded left_active
      fewer (inl z) = inl z
      fewer (inr l) = inr (omega (arith, length-without_le c q.active))

  release_from_handle_lem : IsSettled q → Ensures (Released c q) (release_from_handle c q)
  release_from_handle_lem s = elim (without_cases c q.queued) [
    | inr a ↦ release_waiting s a
    | inl a ↦
        Ensures-map (λ q'. Released c q q' × Resumed left_active q') (Released c q)
          (release_from_handle c q) (λ q' r. r.0) (release_active a)
  ]

-- The handle's flag is set, and nothing else changes.
unfoldable pub flagged : ℕ → Queue → Queue
flagged c q = record q { released = λ d. if nat_eq c d then true else q.released d }

pub flagged-IsValid : (c : ℕ) (q : Queue) → IsValid q → IsValid (flagged c q)
unfolding flagged
flagged-IsValid c q v = record {
  distinct = v.distinct;
  below = v.below;
  waiting = v.waiting;
  granted = v.granted;
}

-- From a valid, settled queue the first Release of a handle never faults: the line of active and
-- waiting handles loses that handle and nothing else, in order, the result is valid and settled, no
-- more handles wait, a limit that was kept is kept, and every waiter is told its position.
pub release_lem :
    (c : ℕ) (q : Queue)
    → IsValid q
    → IsSettled q
    → q.released c ≡ false
    → Ensures (Released c q) (release c q)
unfolding release flagged has_room
release_lem c q v s e = rw e (
    Ensures-map (Released c (flagged c q)) (Released c q) (release_from_handle c (flagged c q))
      (λ q' r. record {
        valid = r.valid;
        settled = r.settled;
        bounded = r.bounded;
        line = r.line;
        max = r.max;
        max_queued = r.max_queued;
        next = r.next;
        shorter = r.shorter;
        accurate = r.accurate;
      })
      (release_from_handle_lem c (flagged c q) (flagged-IsValid c q v) s))
