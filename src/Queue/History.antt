-- ===== src/Queue/History.antt =====
-- Histories of pkg/queue/queue.go: any sequence of calls by the server, the handles' owners and
-- the collector (which releases a handle that was dropped), from New on.
use rsync_gateway.Prelude.{
  ℕ, ◌<◌, ◌≡◌, refl, sym, ◌⊎◌, inl, inr, Bool, none, List, [], ◌∷◌, ◌++◌, append_assoc, append-nil,
  All, All-append, All-keep_if, keep_if, Result, ok, ◌>>=◌, Ensures, Ensures-map, Ensures-bind,
  Bool-cases,
}
use rsync_gateway.Prelude.Int.{ℤ}
use rsync_gateway.Queue.Channel.{Chan, Fault, drain, drain_at}
use rsync_gateway.Queue.{Queue, new, has_room, acquire, release, set_max, without}
use rsync_gateway.Queue.Invariant.{IsValid, IsSettled, IsWaiting, IsGranted, line}
use rsync_gateway.Queue.Release.{Resumed, Released, set_max_lem, release_lem}
use rsync_gateway.Queue.Acquire.{Acquired, acquire_lem}

pub data Event : Type 0 where
  acquires : Event
  releases : ℕ → Event
  resizes : ℤ → ℤ → Event
  -- the owner of a handle receives from its channel
  receives : ℕ → Event

unfoldable pub step : Event → Queue → Result Fault Queue
step acquires q = acquire q
step (releases c) q = release c q
step (resizes max max_queued) q = set_max max max_queued q
step (receives c) q = ok (record q { chans = drain q.chans c })

unfoldable pub run : List Event → Queue → Result Fault Queue
run [] q = ok q
run (e ∷ es) q = step e q >>= run es

-- Every handle in the list arrived before all that follow it: identities are given in order of
-- arrival.
abbrev pub InOrder : List ℕ → Type 0
InOrder [] = Unit {0}
InOrder (c ∷ cs) = All (λ d. c < d) cs × InOrder cs

InOrder-snoc : (xs : List ℕ) (n : ℕ) → InOrder xs → All (λ c. c < n) xs → InOrder (xs ++ n ∷ [])
InOrder-snoc [] n o b = (tt, tt)
InOrder-snoc (x ∷ xs) n o b =
    (All-append (λ d. x < d) xs (n ∷ []) o.0 (b.0, tt), InOrder-snoc xs n o.1 b.1)

InOrder-keep_if : (p : ℕ → Bool) (xs : List ℕ) → InOrder xs → InOrder (keep_if p xs)
InOrder-keep_if p [] o = tt
InOrder-keep_if p (x ∷ xs) o = elim (Bool-cases (p x)) [
  | inl e ↦ rw e (All-keep_if (λ d. x < d) p xs o.0, InOrder-keep_if p xs o.1)
  | inr e ↦ rw e (InOrder-keep_if p xs o.1)
]

-- What holds of a queue at all times.
pub record IsSound (q : Queue) : Type 0 where
  pub valid : IsValid q
  pub settled : IsSettled q
  pub in_order : InOrder (line q)

pub new-IsSound : (max max_queued : ℤ) → IsSound (new max max_queued)
unfolding new
new-IsSound max max_queued = record {
  valid = record { distinct = tt; below = tt; waiting = tt; granted = tt };
  settled = inl refl;
  in_order = tt;
}

-- What an acquisition does to the line.
Acquired-line :
    (q q' : Queue)
    → IsSound q
    → Acquired q q'
    → (line q' ≡ line q) ⊎ (line q' ≡ line q ++ q.next ∷ [])
Acquired-line q q' s a = elim a.outcome [
  | inl (room, ea, eq, _) ↦ elim s.settled [
    | inl e ↦ inr (simp (ea, eq, e, append-nil))
    | inr e ↦ cc
  ]
  | inr (inl (_, _, ea, eq, _)) ↦ inl (rw (ea, eq))
  | inr (inr (_, _, ea, eq, _)) ↦ inr (rw (ea, eq) (sym (append_assoc q.active q.queued _)))
]

All-drain :
    (P : Chan → Type 0) (c : ℕ) (q : Queue) (xs : List ℕ)
    → ((x : Chan) → P x → P (record x { buffer = none }))
    → All (λ d. P (q.chans d)) xs
    → All (λ d. P (drain q.chans c d)) xs
All-drain P c q [] f a = tt
All-drain P c q (x ∷ xs) f a = elim (drain_at q.chans c x) [
  | inl e ↦ (rw e a.0, All-drain P c q xs f a.1)
  | inr e ↦ (rw e (f (q.chans x) a.0), All-drain P c q xs f a.1)
]

acquire-IsSound : (q : Queue) → IsSound q → Ensures IsSound (acquire q)
acquire-IsSound q s =
    Ensures-map (Acquired q) IsSound (acquire q)
      (λ q' a. record {
        valid = a.valid;
        settled = a.settled;
        in_order = elim (Acquired-line q q' s a) [
          | inl e ↦ rw e s.in_order
          | inr e ↦ rw e (InOrder-snoc (line q) q.next s.in_order s.valid.below)
        ];
      })
      (acquire_lem q s.valid s.settled)

release-IsSound : (c : ℕ) (q : Queue) → IsSound q → Ensures IsSound (release c q)
unfolding release without
release-IsSound c q s = elim (Bool-cases (q.released c)) [
  | inl e ↦ rw e s
  | inr e ↦
      Ensures-map (Released c q) IsSound (release c q)
        (λ q' r. record {
          valid = r.valid;
          settled = r.settled;
          in_order = rw (r.line) (InOrder-keep_if _ (line q) s.in_order);
        })
        (release_lem c q s.valid s.settled e)
]

pub set_max-IsSound :
    (max max_queued : ℤ) (q : Queue) → IsSound q → Ensures IsSound (set_max max max_queued q)
set_max-IsSound max max_queued q s =
    let q0 : Queue = record q { max = max; max_queued = max_queued } in
    Ensures-map (Resumed q0) IsSound (set_max max max_queued q)
      (λ q' r. record {
        valid = r.done.valid;
        settled = r.done.settled;
        in_order = rw (r.done.active, append_assoc, ← r.done.queued) s.in_order;
      })
      (set_max_lem max max_queued q s.valid)

receive-IsSound : (c : ℕ) (q : Queue) → IsSound q → IsSound (record q { chans = drain q.chans c })
unfolding has_room
receive-IsSound c q s = record {
  valid = record {
    distinct = s.valid.distinct;
    below = s.valid.below;
    waiting = All-drain IsWaiting c q q.queued (λ x w. (w.0, tt)) s.valid.waiting;
    granted = All-drain IsGranted c q q.active (λ x w. (w.0, tt)) s.valid.granted;
  };
  settled = s.settled;
  in_order = s.in_order;
}

-- No call panics or blocks on a channel, and each leaves the queue sound.
pub step-IsSound : (e : Event) (q : Queue) → IsSound q → Ensures IsSound (step e q)
unfolding step
step-IsSound acquires q s = acquire-IsSound q s
step-IsSound (releases c) q s = release-IsSound c q s
step-IsSound (resizes max max_queued) q s = set_max-IsSound max max_queued q s
step-IsSound (receives c) q s = receive-IsSound c q s

run-IsSound_from : (es : List Event) (q : Queue) → IsSound q → Ensures IsSound (run es q)
unfolding run
run-IsSound_from [] q s = s
run-IsSound_from (e ∷ es) q s =
    Ensures-bind IsSound IsSound (step e q) (run es) (step-IsSound e q s) (run-IsSound_from es)

-- From a new queue, with any limits, any history of calls runs to its end without a send on a
-- closed channel, a second close or a send that blocks; afterwards the active handles are older
-- than those that wait, and nobody waits while there is room.
pub run-new-IsSound :
    (max max_queued : ℤ) (es : List Event) → Ensures IsSound (run es (new max max_queued))
run-new-IsSound max max_queued es =
    run-IsSound_from es (new max max_queued) (new-IsSound max max_queued)
