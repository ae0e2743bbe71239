-- ===== src/Queue/Tests.antt =====
-- Runs of the queue of pkg/queue/queue.go, and the theorems at concrete states.
use rsync_gateway.Prelude.{
  ℕ, ◌≡◌, refl, inl, inr, List, [], ◌∷◌, false, Result, ok, err, Ensures, arith, none,
}
use rsync_gateway.Prelude.Int.{pos, ◌+ℤ◌, ◌-ℤ◌}
use rsync_gateway.Queue.{
  Queue, new, has_room, queue_full, surplus, release_from_handle, without, promote, pop_head,
  broadcast_status, broadcast_from, acquire, release, set_max,
}
use rsync_gateway.Queue.Channel.{Fault, send, close, drain, try_send, write}
use rsync_gateway.Queue.Invariant.{IsValid, IsSettled}
use rsync_gateway.Queue.Broadcast.{position}
use rsync_gateway.Queue.Promote.{granted_chan}
use rsync_gateway.Queue.Release.{Resumed, Released, set_max_lem, release_lem}
use rsync_gateway.Queue.Acquire.{Acquired, acquire_lem}
use rsync_gateway.Queue.Fifo.{Serves, Serves-oldest}
use rsync_gateway.Queue.History.{
  Event, acquires, releases, resizes, receives, run, step, IsSound, run-new-IsSound,
}
use rsync_gateway.Queue.Capacity.{IsCapped, run-new-IsCapped}

-- One slot, held by handle 0; handles 1 and 2 wait.
abbrev busy : Queue
busy = record {
  max = pos 1;
  active = 0 ∷ [];
  queued = 1 ∷ 2 ∷ [];
  max_queued = pos 2;
  chans = λ c. elim c [
    | ℕ.zero ↦ record granted_chan { buffer = none }
    | ℕ.suc (d) ↦ position (pos 0) 2 d
  ];
  next = 3;
  released = λ _. false;
}

busy-IsValid : IsValid busy
busy-IsValid = record {
  distinct = omega arith;
  below = omega arith;
  waiting = ((refl, (refl, refl)), ((refl, (refl, refl)), tt));
  granted = ((refl, tt), tt);
}

busy-IsSettled : IsSettled busy
unfolding has_room
busy-IsSettled = inr refl

acquire_lem_example : Ensures (Acquired busy) (acquire busy)
acquire_lem_example = acquire_lem busy busy-IsValid busy-IsSettled

release_lem_example : Ensures (Released 1 busy) (release 1 busy)
release_lem_example = release_lem 1 busy busy-IsValid busy-IsSettled refl

set_max_lem_example :
    Ensures
      (Resumed (record busy { max = pos 2; max_queued = pos 0 }))
      (set_max (pos 2) (pos 0) busy)
set_max_lem_example = set_max_lem (pos 2) (pos 0) busy busy-IsValid

Serves-oldest_example : Ensures (Serves 1 (2 ∷ []) 0 busy) (release 0 busy)
Serves-oldest_example =
    Serves-oldest 0 1 (2 ∷ []) busy busy-IsValid busy-IsSettled (inr (omega arith)) refl (inl refl)
      refl

abbrev rush : List Event
rush = acquires ∷ acquires ∷ acquires ∷ releases 0 ∷ receives 1 ∷ acquires ∷ releases 0 ∷ []

run-new-IsSound_example :
    Ensures IsSound (run (resizes (pos 0) (pos 0) ∷ rush) (new (pos 1) (pos 1)))
run-new-IsSound_example = run-new-IsSound (pos 1) (pos 1) (resizes (pos 0) (pos 0) ∷ rush)

run-new-IsCapped_example : Ensures (IsCapped (pos 1) (pos 1)) (run rush (new (pos 1) (pos 1)))
run-new-IsCapped_example = run-new-IsCapped (pos 1) (pos 1) rush (omega arith) (omega arith)

-- Three clients at a queue with one slot and one place: the third is turned away, and the release
-- of the first serves the second.
lists : Result Fault Queue → List (List ℕ)
lists (ok q) = q.active ∷ q.queued ∷ []
lists (err e) = []

rush-lists : lists (run rush (new (pos 1) (pos 1))) ≡ (1 ∷ []) ∷ (3 ∷ []) ∷ []
unfolding lists run step new acquire has_room queue_full surplus release release_from_handle without
    promote pop_head broadcast_status broadcast_from send close drain try_send write ◌+ℤ◌ ◌-ℤ◌
rush-lists = refl
