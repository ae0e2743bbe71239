-- ===== src/Queue/Acquire.antt =====
-- Acquire of pkg/queue/queue.go: admitted, turned away or queued, and the channel says which.
use rsync_gateway.Prelude.{
  ℕ, suc, ◌<◌, ◌≡◌, ◌≢◌, refl, sym, ap, ◌∙◌, ◌⊎◌, inl, inr, true, false, not, ◌&&◌, some, List, [],
  ◌∷◌, ◌++◌, append_assoc, append-nil, arith, length, length-append, All, All-append,
  All-append_left, All-append_right, Distinct, Distinct-snoc, ok, Ensures, Bool-cases,
}
use rsync_gateway.Prelude.Int.{ℤ, pos, negsuc, ◌≤ℤ◌, ◌+ℤ◌, ◌-ℤ◌, is_positive, ltb_ℤ}
use rsync_gateway.Queue.Channel.{
  Chan, Status, write, write_self, write-write, granted_status, full_status, waiting_status,
  fresh_chan, send, send_lem, close, close_lem,
}
use rsync_gateway.Queue.{Queue, has_room, queue_full, surplus, acquire}
use rsync_gateway.Queue.Invariant.{
  IsWaiting, IsGranted, IsValid, IsSettled, IsBounded, Apart, line, All-write, Apart-below,
  Apart-flip,
}
use rsync_gateway.Queue.Broadcast.{position}
use rsync_gateway.Queue.Promote.{granted_chan, room_for_one}

abbrev pub Admitted : Queue → Queue → Type 0
Admitted q q' =
    (has_room q ≡ true)
    × (q'.active ≡ q.active ++ q.next ∷ [])
    × (q'.queued ≡ q.queued)
    × (q'.chans q.next ≡ granted_chan)

abbrev pub TurnedAway : Queue → Queue → Type 0
TurnedAway q q' =
    (has_room q ≡ false)
    × (queue_full q ≡ true)
    × (q'.active ≡ q.active)
    × (q'.queued ≡ q.queued)
    × (q'.chans q.next ≡ record { buffer = some full_status; closed = true })

abbrev pub Enqueued : Queue → Queue → Type 0
Enqueued q q' =
    (has_room q ≡ false)
    × (queue_full q ≡ false)
    × (q'.active ≡ q.active)
    × (q'.queued ≡ q.queued ++ q.next ∷ [])
    × (q'.chans q.next ≡ position (surplus q) (suc (length q.queued)) (length q.queued))

-- A positive limit on the waiters is kept.
abbrev pub IsQueueBounded : Queue → Type 0
IsQueueBounded q = (is_positive q.max_queued ≡ false) ⊎ (pos (length q.queued) ≤ℤ q.max_queued)

pub record Acquired (q q' : Queue) : Type 0 where
  pub valid : IsValid q'
  pub settled : IsSettled q'
  pub bounded : IsBounded q → IsBounded q'
  pub queue_bounded : IsQueueBounded q → IsQueueBounded q'
  pub max : q'.max ≡ q.max
  pub max_queued : q'.max_queued ≡ q.max_queued
  pub next : q'.next ≡ suc q.next
  pub outcome : Admitted q q' ⊎ TurnedAway q q' ⊎ Enqueued q q'

All-suc : (n : ℕ) (xs : List ℕ) → All (λ c. c < n) xs → All (λ c. c < suc n) xs
All-suc n [] a = tt
All-suc n (x ∷ xs) a = (omega arith, All-suc n xs a.1)

last_index : (s : ℤ) (n : ℕ) → s +ℤ pos (suc n) -ℤ pos 1 ≡ s +ℤ pos n
unfolding ◌+ℤ◌ ◌-ℤ◌
last_index (pos s) n = ground arith
last_index (negsuc s) n = ground arith

waits_for_one :
    (n : ℕ) (m : ℤ)
    → (is_positive m && not (ltb_ℤ (pos n) m)) ≡ false
    → (is_positive m ≡ false) ⊎ (pos (suc n) ≤ℤ m)
waits_for_one n (pos m) h = ground arith
waits_for_one n (negsuc m) h = inl refl

module _ (q : Queue) (v : IsValid q) (s : IsSettled q) where
  apart : Apart q.next (line q)
  apart = Apart-below q.next (line q) v.below

  -- The send into the new channel.
  sent :
      (st : Status)
      → send (write q.chans q.next fresh_chan) q.next st
        ≡ ok (write q.chans q.next (record { buffer = some st; closed = false }))
  sent st =
      send_lem (write q.chans q.next fresh_chan) q.next st (rw (write_self q.chans q.next))
        (rw (write_self q.chans q.next))
      ∙ ap ok (write-write q.chans q.next _ _)

  -- Closing it afterwards.
  closed_after :
      (st : Status)
      → close (write q.chans q.next (record { buffer = some st; closed = false })) q.next
        ≡ ok (write q.chans q.next (record { buffer = some st; closed = true }))
  closed_after st =
      close_lem (write q.chans q.next (record { buffer = some st; closed = false })) q.next
        (rw (write_self q.chans q.next))
      ∙ rw (write_self q.chans q.next, write-write q.chans q.next)

  others :
      (P : Chan → Type 0) (x : Chan) (xs : List ℕ)
      → Apart q.next xs
      → All (λ c. P (q.chans c)) xs
      → All (λ c. P (write q.chans q.next x c)) xs
  others P x = All-write P q.chans q.next x

  active-Apart : Apart q.next q.active
  active-Apart = All-append_left (λ d. q.next ≢ d) q.active q.queued apart

  queued-Apart : Apart q.next q.queued
  queued-Apart = All-append_right (λ d. q.next ≢ d) q.active q.queued apart

  -- A state whose line is the old one, or the old one with the new handle at its end.
  longer :
      (xs : List ℕ)
      → (xs ≡ line q) ⊎ (xs ≡ line q ++ q.next ∷ [])
      → Distinct xs × All (λ c. c < suc q.next) xs
  longer xs (inl e) = rw e (v.distinct, All-suc q.next (line q) v.below)
  longer xs (inr e) = rw e (
    Distinct-snoc (line q) q.next v.distinct (Apart-flip q.next (line q) apart),
    All-append (λ c. c < suc q.next) (line q) (q.next ∷ []) (All-suc q.next (line q) v.below)
        (omega arith, tt),
  )

  one_more : has_room q ≡ true → (q.max ≡ pos 0) ⊎ (pos (length (q.active ++ q.next ∷ [])) ≤ℤ q.max)
  unfolding has_room
  one_more room = elim (room_for_one (length q.active) q.max room) [
    | inl z ↦ inl z
    | inr l ↦ inr (omega (arith, length-append q.active (q.next ∷ [])))
  ]

  acquire_admitted : has_room q ≡ true → Ensures (Acquired q) (acquire q)
  unfolding acquire
  acquire_admitted room =
      rw (room, sent granted_status, closed_after granted_status)
        (record {
          valid = record {
            distinct = (longer _ (inr line')).0;
            below = (longer _ (inr line')).1;
            waiting = others IsWaiting granted_chan q.queued queued-Apart v.waiting;
            granted =
                All-append (λ c. IsGranted (write q.chans q.next granted_chan c)) q.active
                  (q.next ∷ []) (others IsGranted granted_chan q.active active-Apart v.granted)
                  (rw (write_self q.chans q.next) (refl, (refl, refl)), tt);
          };
          settled = inl nobody;
          bounded = λ _. one_more room;
          queue_bounded = λ b. b;
          max = refl;
          max_queued = refl;
          next = refl;
          outcome = inl (room, refl, refl, write_self q.chans q.next granted_chan);
        })
    where
      nobody : q.queued ≡ []
      nobody = elim s [ inl e ↦ e | inr e ↦ cc ]

      line' : (q.active ++ q.next ∷ []) ++ q.queued ≡ line q ++ q.next ∷ []
      line' = simp (nobody, append-nil)

  acquire_turned_away : has_room q ≡ false → queue_full q ≡ true → Ensures (Acquired q) (acquire q)
  unfolding acquire
  acquire_turned_away room full =
      rw (room, full, sent full_status, closed_after full_status)
        (record {
          valid = record {
            distinct = v.distinct;
            below = (longer (line q) (inl refl)).1;
            waiting = others IsWaiting refused q.queued queued-Apart v.waiting;
            granted = others IsGranted refused q.active active-Apart v.granted;
          };
          settled = inr (unfold has_room in room);
          bounded = λ b. b;
          queue_bounded = λ b. b;
          max = refl;
          max_queued = refl;
          next = refl;
          outcome = inr (inl (room, full, refl, refl, write_self q.chans q.next refused));
        })
    where
      refused : Chan
      refused = record { buffer = some full_status; closed = true }

  one_more_waits :
      queue_full q ≡ false
      → IsQueueBounded q
      → IsQueueBounded (record q { queued = q.queued ++ q.next ∷ [] })
  unfolding queue_full
  one_more_waits full b = elim (waits_for_one (length q.queued) q.max_queued full) [
    | inl z ↦ inl z
    | inr l ↦ inr (omega (arith, length-append q.queued (q.next ∷ [])))
  ]

  acquire_enqueued : has_room q ≡ false → queue_full q ≡ false → Ensures (Acquired q) (acquire q)
  unfolding acquire
  acquire_enqueued room full =
      rw (room, full, sent told, index)
        (record {
          valid = record {
            distinct = (longer _ (inr line')).0;
            below = (longer _ (inr line')).1;
            waiting =
                All-append (λ c. IsWaiting (write q.chans q.next waiter c)) q.queued (q.next ∷ [])
                  (others IsWaiting waiter q.queued queued-Apart v.waiting)
                  (rw (write_self q.chans q.next) (refl, (refl, refl)), tt);
            granted = others IsGranted waiter q.active active-Apart v.granted;
          };
          settled = inr (unfold has_room in room);
          bounded = λ b. b;
          queue_bounded = one_more_waits full;
          max = refl;
          max_queued = refl;
          next = refl;
          outcome = inr (inr (room, full, refl, refl, write_self q.chans q.next waiter));
        })
    where
      told : Status
      told =
          waiting_status (surplus q +ℤ pos (length (q.queued ++ q.next ∷ [])) -ℤ pos 1)
            (surplus q +ℤ pos (length (q.queued ++ q.next ∷ [])))

      waiter : Chan
      waiter = position (surplus q) (suc (length q.queued)) (length q.queued)

      count : length (q.queued ++ q.next ∷ []) ≡ suc (length q.queued)
      count = omega (arith, length-append q.queued (q.next ∷ []))

      index :
          told
          ≡ waiting_status
              (surplus q +ℤ pos (length q.queued))
              (surplus q +ℤ pos (suc (length q.queued)))
      index = rw (count, last_index (surplus q) (length q.queued))

      line' : q.active ++ (q.queued ++ q.next ∷ []) ≡ line q ++ q.next ∷ []
      line' = sym (append_assoc q.active q.queued (q.next ∷ []))

  -- From a valid, settled queue Acquire never faults. The new handle is admitted if there is room,
  -- turned away if there is none and the waiters are at their limit, and otherwise waits behind all
  -- others; the result is valid and settled, and keeps both limits if they were kept.
  pub acquire_lem : Ensures (Acquired q) (acquire q)
  acquire_lem = elim (Bool-cases (has_room q)) [
    | inl room ↦ acquire_admitted room
    | inr room ↦ elim (Bool-cases (queue_full q)) [
      | inl full ↦ acquire_turned_away room full
      | inr full ↦ acquire_enqueued room full
    ]
  ]
