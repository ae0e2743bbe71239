-- ===== src/Queue/Promote.antt =====
-- popHead of pkg/queue/queue.go and the loop that calls it: waiters move to the active list from
-- the head of the queue, as long as there is room, and each is told.
use rsync_gateway.Prelude.{
  ℕ, suc, ◌≡◌, refl, sym, ap, ◌∙◌, ◌⊎◌, inl, inr, true, false, ◌||◌, some, List, [], ◌∷◌, ◌++◌,
  append_assoc, append-nil, arith, length, length-append, All, All-append, Distinct, ok, Ensures,
  Ensures-map, Bool-cases,
}
use rsync_gateway.Prelude.Int.{ℤ, pos, negsuc, ◌≤ℤ◌, ltb_ℤ, int_eq}
use rsync_gateway.Queue.Channel.{
  Chan, write, write_self, write_ne, write-write, granted_status, try_send_lem, close_lem,
}
use rsync_gateway.Queue.{Queue, has_room, pop_head, promote}
use rsync_gateway.Queue.Invariant.{
  IsWaiting, IsGranted, IsValid, IsSettled, IsBounded, Apart, line, All-write, Distinct-middle,
  Distinct-right,
}

-- A channel that has been given the go-ahead, which nobody has received yet.
abbrev pub granted_chan : Chan
granted_chan = record { buffer = some granted_status; closed = true }

popped : ℕ → List ℕ → Queue → Queue
popped head rest q = record q {
  chans = write q.chans head granted_chan;
  active = q.active ++ head ∷ [];
  queued = rest;
}

module _ (head : ℕ) (rest : List ℕ) (q : Queue) where
  pop_head_lem : (q.chans head).closed ≡ false → pop_head head rest q ≡ ok (popped head rest q)
  unfolding pop_head popped
  pop_head_lem e =
      rw
        (
          try_send_lem q.chans head granted_status e,
          close_lem (write q.chans head (record { buffer = some granted_status; closed = false }))
              head (ap (λ (x : Chan). x.closed) (write_self q.chans head _)),
        )
        (rw (write_self q.chans head, write-write q.chans head))

  line-popped : q.queued ≡ head ∷ rest → line (popped head rest q) ≡ line q
  unfolding popped
  line-popped e = rw (append_assoc, e)

  popped-IsValid : q.queued ≡ head ∷ rest → IsValid q → IsValid (popped head rest q)
  unfolding popped
  popped-IsValid e v = record {
    distinct = rw (line-popped e) v.distinct;
    below = rw (line-popped e) v.below;
    waiting = All-write IsWaiting q.chans head granted_chan rest here.0 (rw e at v.waiting).1;
    granted =
        All-append (λ c. IsGranted (write q.chans head granted_chan c)) q.active (head ∷ [])
          (All-write IsGranted q.chans head granted_chan q.active
            (Distinct-middle q.active head rest (rw e at v.distinct)) v.granted)
          (rw (write_self q.chans head) (refl, (refl, refl)), tt);
  }
    where
      here : Distinct (head ∷ rest)
      here = rw e at (Distinct-right q.active q.queued v.distinct)

-- What the loop has done when it ends: the first waiters have become active, each with the
-- go-ahead in its channel, and nobody waits while there is room.
pub record Promoted (q q' : Queue) : Type 0 where
  pub moved : List ℕ
  pub active : q'.active ≡ q.active ++ moved
  pub queued : q.queued ≡ moved ++ q'.queued
  pub told : All (λ c. q'.chans c ≡ granted_chan) moved
  pub valid : IsValid q'
  pub settled : IsSettled q'
  pub bounded : IsBounded q → IsBounded q'
  pub max : q'.max ≡ q.max
  pub max_queued : q'.max_queued ≡ q.max_queued
  pub next : q'.next ≡ q.next
  pub untouched : (d : ℕ) → Apart d q.queued → q'.chans d ≡ q.chans d

pub room_for_one :
    (n : ℕ) (m : ℤ)
    → (ltb_ℤ (pos n) m || int_eq m (pos 0)) ≡ true
    → (m ≡ pos 0) ⊎ (pos (suc n) ≤ℤ m)
room_for_one n (pos m) h = ground arith
room_for_one n (negsuc m) h = ground arith

module _ (q : Queue) (v : IsValid q) where
  stay : IsSettled q → Promoted q q
  stay s = record {
    moved = [];
    active = sym (append-nil q.active);
    queued = refl;
    told = tt;
    valid = v;
    settled = s;
    bounded = λ b. b;
    max = refl;
    max_queued = refl;
    next = refl;
    untouched = λ d a. refl;
  }

  -- With room there is a limit of 0, or one more fits.
  popped-IsBounded : (head : ℕ) (rest : List ℕ) → has_room q ≡ true → IsBounded (popped head rest q)
  unfolding has_room popped
  popped-IsBounded head rest r = elim (room_for_one (length q.active) q.max r) [
    | inl z ↦ inl z
    | inr l ↦ inr (omega (arith, length-append q.active (head ∷ [])))
  ]

  advance :
      (head : ℕ) (rest : List ℕ)
      → q.queued ≡ head ∷ rest
      → has_room q ≡ true
      → (q' : Queue) → Promoted (popped head rest q) q'
      → Promoted q q'
  unfolding popped
  advance head rest e r q' p = record {
    moved = head ∷ p.moved;
    active = p.active ∙ append_assoc q.active (head ∷ []) p.moved;
    queued = e ∙ ap (λ (xs : List ℕ). head ∷ xs) p.queued;
    told = (p.untouched head here.0 ∙ write_self q.chans head granted_chan, p.told);
    valid = p.valid;
    settled = p.settled;
    bounded = λ _. p.bounded (popped-IsBounded head rest r);
    max = p.max;
    max_queued = p.max_queued;
    next = p.next;
    untouched = λ d a.
        let b : Apart d (head ∷ rest) = rw e at a in
        p.untouched d b.1 ∙ write_ne q.chans head d granted_chan (λ x. b.0 (sym x));
  }
    where
      here : Distinct (head ∷ rest)
      here = rw e at (Distinct-right q.active q.queued v.distinct)

-- The loop never faults, ends by its test, and does what `Promoted` says.
pub promote_lem :
    (xs : List ℕ) (q : Queue) → q.queued ≡ xs → IsValid q → Ensures (Promoted q) (promote xs q)
unfolding promote
promote_lem [] q e v = stay q v (inl e)
promote_lem (head ∷ rest) q e v = elim (Bool-cases (has_room q)) [
  | inr full ↦ rw (full, promote) (stay q v (inr full))
  | inl room ↦
      rw (room, promote, pop_head_lem head rest q (rw e at v.waiting).0.0)
        (Ensures-map (Promoted (popped head rest q)) (Promoted q)
          (promote rest (popped head rest q)) (advance q v head rest e room)
          (promote_lem rest (popped head rest q) (unfold popped in refl)
            (popped-IsValid head rest q e v)))
]
