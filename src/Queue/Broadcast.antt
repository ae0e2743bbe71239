-- ===== src/Queue/Broadcast.antt =====
-- broadcastStatus of pkg/queue/queue.go: it reaches every waiter, and tells each its position.
use rsync_gateway.Prelude.{
  ℕ, suc, zero, ◌+◌, ◌≡◌, ◌≢◌, refl, sym, ap, ◌∙◌, false, some, List, [], ◌∷◌, ◌++◌, arith, length,
  get_elem?, All, All-map, All-append_right, Distinct, ok,
}
use rsync_gateway.Prelude.Int.{ℤ, pos, ◌+ℤ◌}
use rsync_gateway.Queue.Channel.{
  Chan, Chans, write, write_self, write_ne, try_send_lem, waiting_status,
}
use rsync_gateway.Queue.{Queue, surplus, broadcast_from, broadcast_status}
use rsync_gateway.Queue.Invariant.{IsWaiting, IsGranted, IsValid, Apart, Distinct-right}

-- The channel of the waiter at position `i`.
abbrev pub position : ℤ → ℕ → ℕ → Chan
position s total i = record {
  buffer = some (waiting_status (s +ℤ pos i) (s +ℤ pos total));
  closed = false;
}

-- The channels after the loop, as a function.
pub announce : ℤ → ℕ → ℕ → List ℕ → Chans → Chans
announce s total i [] h = h
announce s total i (c ∷ cs) h = announce s total (suc i) cs (write h c (position s total i))

module _ (s : ℤ) (total : ℕ) where
  open_write :
      (h : Chans) (c : ℕ) (x : Chan) (cs : List ℕ)
      → x.closed ≡ false
      → All (λ d. (h d).closed ≡ false) cs
      → All (λ d. (write h c x d).closed ≡ false) cs
  unfolding write
  open_write h c x [] e a = tt
  open_write h c x (d ∷ cs) e a = (ground arith, open_write h c x cs e a.1)

  pub broadcast_from_lem :
      (i : ℕ) (cs : List ℕ) (h : Chans)
      → All (λ d. (h d).closed ≡ false) cs
      → broadcast_from s total i cs h ≡ ok (announce s total i cs h)
  unfolding broadcast_from announce
  broadcast_from_lem i [] h a = refl
  broadcast_from_lem i (c ∷ cs) h a =
      rw (try_send_lem h c (waiting_status (s +ℤ pos i) (s +ℤ pos total)) a.0)
        (broadcast_from_lem (suc i) cs _ (open_write h c (position s total i) cs refl a.1))

  pub announce_other :
      (i : ℕ) (cs : List ℕ) (h : Chans) (d : ℕ)
      → All (λ c. c ≢ d) cs
      → announce s total i cs h d ≡ h d
  unfolding announce
  announce_other i [] h d a = refl
  announce_other i (c ∷ cs) h d a =
      announce_other (suc i) cs _ d a.1 ∙ write_ne h c d (position s total i) a.0

  head_position :
      (i c : ℕ) (cs : List ℕ) (h : Chans)
      → Apart c cs
      → announce s total i (c ∷ cs) h c ≡ position s total i
  unfolding announce
  head_position i c cs h a =
      announce_other (suc i) cs _ c (All-map (λ d. c ≢ d) (λ d. d ≢ c) (λ d n e. n (sym e)) cs a)
      ∙ write_self h c (position s total i)

  pub announce-IsWaiting :
      (i : ℕ) (cs : List ℕ) (h : Chans)
      → Distinct cs
      → All (λ c. IsWaiting (announce s total i cs h c)) cs
  unfolding announce
  announce-IsWaiting i [] h d = tt
  announce-IsWaiting i (c ∷ cs) h d = (
    rw (head_position i c cs h d.0) (refl, (refl, refl)),
    announce-IsWaiting (suc i) cs (write h c (position s total i)) d.1,
  )

  pub announce_at :
      (i : ℕ) (cs : List ℕ) (h : Chans) (k c : ℕ)
      → Distinct cs
      → get_elem? cs k ≡ some c
      → announce s total i cs h c ≡ position s total (i + k)
  unfolding announce
  announce_at i [] h k c d e = cc
  announce_at i (x ∷ cs) h zero c d e =
      let p : x ≡ c = cc in
      rw (← p) (head_position i x cs h d.0 ∙ ap (position s total) (omega arith))
  announce_at i (x ∷ cs) h (suc k) c d e =
      announce_at (suc i) cs _ k c d.1 e ∙ ap (position s total) (omega arith)

unfoldable pub announced : Queue → Queue
announced q = record q { chans = announce (surplus q) (length q.queued) 0 q.queued q.chans }

-- Every waiter's channel holds its present position, and how many wait in all.
abbrev pub Accurate : Queue → Type 0
Accurate q =
    (k c : ℕ) → get_elem? q.queued k ≡ some c → q.chans c ≡ position (surplus q) (length q.queued) k

module _ (q : Queue) (v : IsValid q) where
  waiters : Distinct q.queued
  waiters = Distinct-right q.active q.queued v.distinct

  pub broadcast_status_lem : broadcast_status q ≡ ok (announced q)
  unfolding broadcast_status announced
  broadcast_status_lem = rw (
      broadcast_from_lem (surplus q) (length q.queued) 0 q.queued q.chans (
        All-map (λ c. IsWaiting (q.chans c)) (λ c. (q.chans c).closed ≡ false) (λ c w. w.0) q.queued
          v.waiting))

  -- The channels outside the queue are left alone.
  pub chans-announced : (d : ℕ) → Apart d q.queued → (announced q).chans d ≡ q.chans d
  unfolding announced
  chans-announced d a =
      announce_other (surplus q) (length q.queued) 0 q.queued q.chans d
        (All-map (λ c. d ≢ c) (λ c. c ≢ d) (λ c n e. n (sym e)) q.queued a)

  announced-IsGranted :
      (xs : List ℕ)
      → Distinct (xs ++ q.queued)
      → All (λ c. IsGranted (q.chans c)) xs
      → All (λ c. IsGranted ((announced q).chans c)) xs
  announced-IsGranted [] d g = tt
  announced-IsGranted (x ∷ xs) d g = (
    rw (chans-announced x (All-append_right (λ y. x ≢ y) xs q.queued d.0)) g.0,
    announced-IsGranted xs d.1 g.1,
  )

  pub announced-IsValid : IsValid (announced q)
  unfolding announced
  announced-IsValid = record {
    distinct = v.distinct;
    below = v.below;
    waiting = announce-IsWaiting (surplus q) (length q.queued) 0 q.queued q.chans waiters;
    granted = announced-IsGranted q.active v.distinct v.granted;
  }

  pub announced-Accurate : Accurate (announced q)
  unfolding announced surplus
  announced-Accurate k c e =
      announce_at (surplus q) (length q.queued) 0 q.queued q.chans k c waiters e
      ∙ ap (position (surplus q) (length q.queued)) (omega arith)
