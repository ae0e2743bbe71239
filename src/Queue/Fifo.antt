-- ===== src/Queue/Fifo.antt =====
-- Who is served when a handle of pkg/queue/queue.go is released: the longest waiter, and only it.
use rsync_gateway.Prelude.{
  ℕ, suc, ◌≡◌, ◌≢◌, sym, ap, ◌∙◌, subst, inl, inr, false, ◌||◌, List, [], ◌∷◌, ◌++◌, arith, length,
  length-append, All, Any, Distinct, Ensures, Ensures-map,
}
use rsync_gateway.Prelude.Int.{ℤ, pos, negsuc, ◌≤ℤ◌, ltb_ℤ, int_eq, pos_part, neg_part}
use rsync_gateway.Queue.{Queue, has_room, without, release_from_handle, release}
use rsync_gateway.Queue.Invariant.{
  IsValid, IsSettled, IsBounded, without_absent, Distinct-left, Apart-from_right, Distinct-disjoint,
}
use rsync_gateway.Queue.Promote.{granted_chan}
use rsync_gateway.Queue.Broadcast.{Accurate}
use rsync_gateway.Queue.Release.{
  Resumed, Released, release_active, flagged, flagged-IsValid, left_active,
}

no_room :
    (n : ℕ) (m : ℤ) → (ltb_ℤ (pos n) m || int_eq m (pos 0)) ≡ false → (m ≢ pos 0) × (m ≤ℤ pos n)
no_room n (pos m) h = ((λ e. ground arith), ground arith)
no_room n (negsuc m) h = ((λ e. cc), omega arith)

length-without_eq :
    (c : ℕ) (xs : List ℕ)
    → Distinct xs
    → Any (λ d. c ≡ d) xs
    → suc (length (without c xs)) ≡ length xs
unfolding without
length-without_eq c [] d a = absurd a
length-without_eq c (x ∷ xs) d (inl e) = ground (arith, without_absent c xs (rw e d.0))
length-without_eq c (x ∷ xs) d (inr a) =
    let n : c ≢ x = (Distinct-disjoint c (x ∷ []) xs d a).0 in
    ground (arith, length-without_eq c xs d.1 a)

-- What `Serves-oldest` promises of the state after a release.
abbrev pub Serves : ℕ → List ℕ → ℕ → Queue → Queue → Type 0
Serves head rest c q q' =
    (q'.active ≡ without c q.active ++ head ∷ [])
    × (q'.queued ≡ rest)
    × (q'.chans head ≡ granted_chan)
    × Accurate q'

-- With a limit that is kept, one slot is free, so one waiter moves.
module _ (c head : ℕ) (rest : List ℕ) (q : Queue) where
  one_moves :
      (moved : List ℕ) (q' : Queue)
      → suc (length (without c q.active)) ≡ length q.active
      → q.max ≢ pos 0
      → q.max ≤ℤ pos (length q.active)
      → pos (length q.active) ≤ℤ q.max
      → q'.max ≡ q.max
      → q'.active ≡ without c q.active ++ moved
      → head ∷ rest ≡ moved ++ q'.queued
      → IsSettled q'
      → IsBounded q'
      → (moved ≡ head ∷ []) × (q'.queued ≡ rest)
  unfolding has_room
  one_moves [] q' n z lo hi m a w s b = elim s [
    | inl e ↦ cc (w, e)
    | inr e ↦ absurd (
        omega (
          arith,
          (no_room (length q'.active) q'.max e).1,
          ap length a,
          length-append (without c q.active) [],
          ap pos_part m,
          ap neg_part m,
        ))
  ]
  one_moves (x ∷ []) q' n z lo hi m a w s b = (cc w, cc w)
  one_moves (x ∷ y ∷ xs) q' n z lo hi m a w s b = elim b [
    | inl e ↦ absurd (z (sym m ∙ e))
    | inr l ↦ absurd (
        omega (
          arith,
          ap length a,
          length-append (without c q.active) (x ∷ y ∷ xs),
          ap pos_part m,
          ap neg_part m,
        ))
  ]

-- In a valid, settled queue whose limit is 0 or kept, where somebody waits, the first Release of an
-- active handle gives the go-ahead to the longest waiter and to nobody else; the others stay in
-- order and are told their positions.
pub Serves-oldest :
    (c head : ℕ) (rest : List ℕ) (q : Queue)
    → IsValid q
    → IsSettled q
    → IsBounded q
    → q.released c ≡ false
    → Any (λ d. c ≡ d) q.active
    → q.queued ≡ head ∷ rest
    → Ensures (Serves head rest c q) (release c q)
unfolding release flagged left_active
Serves-oldest c head rest q v s b fresh holds waits = rw fresh (
    Ensures-map (λ q'. Released c (flagged c q) q' × Resumed (left_active c (flagged c q) v') q')
      (Serves head rest c q) (release_from_handle c (flagged c q)) (λ q' r. serve q' r.1)
      (release_active c (flagged c q) v' (Apart-from_right c q.active q.queued v.distinct holds)))
  where
    v' : IsValid (flagged c q)
    v' = flagged-IsValid c q v

    full : (q.max ≢ pos 0) × (q.max ≤ℤ pos (length q.active))
    full = unfold has_room in elim s [ inl e ↦ cc | inr e ↦ no_room (length q.active) q.max e ]

    kept : pos (length q.active) ≤ℤ q.max
    kept = elim b [ inl z ↦ absurd (full.0 z) | inr l ↦ l ]

    serve : (q' : Queue) → Resumed (left_active c (flagged c q) v') q' → Serves head rest c q q'
    serve q' r = (
      r.done.active ∙ ap (λ (xs : List ℕ). without c q.active ++ xs) one.0,
      one.1,
      (subst (All (λ d. q'.chans d ≡ granted_chan)) one.0 r.done.told).0,
      r.accurate,
    )
      where
        count : suc (length (without c q.active)) ≡ length q.active
        count = length-without_eq c q.active (Distinct-left q.active q.queued v.distinct) holds

        one : (r.done.moved ≡ head ∷ []) × (q'.queued ≡ rest)
        one =
            one_moves c head rest q r.done.moved q' count full.0 full.1 kept r.done.max
              r.done.active (sym waits ∙ r.done.queued) r.done.settled
              (r.done.bounded (inr (omega (arith, count, kept))))
