-- ===== src/Server/Admission/Cap.antt =====
-- The per-IP cap of relay in pkg/server/server.go holds in every interleaving of the sessions' steps.
use rsync_gateway.Prelude.{
  ℕ, zero, suc, ◌+◌, ◌≤◌, ◌≡◌, refl, ap, ◌∙◌, List, [], ◌∷◌, true, false, Bool-cases, inl, inr,
  arith,
}
use rsync_gateway.Prelude.Int.{ℤ, pos, negsuc, ◌+ℤ◌, ◌-ℤ◌, ltb_ℤ, is_positive}
use rsync_gateway.Server.Admission.{
  Phase, arriving, refused, admitted, uncapped, gone, step_session, step_at, run_sessions,
}

-- What a session adds to the counter.
abbrev pub held : Phase → ℕ
held refused = 1
held admitted = 1
held _ = 0

-- A session that goes on to the queue, with a cap or without.
abbrev pub active : Phase → ℕ
active admitted = 1
active uncapped = 1
active _ = 0

abbrev free : Phase → ℕ
free uncapped = 1
free _ = 0

abbrev pub total : (Phase → ℕ) → List Phase → ℕ
total f [] = 0
total f (p ∷ ps) = f p + total f ps

plus_one : (n : ℕ) → pos n +ℤ pos 1 ≡ pos (suc n)
unfolding ◌+ℤ◌
plus_one n = ground arith

minus_one : (n : ℕ) → pos (suc n) -ℤ pos 1 ≡ pos n
unfolding ◌-ℤ◌ ◌+ℤ◌
minus_one n = ground arith

active-le : (p : Phase) → active p ≤ held p + free p
active-le arriving = omega arith
active-le refused = omega arith
active-le admitted = omega arith
active-le uncapped = omega arith
active-le gone = omega arith

total-active-le : (ps : List Phase) → total active ps ≤ total held ps + total free ps
total-active-le [] = omega arith
total-active-le (p ∷ ps) = omega (arith, active-le p, total-active-le ps)

-- The counter shows `k` for the others and what this session holds; of the others `a` are active. With a cap no
-- session is without one.
abbrev Kept : ℕ → ℕ → ℕ → ℤ × Phase → Type 0
Kept m k a (counter, p) = (counter ≡ pos (k + held p)) × (a + active p ≤ suc m) × (free p ≡ 0)

positive : (m : ℕ) → is_positive (pos (suc m)) ≡ true
positive m = ground arith

step_session-Kept :
    (m k a : ℕ) (p : Phase) (counter : ℤ)
    → a ≤ k
    → Kept m k a (counter, p)
    → Kept m k a (step_session (pos (suc m)) counter p)
unfolding step_session
step_session-Kept m k a arriving counter l (e, b, f) =
    elim (Bool-cases (ltb_ℤ (pos (suc m)) (counter +ℤ pos 1))) [
      | inl g ↦ rw (positive m, g) (raised, omega (arith, b), refl)
      | inr g ↦ rw (positive m, g) (raised, room (rw raised at g), refl)
    ]
  where
    raised : counter +ℤ pos 1 ≡ pos (k + 1)
    raised = ap (λ c. c +ℤ pos 1) e ∙ plus_one (k + 0) ∙ ap pos (omega arith)

    room : ltb_ℤ (pos (suc m)) (pos (k + 1)) ≡ false → a + 1 ≤ suc m
    room g = ground (arith, l)
step_session-Kept m k a refused counter l (e, b, f) =
    (ap (λ c. c -ℤ pos 1) (e ∙ ap pos (omega arith)) ∙ minus_one k ∙ ap pos (omega arith), b, refl)
step_session-Kept m k a admitted counter l (e, b, f) = (
  ap (λ c. c -ℤ pos 1) (e ∙ ap pos (omega arith)) ∙ minus_one k ∙ ap pos (omega arith),
  omega (arith, b),
  refl,
)
step_session-Kept m k a uncapped counter l (e, b, f) = absurd (omega (arith, f))
step_session-Kept m k a gone counter l h = h

abbrev AllKept : ℕ → ℕ → ℕ → ℤ × List Phase → Type 0
AllKept m k a (counter, ps) =
    (counter ≡ pos (k + total held ps)) × (a + total active ps ≤ suc m) × (total free ps ≡ 0)

step_at-AllKept :
    (m i k a : ℕ) (ps : List Phase) (counter : ℤ)
    → a ≤ k
    → AllKept m k a (counter, ps)
    → AllKept m k a (step_at (pos (suc m)) i counter ps)
unfolding step_at
step_at-AllKept m i k a [] counter l h = h
step_at-AllKept m zero k a (p ∷ ps) counter l (e, b, f) =
    let (c, d, g) =
      step_session-Kept m (k + total held ps) (a + total active ps) p counter
        (omega (arith, l, f, total-active-le ps))
        (e ∙ ap pos (omega arith), omega (arith, b), omega (arith, f)) in
    (c ∙ ap pos (omega arith), omega (arith, d), omega (arith, f, g))
step_at-AllKept m (suc i) k a (p ∷ ps) counter l (e, b, f) =
    let (c, d, g) =
      step_at-AllKept m i (k + held p) (a + active p) ps counter (omega (arith, l, f, active-le p))
        (e ∙ ap pos (omega arith), omega (arith, b), omega (arith, f)) in
    (c ∙ ap pos (omega arith), omega (arith, d), omega (arith, f, g))

run_sessions-AllKept :
    (m : ℕ) (is : List ℕ) (counter : ℤ) (ps : List Phase)
    → AllKept m 0 0 (counter, ps)
    → AllKept m 0 0 (run_sessions (pos (suc m)) is (counter, ps))
unfolding run_sessions
run_sessions-AllKept m [] counter ps h = h
run_sessions-AllKept m (i ∷ is) counter ps h =
    run_sessions-AllKept m is _ _ (step_at-AllKept m i 0 0 ps counter (omega arith) h)

-- Without a cap the counter is not touched, and nobody is counted or turned away.
abbrev pub Untouched : ℤ → ℤ × List Phase → Type 0
Untouched start (counter, ps) = (counter ≡ start) × (total held ps ≡ 0)

module _ (limit : ℤ) (off : is_positive limit ≡ false) where
  step_session-Untouched :
      (p : Phase) (counter : ℤ)
      → held p ≡ 0
      → ((step_session limit counter p).0 ≡ counter) × (held (step_session limit counter p).1 ≡ 0)
  unfolding step_session
  step_session-Untouched arriving counter h = rw off (refl, refl)
  step_session-Untouched refused counter h = absurd (omega (arith, h))
  step_session-Untouched admitted counter h = absurd (omega (arith, h))
  step_session-Untouched uncapped counter h = (refl, refl)
  step_session-Untouched gone counter h = (refl, refl)

  step_at-Untouched :
      (i : ℕ) (ps : List Phase) (counter : ℤ)
      → total held ps ≡ 0
      → Untouched counter (step_at limit i counter ps)
  unfolding step_at
  step_at-Untouched i [] counter h = (refl, refl)
  step_at-Untouched zero (p ∷ ps) counter h =
      let (c, g) = step_session-Untouched p counter (omega (arith, h)) in (c, omega (arith, h, g))
  step_at-Untouched (suc i) (p ∷ ps) counter h =
      let (c, g) = step_at-Untouched i ps counter (omega (arith, h)) in (c, omega (arith, h, g))

  run_sessions-Untouched :
      (is : List ℕ) (counter : ℤ) (ps : List Phase)
      → total held ps ≡ 0
      → Untouched counter (run_sessions limit is (counter, ps))
  unfolding run_sessions
  run_sessions-Untouched [] counter ps h = (refl, h)
  run_sessions-Untouched (i ∷ is) counter ps h =
      let (c, g) = step_at-Untouched i ps counter h in
      let (d, e) = run_sessions-Untouched is _ _ g in (d ∙ c, e)

-- Sessions that have not arrived yet.
abbrev pub crowd : ℕ → List Phase
crowd zero = []
crowd (suc n) = arriving ∷ crowd n

crowd-held : (f : Phase → ℕ) (n : ℕ) → f arriving ≡ 0 → total f (crowd n) ≡ 0
crowd-held f zero e = refl
crowd-held f (suc n) e = omega (arith, e, crowd-held f n e)

-- With a positive limit at most so many sessions are active, and the counter is the number of those that are
-- admitted or about to be turned away; otherwise it stays at 0.
abbrev pub Capped : ℤ → ℤ × List Phase → Type 0
Capped (pos (suc m)) (counter, ps) = (total active ps ≤ suc m) × (counter ≡ pos (total held ps))
Capped (pos zero) s = Untouched (pos 0) s
Capped (negsuc m) s = Untouched (pos 0) s

-- However many sessions of one address arrive at an upstream, and however their steps interleave: with a positive
-- limit no more than the limit are active at once, and the counter is the number of sessions that are admitted or
-- about to be turned away, so it is back at 0 when all are gone; with any other limit the cap is off, that is the
-- counter stays at 0 and no session is counted or turned away.
pub run_sessions-Capped :
    (limit : ℤ) (n : ℕ) (is : List ℕ) → Capped limit (run_sessions limit is (pos 0, crowd n))
run_sessions-Capped (pos (suc m)) n is =
    let (c, a, _) = run_sessions-AllKept m is (pos 0) (crowd n) (
      ap pos (omega (arith, crowd-held held n refl)),
      omega (arith, crowd-held active n refl),
      crowd-held free n refl,
    ) in
    (omega (arith, a), c ∙ ap pos (omega arith))
run_sessions-Capped (pos zero) n is =
    run_sessions-Untouched (pos 0) refl is (pos 0) (crowd n) (crowd-held held n refl)
run_sessions-Capped (negsuc m) n is =
    run_sessions-Untouched (negsuc m) refl is (pos 0) (crowd n) (crowd-held held n refl)
