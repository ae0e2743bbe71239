-- ===== src/Server/Admission.antt =====
-- The per-IP cap of relay in pkg/server/server.go: the sessions of one client address at one upstream
-- share an atomic counter, which each raises on arrival and lowers when it is turned away or ends, where
-- the limit is positive; otherwise the counter is left alone.
-- The limit that a session compares with is one number: no reload changes it in between.
pub mod Cap
use rsync_gateway.Prelude.{ℕ, zero, suc, List, [], ◌∷◌, if◌then◌else◌}
use rsync_gateway.Prelude.Int.{ℤ, pos, ◌+ℤ◌, ◌-ℤ◌, ltb_ℤ, is_positive}

-- Where a session stands: before its Add(1), between that and the Add(-1) of a refusal, behind the
-- test until its deferred Add(-1), running without a cap and so without a deferred Add(-1), or past
-- all of them.
pub data Phase : Type 0 where
  arriving refused admitted uncapped gone : Phase

-- One atomic step of a session, with the limit and the counter that it meets.
pub step_session : ℤ → ℤ → Phase → ℤ × Phase
step_session limit counter arriving =
    let n = counter +ℤ pos 1 in
    if is_positive limit
    then if ltb_ℤ limit n then (n, refused) else (n, admitted)
    else (counter, uncapped)
step_session limit counter refused = (counter -ℤ pos 1, gone)
step_session limit counter admitted = (counter -ℤ pos 1, gone)
step_session limit counter uncapped = (counter, gone)
step_session limit counter gone = (counter, gone)

-- A step of the session at a position; the others stand still.
pub step_at : ℤ → ℕ → ℤ → List Phase → ℤ × List Phase
step_at limit i counter [] = (counter, [])
step_at limit zero counter (p ∷ ps) = let (c, q) = step_session limit counter p in (c, q ∷ ps)
step_at limit (suc i) counter (p ∷ ps) = let (c, qs) = step_at limit i counter ps in (c, p ∷ qs)

-- Any interleaving: which session takes the next step, and the next.
pub run_sessions : ℤ → List ℕ → ℤ × List Phase → ℤ × List Phase
run_sessions limit [] s = s
run_sessions limit (i ∷ is) (counter, ps) = run_sessions limit is (step_at limit i counter ps)
