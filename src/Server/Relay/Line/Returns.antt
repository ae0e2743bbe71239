-- ===== src/Server/Relay/Line/Returns.antt =====
-- The waiting of a session ends when its turn comes.
use rsync_gateway.Prelude.{
  ℕ, Bool, ◌≡◌, ◌⊎◌, inl, inr, List, [], ◌∷◌, none, some, String, true, false,
}
use rsync_gateway.Queue.Channel.{Status}
use rsync_gateway.Server.{Target}
use rsync_gateway.Server.Relay.{
  Side, client, acquire, receive, release, tally, queue_full, Event, notice, minute, Env,
}
use rsync_gateway.Server.Relay.Forward.Returns.{dialled-Ends}
use rsync_gateway.Server.Relay.Forward.{connect}
use rsync_gateway.Server.Relay.Line.{
  rsyncd_exit, queue_full_text, queue_notice, tell_position, await_turn, wait_in_line, served,
  first_notice, noticed, take_turn,
}
use rsync_gateway.Server.Relay.Ending.{
  Ends, Ends-bind, Ends-finally, Ends-emit, Ends-result, Ends-quit, Ends-split, Ends-try_send,
  Ends-send,
}

-- Some status gives the go-ahead.
abbrev pub Grants : List Event → Type 0
Grants [] = ⊥
Grants (minute ∷ events) = Grants events
Grants (notice st ∷ events) = (st.ok ≡ true) ⊎ Grants events

-- The first status says that the queue is full, or it or a later one gives the go-ahead.
abbrev pub Answered : List Event → Type 0
Answered [] = ⊥
Answered (minute ∷ events) = Answered events
Answered (notice st ∷ events) = (st.full ≡ true) ⊎ (st.ok ≡ true) ⊎ Grants events

not_yet : {P : Type 0} (b : Bool) → b ≡ false → (b ≡ true) ⊎ P → P
not_yet b e (inl f) = cc (e, f)
not_yet b e (inr p) = p

module _ (env : Env) (c : ℕ) where
  tell_position-Ends : (u : ℕ) (st : Status) → Ends c u (tell_position env st) c u
  unfolding tell_position
  tell_position-Ends u st = Ends-send _ _ _

  await_turn-Ends :
      (u : ℕ) (events : List Event) (st : Status)
      → Grants events
      → Ends c u (await_turn env events st) c u
  unfolding await_turn
  await_turn-Ends u [] st g = absurd g
  await_turn-Ends u (minute ∷ events) st g =
      Ends-bind c u (tell_position-Ends u st) λ _. await_turn-Ends u events st g
  await_turn-Ends u (notice st' ∷ events) st g =
      let later : (Grants events → Ends c u (await_turn env events st') c u) =
        await_turn-Ends u events st' in
      Ends-bind c u (Ends-emit (receive st')) λ _.
        Ends-split st'.ok (λ e. Ends-result tt)
          λ e. Ends-bind c u (tell_position-Ends u st') λ _. later (not_yet st'.ok e g)

  wait_in_line-Ends :
      (u : ℕ) (target : Target) (events : List Event) (st : Status)
      → (st.ok ≡ true) ⊎ Grants events
      → Ends c u (wait_in_line env target events st) c u
  unfolding wait_in_line
  wait_in_line-Ends u target events st g =
      Ends-split st.ok (λ e. Ends-result tt)
        λ e.
          Ends-bind c u (Ends-send client (queue_notice env target st) _)
            λ _. await_turn-Ends u events st (not_yet st.ok e g)

  module _ (out in_ : ℕ) (first : Side) (ends : env.transferred ≡ some (out, in_, first)) where
    served-Ends :
        (version name : String) (target : Target) (events : List Event) (st : Status)
        → (st.full ≡ true) ⊎ (st.ok ≡ true) ⊎ Grants events
        → Ends c 1 (served env version name target events st) c 0
    unfolding served connect
    served-Ends version name target events st g =
        Ends-split st.full
          (λ e. Ends-bind c 1 (Ends-emit (tally (queue_full target.upstream))) λ _.
            Ends-bind c 1 (Ends-try_send client queue_full_text)
              λ _. Ends-bind c 1 (Ends-try_send client rsyncd_exit) λ _. Ends-quit c 0 none)
          λ e.
            Ends-bind c 1 (wait_in_line-Ends 1 target events st (not_yet st.full e g))
              λ _. dialled-Ends env c out in_ first ends version name target env.dial_failure

    noticed-Ends :
        (version name : String) (target : Target) (events : List Event)
        → Answered events
        → Ends c 1 (noticed env version name target (first_notice env events)) c 0
    unfolding noticed first_notice
    noticed-Ends version name target [] a = absurd a
    noticed-Ends version name target (minute ∷ events) a = noticed-Ends version name target events a
    noticed-Ends version name target (notice st ∷ events) a =
        Ends-bind c 1 (Ends-emit (receive st)) λ _. served-Ends version name target events st a

    pub take_turn-Ends :
        (version name : String) (target : Target)
        → Answered env.events
        → Ends c 1 (take_turn env version name target) c 0
    unfolding take_turn
    take_turn-Ends version name target a =
        Ends-bind c 1 (Ends-emit (acquire target.upstream))
          λ _. Ends-finally release (noticed-Ends version name target env.events a)
