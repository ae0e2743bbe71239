-- ===== src/Server/Relay/Line/Obeys.antt =====
-- The waiting of a session follows the protocol.
use rsync_gateway.Server.Relay.Forward.{connect}
use rsync_gateway.Server.Relay.Line.{
  queue_notice, rsyncd_exit, queue_full_text, noticed, position_text, tell_position, await_turn,
  wait_in_line, served, first_notice, take_turn,
}
use rsync_gateway.Server.Relay.Protocol.{no_handle, waiting, granted, Held, Runs}
use rsync_gateway.Server.Relay.Rules.{
  Runs-emit, Runs-result, Runs-quit, Runs-block, Runs-try_send, Runs-send, Runs-bind, Runs-finally,
  Runs-if, Runs-cases,
}
use rsync_gateway.Prelude.{
  Bool, true, false, List, [], ◌∷◌, Option, none, some, String, if◌then◌else◌, arith,
}
use rsync_gateway.Queue.Channel.{Status}
use rsync_gateway.Server.{Target}
use rsync_gateway.Server.Relay.{
  client, acquire, receive, release, tally, queue_full, Event, notice, minute, Env,
}
use rsync_gateway.Server.Relay.Stages.{At, Lined, Clear, send_client}
use rsync_gateway.Server.Relay.Forward.Obeys.{dialled-Runs}

module _ (env : Env) (r : Bool) where
  abbrev Queued : Held → Type 0
  Queued = At r waiting false

  Queued-Lined : (h : Held) → Queued h → Lined r h
  Queued-Lined h p = ground arith

  tell_position-Runs : (st : Status) → Runs Queued (tell_position env st) Queued (Lined r)
  unfolding tell_position
  tell_position-Runs st = Runs-send Queued-Lined _ _ _ (send_client r (position_text env st))

  -- After a status, which says whether the turn has come.
  abbrev Noticed : Bool → Held → Type 0
  Noticed granted_now = At r (if granted_now then granted else waiting) false

  await_turn-Runs :
      (events : List Event) (st : Status)
      → Runs Queued (await_turn env events st) (At r granted false) (Lined r)
  unfolding await_turn
  await_turn-Runs [] st = Runs-block
  await_turn-Runs (minute ∷ events) st =
      Runs-bind Queued (tell_position-Runs st) λ _. await_turn-Runs events st
  await_turn-Runs (notice st' ∷ events) st =
      Runs-bind (Noticed st'.ok) (Runs-emit (receive st') λ h p. ground arith) λ _.
        Runs-cases Noticed st'.ok (Runs-result λ h p. p)
          (Runs-bind Queued (tell_position-Runs st') λ _. await_turn-Runs events st')

  wait_in_line-Runs :
      (target : Target) (events : List Event) (st : Status)
      → Runs (Noticed st.ok) (wait_in_line env target events st) (At r granted false) (Lined r)
  unfolding wait_in_line
  wait_in_line-Runs target events st = Runs-cases Noticed st.ok (Runs-result λ h p. p) (
      Runs-bind Queued (Runs-send Queued-Lined _ _ _ (send_client r (queue_notice env target st)))
        λ _. await_turn-Runs events st)

  At-Lined : (b : Bool) (h : Held) → Noticed b h → Lined r h
  At-Lined true h p = ground arith
  At-Lined false h p = ground arith

  served-Runs :
      (version name : String) (target : Target) (events : List Event) (st : Status)
      → Runs (Noticed st.ok) (served env version name target events st) (Lined r) (Lined r)
  unfolding served connect
  served-Runs version name target events st =
      Runs-if st.full
        (Runs-bind (Noticed st.ok)
          (Runs-emit (tally (queue_full target.upstream)) λ h p. (ground arith, p))
          λ _.
            Runs-bind (Noticed st.ok)
              (Runs-try_send (At-Lined st.ok) client queue_full_text
                (send_client r queue_full_text))
              λ _.
                Runs-bind (Noticed st.ok)
                  (Runs-try_send (At-Lined st.ok) client rsyncd_exit (send_client r rsyncd_exit))
                  λ _. Runs-quit none (At-Lined st.ok))
        (Runs-bind (At r granted false) (wait_in_line-Runs target events st)
          λ _. dialled-Runs env r version name target env.dial_failure)

  noticed-Runs :
      (version name : String) (target : Target) (o : Option (Status × List Event))
      → Runs Queued (noticed env version name target o) (Lined r) (Lined r)
  unfolding noticed
  noticed-Runs version name target none = Runs-block
  noticed-Runs version name target (some (st, events)) =
      Runs-bind (Noticed st.ok) (Runs-emit (receive st) λ h p. ground arith)
        λ _. served-Runs version name target events st

  pub take_turn-Runs :
      (version name : String) (target : Target)
      → Runs (At r no_handle false) (take_turn env version name target) (Clear r) (Clear r)
  unfolding take_turn
  take_turn-Runs version name target =
      Runs-bind Queued (Runs-emit (acquire target.upstream) λ h p. ground arith) λ _.
        Runs-finally release (Lined r) (Lined r)
          (noticed-Runs version name target (first_notice env env.events)) (λ h p. ground arith)
          (λ h p. ground arith)
