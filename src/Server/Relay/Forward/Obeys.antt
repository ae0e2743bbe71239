-- ===== src/Server/Relay/Forward/Obeys.antt =====
-- The dealings of a session with its upstream follow the protocol.
use rsync_gateway.Server.Relay.Forward.{
  hang_up, write_header, dialled, copied, copy, send_header, send_motd, after_version, forward,
}
use rsync_gateway.Server.Relay.Protocol.{granted, Runs}
use rsync_gateway.Server.Relay.Rules.{
  Runs-emit, Runs-result, Runs-quit, Runs-block, Runs-check, Runs-send, Runs-read, Runs-bind,
  Runs-finally, Runs-if,
}
use rsync_gateway.Prelude.{ℕ, Bool, true, false, Option, none, some, String, Result, ok, err, arith}
use rsync_gateway.Prelude.Text.{◌^^◌}
use rsync_gateway.Server.{Target}
use rsync_gateway.Server.Wire.{network}
use rsync_gateway.Server.Relay.{
  Side, client, upstream, dial, transfer, close_read, close, tally, dial_error, completed, Env,
}
use rsync_gateway.Server.Relay.Stages.{
  At, Granted, Lined, send_client, send_upstream, At-Granted, Working,
}

module _ (env : Env) (r : Bool) where
  hang_up-Runs : (first : Side) → Runs (Working r) (hang_up env first) (Granted r) (Granted r)
  unfolding hang_up
  hang_up-Runs client =
      Runs-bind (Granted r) (Runs-emit (close_read client) λ h p. ground arith)
        λ _. Runs-emit (close upstream) λ h p. ground arith
  hang_up-Runs upstream =
      Runs-bind (Granted r) (Runs-emit (close_read upstream) λ h p. ground arith)
        λ _. Runs-emit (close client) λ h p. ground arith

  copied-Runs :
      (name : String) (target : Target) (o : Option (ℕ × ℕ × Side))
      → Runs (Working r) (copied env name target o) (Granted r) (Granted r)
  unfolding copied
  copied-Runs name target none = Runs-block
  copied-Runs name target (some (out, in_, first)) =
      Runs-bind (Working r) (Runs-emit transfer λ h p. (ground arith, p)) λ _.
        Runs-bind (Granted r) (hang_up-Runs first)
          λ _. Runs-emit (completed name target.upstream out in_) λ h p. (ground arith, p)

  write_header-Runs :
      (o : Result String String) → Runs (Working r) (write_header env o) (Working r) (Granted r)
  unfolding write_header
  write_header-Runs (err why) = Runs-quit _ (At-Granted r)
  write_header-Runs (ok header) = Runs-send (At-Granted r) _ _ _ (send_upstream r header)

  send_header-Runs :
      (target : Target) → Runs (Working r) (send_header env target) (Working r) (Granted r)
  unfolding send_header
  send_header-Runs target = Runs-if _ (write_header-Runs _) (Runs-result λ h p. p)

  send_motd-Runs : (text : String) → Runs (Working r) (send_motd env text) (Working r) (Granted r)
  unfolding send_motd
  send_motd-Runs text =
      Runs-if _ (Runs-result λ h p. p)
        (Runs-send (At-Granted r) _ _ _ (send_client r (after_version env text)))

  forward-Runs :
      (version name : String) (target : Target)
      → Runs (Working r) (forward env version name target) (Granted r) (Granted r)
  unfolding forward copy
  forward-Runs version name target = Runs-bind (Working r) (send_header-Runs target) λ _.
      Runs-bind (Working r) (Runs-send (At-Granted r) _ _ _ (send_upstream r version)) λ _.
        Runs-bind (Working r) (Runs-read (At-Granted r) _ _) λ text.
          Runs-bind (Working r) (Runs-check (At-Granted r) _ _) λ _.
            Runs-bind (Working r) (send_motd-Runs text) λ _.
              Runs-bind (Working r)
                (Runs-send (At-Granted r) _ _ _ (send_upstream r (name ^^ "\n")))
                λ _. copied-Runs name target env.transferred

  pub dialled-Runs :
      (version name : String) (target : Target) (o : Option String)
      → Runs (At r granted false) (dialled env version name target o) (Lined r) (Lined r)
  unfolding dialled
  dialled-Runs version name target (some why) =
      Runs-bind (Lined r)
        (Runs-emit (dial (network target.addr) target.addr false) λ h p. ground arith)
        λ _.
          Runs-bind (Lined r)
            (Runs-emit (tally (dial_error target.upstream)) λ h p. (ground arith, p))
            λ _. Runs-quit (some ("dial to upstream: " ^^ target.addr ^^ ": " ^^ why)) λ h p. p
  dialled-Runs version name target none =
      Runs-bind (Working r)
        (Runs-emit (dial (network target.addr) target.addr true) λ h p. ground arith)
        λ _.
          Runs-finally (close upstream) (Granted r) (Granted r) (forward-Runs version name target)
            (λ h p. ground arith) (λ h p. ground arith)
