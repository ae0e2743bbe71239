-- ===== src/Server/Relay/Forward/Returns.antt =====
-- The dealings of a session with its upstream end.
use rsync_gateway.Prelude.{ℕ, ◌≡◌, Option, none, some, String, Result, ok, err, true, false}
use rsync_gateway.Prelude.Text.{◌^^◌}
use rsync_gateway.Server.{Target}
use rsync_gateway.Server.Wire.{proxy_header, network}
use rsync_gateway.Server.Relay.{
  Side, client, upstream, close_read, close, dial, transfer, tally, dial_error, completed, Env,
}
use rsync_gateway.Server.Relay.Forward.{
  hang_up, copied, copy, write_header, send_header, send_motd, forward, dialled,
}
use rsync_gateway.Server.Relay.Ending.{
  Ends, Ends-bind, Ends-finally, Ends-emit, Ends-result, Ends-quit, Ends-if, Ends-check, Ends-send,
  Ends-read_upstream,
}

module _ (env : Env) (c : ℕ) where
  hang_up-Ends : (u : ℕ) (first : Side) → Ends c u (hang_up env first) c u
  unfolding hang_up
  hang_up-Ends u client =
      Ends-bind c u (Ends-emit (close_read client)) λ _. Ends-emit (close upstream)
  hang_up-Ends u upstream =
      Ends-bind c u (Ends-emit (close_read upstream)) λ _. Ends-emit (close client)

  copied-Ends :
      (u out in_ : ℕ) (first : Side) (name : String) (target : Target)
      → Ends c u (copied env name target (some (out, in_, first))) c u
  unfolding copied
  copied-Ends u out in_ first name target = Ends-bind c u (Ends-emit transfer) λ _.
      Ends-bind c u (hang_up-Ends u first) λ _. Ends-emit (completed name target.upstream out in_)

  write_header-Ends : (u : ℕ) (o : Result String String) → Ends c u (write_header env o) c u
  unfolding write_header
  write_header-Ends u (err why) = Ends-quit c u _
  write_header-Ends u (ok header) = Ends-send _ _ _

  send_header-Ends : (u : ℕ) (target : Target) → Ends c u (send_header env target) c u
  unfolding send_header
  send_header-Ends u target =
      Ends-if target.use_proxy_protocol
        (write_header-Ends u (proxy_header env.ip_text env.client_addr env.upstream_addr))
        (Ends-result tt)

  send_motd-Ends : (u : ℕ) (text : String) → Ends c u (send_motd env text) c u
  unfolding send_motd
  send_motd-Ends u text = Ends-if _ (Ends-result tt) (Ends-send _ _ _)

  forward-Ends :
      (out in_ : ℕ) (first : Side)
      → env.transferred ≡ some (out, in_, first)
      → (version name : String) (target : Target) → Ends c 1 (forward env version name target) c 0
  unfolding forward copy
  forward-Ends out in_ first e version name target = Ends-bind c 1 (send_header-Ends 1 target) λ _.
      Ends-bind c 1 (Ends-send _ _ _) λ _. Ends-bind c 0 (Ends-read_upstream _) λ text.
        Ends-bind c 0 (Ends-check _ _) λ _.
          Ends-bind c 0 (send_motd-Ends 0 text)
            λ _. Ends-bind c 0 (Ends-send _ _ _) λ _. rw e (copied-Ends 0 out in_ first name target)

  pub dialled-Ends :
      (out in_ : ℕ) (first : Side)
      → env.transferred ≡ some (out, in_, first)
      → (version name : String) (target : Target) (o : Option String)
      → Ends c 1 (dialled env version name target o) c 0
  unfolding dialled
  dialled-Ends out in_ first e version name target (some why) =
      Ends-bind c 1 (Ends-emit (dial (network target.addr) target.addr false)) λ _.
        Ends-bind c 1 (Ends-emit (tally (dial_error target.upstream)))
          λ _. Ends-quit c 0 (some ("dial to upstream: " ^^ target.addr ^^ ": " ^^ why))
  dialled-Ends out in_ first e version name target none =
      Ends-bind c 1 (Ends-emit (dial (network target.addr) target.addr true))
        λ _. Ends-finally (close upstream) (forward-Ends out in_ first e version name target)
