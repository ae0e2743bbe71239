-- ===== src/Server/Relay/Forward.antt =====
-- The part of relay in pkg/server/server.go that talks to the upstream: the dialling, the handshake and the
-- copying.
pub mod Obeys
pub mod Returns
use Prim.Native.String.{count}
use rsync_gateway.Prelude.{
  ℕ, ◌-◌, Bool, true, false, not, List, [], ◌∷◌, Option, none, some, String, Result, ok, err,
  if◌then◌else◌, nat_eq, length, get_elem?,
}
use rsync_gateway.Prelude.Int.{ℤ, pos, ◌+ℤ◌, ltb_ℤ}
use rsync_gateway.Prelude.Keys.{◌==◌, String_eq}
use rsync_gateway.Prelude.Text.{◌^^◌, quote}
use rsync_gateway.Prelude.Bytes.{take, has_prefix, behind_line}
use rsync_gateway.Api.{int_text}
use rsync_gateway.Queue.{Queue}
use rsync_gateway.Queue.Channel.{Status}
use rsync_gateway.Server.{
  Server, Target, get_targets_for_module, get_queue_for_upstream, get_per_ip_limit_for_upstream,
}
use rsync_gateway.Server.Balance.{choose_target_by_client_ip}
use rsync_gateway.Server.Listing.{module_list}
use rsync_gateway.Server.Wire.{net_addr_to_string, proxy_header, network}
use rsync_gateway.Server.Relay.{
  Side, client, upstream, unknown_module, per_ip_rejected, queue_full, dial_error, Effect, enter,
  leave, store_info, delete_info, set_module, set_upstream, raise, lower, acquire, receive, release,
  dial, transfer, close_read, close, tally, completed, Event, notice, minute, greeting, listing,
  routing, queueing, capping, Env, World, Outcome, stop, M, ◌>>=◌, ◌>>◌, result, quit, block, fault,
  done, emit, finally, recover, check, try_send, send_or_quit, read_or_quit,
}

abbrev pub version_prefix : String
version_prefix = "@RSYNCD:"

module _ (env : Env) where
  abbrev pub addr : String
  addr = env.addr_text env.client_addr

  abbrev pub ip : String
  ip = net_addr_to_string env.ip_text env.client_addr

  -- upAddr
  abbrev pub up_addr : String
  up_addr = net_addr_to_string env.ip_text env.upstream_addr

  -- The closes of the select that ends the copying: the side that still reads is shut, the other closed.
  pub hang_up : Side → M (Unit {0})
  hang_up upstream = emit (close_read upstream) >> emit (close client)
  hang_up client = emit (close_read client) >> emit (close upstream)

  -- From the copying to the end. It goes on for ever if neither side ends.
  pub copied : String → Target → Option (ℕ × ℕ × Side) → M (Unit {0})
  unfolding hang_up
  copied name target none = block
  copied name target (some (out, in_, first)) = do
    emit transfer
    hang_up first
    emit (completed name target.upstream out in_)

  pub copy : String → Target → M (Unit {0})
  unfolding copied
  copy name target = copied name target env.transferred

  -- writeProxyProtocolHeader
  pub write_header : Result String String → M (Unit {0})
  write_header (err why) =
      quit (some ("send proxy protocol header to upstream " ^^ up_addr ^^ ": " ^^ why))
  write_header (ok header) =
      send_or_quit upstream header ("send proxy protocol header to upstream " ^^ up_addr ^^ ": ")

  pub send_header : Target → M (Unit {0})
  unfolding write_header
  send_header target =
      if target.use_proxy_protocol
      then write_header (proxy_header env.ip_text env.client_addr env.upstream_addr)
      else result tt

  -- The bytes behind the first line that the upstream sent, if there are any.
  pub after_version : String → String
  after_version line = elim (behind_line line) [ none ↦ line | some rest ↦ rest ]

  pub send_motd : String → M (Unit {0})
  unfolding after_version
  send_motd line =
      if after_version line == ""
      then result tt
      else send_or_quit client (after_version line) ("send motd to client " ^^ ip ^^ ": ")

  -- What relay does with a connection to the upstream.
  pub forward : String → String → Target → M (Unit {0})
  unfolding send_header send_motd copy
  forward version name target = do
    send_header target
    send_or_quit upstream version ("send version to upstream " ^^ up_addr ^^ ": ")
    line ← read_or_quit upstream ("read version from upstream " ^^ up_addr ^^ ": ")
    check (has_prefix line version_prefix)
        ("unknown version from upstream " ^^ up_addr ^^ ": " ^^ line)
    send_motd line
    send_or_quit upstream (name ^^ "\n") ("send module to upstream " ^^ up_addr ^^ ": ")
    copy name target

  pub dialled : String → String → Target → Option String → M (Unit {0})
  unfolding forward
  dialled version name target (some why) = do
    emit (dial (network target.addr) target.addr false)
    emit (tally (dial_error target.upstream))
    quit (some ("dial to upstream: " ^^ target.addr ^^ ": " ^^ why))
  dialled version name target none = do
    emit (dial (network target.addr) target.addr true)
    finally (close upstream) (forward version name target)

  unfoldable pub connect : String → String → Target → M (Unit {0})
  unfolding dialled
  connect version name target = dialled version name target env.dial_failure
