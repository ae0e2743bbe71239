-- ===== src/Server/Relay/Session.antt =====
-- relay and handleConn of pkg/server/server.go: the dialogue with the client.
pub mod Obeys
pub mod Returns
mod Tests
use Prim.Native.String.{count}
use rsync_gateway.Prelude.{
  ℕ, ◌-◌, Bool, true, false, not, List, [], ◌∷◌, Option, none, some, String, Result, ok, err,
  if◌then◌else◌, nat_eq, length, get_elem?,
}
use rsync_gateway.Prelude.Int.{ℤ, pos, ◌+ℤ◌, ltb_ℤ}
use rsync_gateway.Prelude.Keys.{◌==◌, String_eq}
use rsync_gateway.Prelude.Text.{◌^^◌, quote}
use rsync_gateway.Prelude.Bytes.{take, has_prefix, behind_line}
use rsync_gateway.Api.{int_text}
use rsync_gateway.Queue.{Queue}
use rsync_gateway.Queue.Channel.{Status}
use rsync_gateway.Server.{
  Server, Target, get_targets_for_module, get_queue_for_upstream, get_per_ip_limit_for_upstream,
}
use rsync_gateway.Server.Balance.{choose_target_by_client_ip}
use rsync_gateway.Server.Listing.{module_list}
use rsync_gateway.Server.Wire.{net_addr_to_string, proxy_header, network}
use rsync_gateway.Server.Relay.{
  Side, client, upstream, unknown_module, per_ip_rejected, queue_full, dial_error, Effect, enter,
  leave, store_info, delete_info, set_module, set_upstream, raise, lower, acquire, receive, release,
  dial, transfer, close_read, close, tally, completed, Event, notice, minute, greeting, listing,
  routing, queueing, capping, Env, World, Outcome, stop, M, ◌>>=◌, ◌>>◌, result, quit, block, fault,
  done, emit, finally, recover, check, try_send, send_or_quit, read_or_quit,
}
use rsync_gateway.Server.Relay.Forward.{version_prefix, addr, ip}
use rsync_gateway.Server.Relay.Line.{take_turn}

-- RsyncdServerVersion
abbrev pub server_version : String
server_version = "@RSYNCD: 32.0 sha512 sha256 sha1 md5 md4\n"

abbrev pub unknown_module_text : String → String
unknown_module_text name = "@ERROR: Unknown module '" ^^ name ^^ "'\n"

abbrev pub cap_text : Target → ℤ → String
cap_text target limit =
    "@ERROR: per-IP connection limit of "
    ^^ int_text limit
    ^^ " for upstream "
    ^^ target.upstream
    ^^ " reached, retry later\n"

module _ (env : Env) where
  -- A session over the cap.
  pub turn_away : Target → ℤ → M (Unit {0})
  turn_away target limit = do
    emit (lower target.upstream (ip env))
    emit (tally (per_ip_rejected target.upstream))
    try_send client (cap_text target limit)
    quit none

  -- The cap on the sessions of one client.
  pub capped : String → String → Target → ℤ → M (Unit {0})
  unfolding take_turn turn_away
  capped version name target limit =
      if ltb_ℤ (pos 0) limit
      then (do
        emit (raise target.upstream (ip env))
        if ltb_ℤ limit env.counter_value
            then turn_away target limit
            else finally (lower target.upstream (ip env)) (take_turn env version name target))
      else take_turn env version name target

  pub queue_found : String → String → Target → Option Queue → M (Unit {0})
  unfolding capped
  queue_found version name target none =
      quit (some ("no queue configured for upstream " ^^ target.upstream))
  queue_found version name target (some _) =
      capped version name target (get_per_ip_limit_for_upstream (env.view capping) target.upstream)

  -- `targets[i]` panics where there is no such target.
  pub target_found : String → String → Option Target → M (Unit {0})
  unfolding queue_found
  target_found version name none = fault
  target_found version name (some target) = do
    emit (set_upstream target.upstream)
    queue_found version name target (get_queue_for_upstream (env.view queueing) target.upstream)

  pub targets_found : String → String → Option (List Target) → M (Unit {0})
  unfolding target_found
  targets_found version name none = do
    emit (tally unknown_module)
    try_send client (unknown_module_text name)
    quit none
  targets_found version name (some targets) =
      target_found version name
        (get_elem? targets (choose_target_by_client_ip (env.parse_ip (ip env)) (length targets)))

  -- A request for a module.
  pub serve : String → String → M (Unit {0})
  unfolding targets_found
  serve version name = do
    emit (set_module name)
    targets_found version name (get_targets_for_module (env.view routing) name)

  pub list_all_modules : M (Unit {0})
  list_all_modules = try_send client (module_list (env.view listing)) >>= quit

  pub greet : M (Unit {0})
  greet =
      if (env.view greeting).motd == ""
      then result tt
      else send_or_quit client ((env.view greeting).motd ^^ "\n")
          ("send motd to client " ^^ addr env ^^ ": ")

  -- The dialogue with the client, from its version to its request.
  pub session : M (Unit {0})
  unfolding serve list_all_modules greet
  session = do
    version ← read_or_quit client ("read version from client " ^^ addr env ^^ ": ")
    check (has_prefix version version_prefix)
        ("unknown version from client " ^^ addr env ^^ ": " ^^ quote version)
    send_or_quit client server_version ("send version to client " ^^ addr env ^^ ": ")
    request ← read_or_quit client ("read module from client " ^^ addr env ^^ ": ")
    check (not (nat_eq (count request) 0)) ("empty request from client " ^^ addr env)
    greet
    if nat_eq (count request) 1
        then list_all_modules
        else serve version (take (count request - 1) request)

  pub relay : M (Unit {0})
  unfolding session
  relay = finally (close client) (do emit (store_info env.index); finally delete_info session)

  pub handle_conn : M (Unit {0})
  unfolding relay
  handle_conn w = finally leave (λ w. recover (relay w)) (done enter w)
