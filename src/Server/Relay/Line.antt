-- ===== src/Server/Relay/Line.antt =====
-- The part of relay in pkg/server/server.go that waits for a turn at the upstream.
pub mod Obeys
pub mod Returns
use Prim.Native.String.{count}
use rsync_gateway.Prelude.{
  ℕ, ◌-◌, Bool, true, false, not, List, [], ◌∷◌, Option, none, some, String, Result, ok, err,
  if◌then◌else◌, nat_eq, length, get_elem?,
}
use rsync_gateway.Prelude.Int.{ℤ, pos, ◌+ℤ◌, ltb_ℤ}
use rsync_gateway.Prelude.Keys.{◌==◌, String_eq}
use rsync_gateway.Prelude.Text.{◌^^◌, quote}
use rsync_gateway.Prelude.Bytes.{take, has_prefix, behind_line}
use rsync_gateway.Api.{int_text}
use rsync_gateway.Queue.{Queue}
use rsync_gateway.Queue.Channel.{Status}
use rsync_gateway.Server.{
  Server, Target, get_targets_for_module, get_queue_for_upstream, get_per_ip_limit_for_upstream,
}
use rsync_gateway.Server.Balance.{choose_target_by_client_ip}
use rsync_gateway.Server.Listing.{module_list}
use rsync_gateway.Server.Wire.{net_addr_to_string, proxy_header, network}
use rsync_gateway.Server.Relay.{
  Side, client, upstream, unknown_module, per_ip_rejected, queue_full, dial_error, Effect, enter,
  leave, store_info, delete_info, set_module, set_upstream, raise, lower, acquire, receive, release,
  dial, transfer, close_read, close, tally, completed, Event, notice, minute, greeting, listing,
  routing, queueing, capping, Env, World, Outcome, stop, M, ◌>>=◌, ◌>>◌, result, quit, block, fault,
  done, emit, finally, recover, check, try_send, send_or_quit, read_or_quit,
}
use rsync_gateway.Server.Relay.Forward.{addr, connect}

-- RsyncdExit
abbrev pub rsyncd_exit : String
rsyncd_exit = "@RSYNCD: EXIT\n"

abbrev pub queue_full_text : String
queue_full_text = "Server queue is full for this upstream. Please retry later.\n"

module _ (env : Env) where
  pub position_text : Status → String
  position_text st =
      "Your position: "
      ^^ int_text (st.index +ℤ pos 1)
      ^^ ", Total queued: "
      ^^ int_text st.max
      ^^ "\n"

  pub tell_position : Status → M (Unit {0})
  unfolding position_text
  tell_position st =
      send_or_quit client (position_text st) ("send queue notice to client " ^^ addr env ^^ ": ")

  -- The loop of a session that has to wait, with the status that it has last seen.
  pub await_turn : List Event → Status → M (Unit {0})
  unfolding tell_position
  await_turn [] st = block
  await_turn (minute ∷ events) st = tell_position st >> await_turn events st
  await_turn (notice st' ∷ events) st =
      let again = tell_position st' >> await_turn events st' in
      emit (receive st') >> (if st'.ok then result tt else again)

  pub queue_notice : Target → Status → String
  unfolding position_text
  queue_notice target st =
      "Upstream "
      ^^ target.upstream
      ^^ " has reached the maximum number of "
      ^^ int_text env.queue_max
      ^^ " connections. Your request is being queued.\n"
      ^^ position_text st

  -- The notice that a session must wait, and the loop.
  pub wait_in_line : Target → List Event → Status → M (Unit {0})
  unfolding queue_notice await_turn
  wait_in_line target events st = if st.ok then result tt else (do
    send_or_quit client (queue_notice target st)
        ("send queue notice to client " ^^ addr env ^^ ": ")
    await_turn events st)

  -- What follows the first status.
  pub served : String → String → Target → List Event → Status → M (Unit {0})
  unfolding wait_in_line connect
  served version name target events st =
      if st.full
      then (do
        emit (tally (queue_full target.upstream))
        try_send client queue_full_text
        try_send client rsyncd_exit
        quit none)
      else (do wait_in_line target events st; connect env version name target)

  -- `status := <-handle.C`, however long it takes.
  pub first_notice : List Event → Option (Status × List Event)
  first_notice [] = none
  first_notice (minute ∷ events) = first_notice events
  first_notice (notice st ∷ events) = some (st, events)

  pub noticed : String → String → Target → Option (Status × List Event) → M (Unit {0})
  unfolding served
  noticed version name target none = block
  noticed version name target (some (st, events)) =
      emit (receive st) >> served version name target events st

  unfoldable pub take_turn : String → String → Target → M (Unit {0})
  unfolding first_notice noticed
  take_turn version name target = do
    emit (acquire target.upstream)
    finally release (noticed version name target (first_notice env.events))
