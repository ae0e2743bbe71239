-- ===== src/Server/Relay/Session/Obeys.antt =====
-- The sessions of pkg/server/server.go follow the protocol.
use rsync_gateway.Server.Relay.Forward.{ip}
use rsync_gateway.Server.Relay.Protocol.{no_handle, Held, arrived, departed, Post, Runs}
use rsync_gateway.Server.Relay.Rules.{
  Runs-emit, Runs-result, Runs-quit, Runs-fault, Runs-check, Runs-try_send, Runs-send, Runs-read,
  Runs-bind, Runs-finally, Runs-if,
}
use rsync_gateway.Server.Relay.Session.{
  server_version, unknown_module_text, cap_text, turn_away, queue_found, capped, target_found,
  targets_found, serve, list_all_modules, greet, session, relay, handle_conn,
}
use rsync_gateway.Prelude.{
  ◌≡◌, refl, Bool, true, false, List, [], Option, none, some, String, length, get_elem?, ◌-◌, arith,
}
use rsync_gateway.Prelude.Text.{◌^^◌}
use Prim.Native.String.{count}
use rsync_gateway.Prelude.Int.{ℤ, pos, ltb_ℤ}
use rsync_gateway.Prelude.Bytes.{take}
use rsync_gateway.Server.Balance.{choose_target_by_client_ip}
use rsync_gateway.Server.Listing.{module_list}
use rsync_gateway.Queue.{Queue}
use rsync_gateway.Server.{
  Target, get_queue_for_upstream, get_targets_for_module, get_per_ip_limit_for_upstream,
}
use rsync_gateway.Server.Relay.{
  client, enter, leave, store_info, delete_info, set_module, set_upstream, raise, lower, close,
  tally, per_ip_rejected, unknown_module, greeting, listing, routing, queueing, capping, Env, World,
  Outcome, go, stop, panic, blocked, done, recover,
}
use rsync_gateway.Server.Relay.Stages.{At, Clear, send_client}
use rsync_gateway.Server.Relay.Line.Obeys.{take_turn-Runs}

module _ (env : Env) where
  -- In a session that holds nothing yet.
  abbrev Idle : Held → Type 0
  Idle = At false no_handle false

  Idle-Clear : (h : Held) → Idle h → Clear false h
  Idle-Clear h p = ground arith

  Clear-kept : (h : Held) → Clear false h → Clear false h
  Clear-kept h p = p

  turn_away-Runs :
      (target : Target) (limit : ℤ)
      → Runs (At true no_handle false) (turn_away env target limit) (Clear false) (Clear false)
  unfolding turn_away
  turn_away-Runs target limit =
      Runs-bind Idle (Runs-emit (lower target.upstream (ip env)) λ h p. ground arith) λ _.
        Runs-bind Idle
          (Runs-emit (tally (per_ip_rejected target.upstream)) λ h p. (ground arith, p))
          λ _.
            Runs-bind Idle
              (Runs-try_send Idle-Clear client (cap_text target limit)
                (send_client false (cap_text target limit)))
              λ _. Runs-quit none Idle-Clear

  capped-Runs :
      (version name : String) (target : Target) (limit : ℤ)
      → Runs Idle (capped env version name target limit) (Clear false) (Clear false)
  unfolding capped
  capped-Runs version name target limit =
      Runs-if (ltb_ℤ (pos 0) limit)
        (Runs-bind (At true no_handle false)
          (Runs-emit (raise target.upstream (ip env)) λ h p. ground arith)
          λ _. Runs-if (ltb_ℤ limit env.counter_value) (turn_away-Runs target limit) (
            Runs-finally (lower target.upstream (ip env)) (Clear true) (Clear true)
              (take_turn-Runs env true version name target) (λ h p. ground arith)
              (λ h p. ground arith)))
        (take_turn-Runs env false version name target)

  queue_found-Runs :
      (version name : String) (target : Target) (o : Option Queue)
      → Runs Idle (queue_found env version name target o) (Clear false) (Clear false)
  unfolding queue_found
  queue_found-Runs version name target none = Runs-quit _ Idle-Clear
  queue_found-Runs version name target (some q) =
      capped-Runs version name target
        (get_per_ip_limit_for_upstream (env.view capping) target.upstream)

  target_found-Runs :
      (version name : String) (o : Option Target)
      → Runs Idle (target_found env version name o) (Clear false) (Clear false)
  unfolding target_found
  target_found-Runs version name none = Runs-fault Idle-Clear
  target_found-Runs version name (some target) =
      Runs-bind Idle (Runs-emit (set_upstream target.upstream) λ h p. (ground arith, p)) λ _.
        queue_found-Runs version name target
          (get_queue_for_upstream (env.view queueing) target.upstream)

  targets_found-Runs :
      (version name : String) (o : Option (List Target))
      → Runs Idle (targets_found env version name o) (Clear false) (Clear false)
  unfolding targets_found
  targets_found-Runs version name none =
      Runs-bind Idle (Runs-emit (tally unknown_module) λ h p. (ground arith, p)) λ _.
        Runs-bind Idle
          (Runs-try_send Idle-Clear client (unknown_module_text name)
            (send_client false (unknown_module_text name)))
          λ _. Runs-quit none Idle-Clear
  targets_found-Runs version name (some targets) =
      target_found-Runs version name
        (get_elem? targets (choose_target_by_client_ip (env.parse_ip (ip env)) (length targets)))

  list_all_modules-Runs : Runs Idle (list_all_modules env) (Clear false) (Clear false)
  unfolding list_all_modules
  list_all_modules-Runs =
      Runs-bind Idle
        (Runs-try_send Idle-Clear client (module_list (env.view listing))
          (send_client false (module_list (env.view listing))))
        λ e. Runs-quit e Idle-Clear

  greet-Runs : Runs Idle (greet env) Idle (Clear false)
  unfolding greet
  greet-Runs = Runs-if _ (Runs-result λ h p. p) (
      Runs-send Idle-Clear client ((env.view greeting).motd ^^ "\n") _
        (send_client false ((env.view greeting).motd ^^ "\n")))

  session-Runs : Runs Idle (session env) (Clear false) (Clear false)
  unfolding session serve
  session-Runs = Runs-bind Idle (Runs-read Idle-Clear _ _) λ version.
      Runs-bind Idle (Runs-check Idle-Clear _ _) λ _.
        Runs-bind Idle (Runs-send Idle-Clear _ _ _ (send_client false server_version)) λ _.
          Runs-bind Idle (Runs-read Idle-Clear _ _) λ request.
            Runs-bind Idle (Runs-check Idle-Clear _ _) λ _. Runs-bind Idle greet-Runs λ _.
              Runs-if _ list_all_modules-Runs (
                Runs-bind Idle
                  (Runs-emit (set_module (take (count request - 1) request))
                    λ h p. (ground arith, p))
                  λ _.
                    targets_found-Runs version (take (count request - 1) request) (
                      get_targets_for_module (env.view routing) (take (count request - 1) request)))

  -- Between its Add(1) and its Add(-1) of activeConnCount.
  abbrev Counted : Bool → Held → Type 0
  Counted client_open h = h ≡ record arrived { counted = true; client_open = client_open }

  abbrev Listed : Held → Type 0
  Listed h =
      (h.counted ≡ true)
      × (h.listed ≡ false)
      × (h.raised ≡ false)
      × (h.turn ≡ no_handle)
      × (h.upstream_open ≡ false)

  relay-Runs : Runs (Counted true) (relay env) (Counted false) (Counted false)
  unfolding relay
  relay-Runs =
      Runs-finally (close client) Listed Listed
        (Runs-bind Idle (Runs-emit (store_info env.index) λ h p. ground arith) λ _.
          Runs-finally delete_info (Clear false) (Clear false) session-Runs (λ h p. ground arith)
            (λ h p. ground arith))
        (λ h p. ground arith) (λ h p. ground arith)

Post-recover :
    (Q : Held → Type 0) (r : Outcome (Unit {0}) × World) → Post Q Q r → Post Q Q (recover r)
Post-recover Q (go a, w) s = s
Post-recover Q (stop e, w) s = s
Post-recover Q (panic, w) s = s
Post-recover Q (blocked, w) s = s

-- How a session leaves the world: what it did follows the protocol and, once it has ended, nothing is held.
abbrev pub Follows : Outcome (Unit {0}) × World → Type 0
Follows = Post (λ h. h ≡ departed) (λ h. h ≡ departed)

-- Whatever its surroundings are and however it ends, a session does only what the protocol allows and, when it
-- ends, has given back all that it took: its place in the counters, the table of connections and the
-- queue, and both connections.
pub handle_conn-Follows : (env : Env) (w : World) → w.trace ≡ [] → Follows (handle_conn env w)
unfolding handle_conn
handle_conn-Follows env w e =
    (Runs-finally leave (Counted env false) (Counted env false) recovering (λ h p. ground arith)
        (λ h p. ground arith)).run
      (done enter w) (record arrived { counted = true }, rw e refl, refl)
  where
    recovering :
        Runs (Counted env true) (λ v. recover (relay env v)) (Counted env false) (Counted env false)
    recovering = record {
      run = λ v s. Post-recover (Counted env false) (relay env v) ((relay-Runs env).run v s);
    }
