-- ===== src/Server/Relay/Session/Returns.antt =====
-- The sessions of pkg/server/server.go end, and have then given everything back.
use Prim.Native.String.{count}
use rsync_gateway.Prelude.{
  ℕ, ◌≡◌, ◌≤◌, ◌-◌, ◌∙◌, ap, List, [], Option, none, some, String, length, get_elem?,
}
use rsync_gateway.Prelude.Int.{ℤ, pos, ltb_ℤ}
use rsync_gateway.Prelude.Text.{◌^^◌}
use rsync_gateway.Prelude.Bytes.{take}
use rsync_gateway.Queue.{Queue}
use rsync_gateway.Server.{
  Target, get_queue_for_upstream, get_targets_for_module, get_per_ip_limit_for_upstream,
}
use rsync_gateway.Server.Balance.{choose_target_by_client_ip}
use rsync_gateway.Server.Listing.{module_list}
use rsync_gateway.Server.Wire.Lines.{failures}
use rsync_gateway.Server.Relay.{
  Side, client, enter, leave, store_info, delete_info, set_module, set_upstream, raise, lower,
  close, tally, per_ip_rejected, unknown_module, listing, greeting, routing, queueing, capping, Env,
  World, Outcome, go, stop, panic, blocked, recover, done,
}
use rsync_gateway.Server.Relay.Forward.{ip}
use rsync_gateway.Server.Relay.Line.Returns.{Answered, take_turn-Ends}
use rsync_gateway.Server.Relay.Session.{
  server_version, unknown_module_text, cap_text, turn_away, capped, queue_found, target_found,
  targets_found, serve, list_all_modules, greet, session, relay, handle_conn,
}
use rsync_gateway.Server.Relay.Session.Obeys.{Follows, handle_conn-Follows}
use rsync_gateway.Server.Relay.Protocol.{departed, leads}
use rsync_gateway.Server.Relay.Ending.{
  Ended, Ends, Ends-bind, Ends-finally, Ends-emit, Ends-result, Ends-quit, Ends-fault, Ends-if,
  Ends-check, Ends-try_send, Ends-send, Ends-read_client,
}

module _ (env : Env) (out in_ : ℕ) (first : Side) (ends : env.transferred ≡ some (out, in_, first))
    (answered : Answered env.events) where
  turn_away-Ends : (target : Target) (limit : ℤ) → Ends 0 1 (turn_away env target limit) 0 0
  unfolding turn_away
  turn_away-Ends target limit = Ends-bind 0 1 (Ends-emit (lower target.upstream (ip env))) λ _.
      Ends-bind 0 1 (Ends-emit (tally (per_ip_rejected target.upstream)))
        λ _. Ends-bind 0 1 (Ends-try_send client (cap_text target limit)) λ _. Ends-quit 0 0 none

  capped-Ends :
      (version name : String) (target : Target) (limit : ℤ)
      → Ends 0 1 (capped env version name target limit) 0 0
  unfolding capped
  capped-Ends version name target limit =
      Ends-if (ltb_ℤ (pos 0) limit)
        (Ends-bind 0 1 (Ends-emit (raise target.upstream (ip env))) λ _.
          Ends-if (ltb_ℤ limit env.counter_value) (turn_away-Ends target limit) (
            Ends-finally (lower target.upstream (ip env))
              (take_turn-Ends env 0 out in_ first ends version name target answered)))
        (take_turn-Ends env 0 out in_ first ends version name target answered)

  queue_found-Ends :
      (version name : String) (target : Target) (o : Option Queue)
      → Ends 0 1 (queue_found env version name target o) 0 0
  unfolding queue_found
  queue_found-Ends version name target none = Ends-quit 0 0 _
  queue_found-Ends version name target (some q) =
      capped-Ends version name target
        (get_per_ip_limit_for_upstream (env.view capping) target.upstream)

  target_found-Ends :
      (version name : String) (o : Option Target) → Ends 0 1 (target_found env version name o) 0 0
  unfolding target_found
  target_found-Ends version name none = Ends-fault 0 0
  target_found-Ends version name (some target) =
      Ends-bind 0 1 (Ends-emit (set_upstream target.upstream)) λ _.
        queue_found-Ends version name target
          (get_queue_for_upstream (env.view queueing) target.upstream)

  targets_found-Ends :
      (version name : String) (o : Option (List Target))
      → Ends 0 1 (targets_found env version name o) 0 0
  unfolding targets_found
  targets_found-Ends version name none =
      Ends-bind 0 1 (Ends-emit (tally unknown_module))
        λ _. Ends-bind 0 1 (Ends-try_send client (unknown_module_text name)) λ _. Ends-quit 0 0 none
  targets_found-Ends version name (some targets) =
      target_found-Ends version name
        (get_elem? targets (choose_target_by_client_ip (env.parse_ip (ip env)) (length targets)))

  serve-Ends : (version name : String) → Ends 0 1 (serve env version name) 0 0
  unfolding serve
  serve-Ends version name =
      Ends-bind 0 1 (Ends-emit (set_module name))
        λ _. targets_found-Ends version name (get_targets_for_module (env.view routing) name)

  list_all_modules-Ends : Ends 0 1 (list_all_modules env) 0 0
  unfolding list_all_modules
  list_all_modules-Ends =
      Ends-bind 0 1 (Ends-try_send client (module_list (env.view listing))) λ e. Ends-quit 0 0 e

  greet-Ends : Ends 0 1 (greet env) 0 1
  unfolding greet
  greet-Ends = Ends-if _ (Ends-result tt) (Ends-send client ((env.view greeting).motd ^^ "\n") _)

  session-Ends : Ends 2 1 (session env) 0 0
  unfolding session
  session-Ends = Ends-bind 1 1 (Ends-read_client _) λ version. Ends-bind 1 1 (Ends-check _ _) λ _.
      Ends-bind 1 1 (Ends-send client server_version _) λ _.
        Ends-bind 0 1 (Ends-read_client _) λ request. Ends-bind 0 1 (Ends-check _ _) λ _.
          Ends-bind 0 1 greet-Ends λ _.
            Ends-if _ list_all_modules-Ends (serve-Ends version (take (count request - 1) request))

  relay-Ends : Ends 2 1 (relay env) 0 0
  unfolding relay
  relay-Ends =
      Ends-finally (close client) (
        Ends-bind 2 1 (Ends-emit (store_info env.index)) λ _. Ends-finally delete_info session-Ends)

  Ended-recover : (r : Outcome (Unit {0}) × World) → Ended 0 0 r → Ended 0 0 (recover r)
  Ended-recover (go a, w) h = h
  Ended-recover (stop e, w) h = tt
  Ended-recover (panic, w) h = tt
  Ended-recover (blocked, w) h = h

  handle_conn-Ends : Ends 2 1 (handle_conn env) 0 0
  unfolding handle_conn
  handle_conn-Ends = record { run = λ w h. (Ends-finally leave recovering).run (done enter w) h }
    where
      recovering : Ends 2 1 (λ v. recover (relay env v)) 0 0
      recovering = record { run = λ v h. Ended-recover (relay env v) (relay-Ends.run v h) }

-- The session has ended, and its effects lead to the state in which nothing is held.
abbrev pub Departs : Outcome (Unit {0}) × World → Type 0
Departs (go a, w) = leads w.trace ≡ some departed
Departs (stop e, w) = leads w.trace ≡ some departed
Departs (panic, w) = leads w.trace ≡ some departed
Departs (blocked, w) = ⊥

Departs-of : (r : Outcome (Unit {0}) × World) → Follows r → Ended 0 0 r → Departs r
Departs-of (go a, w) (h, at, e) _ = at ∙ ap some e
Departs-of (stop why, w) (h, at, e) _ = at ∙ ap some e
Departs-of (panic, w) (h, at, e) _ = at ∙ ap some e
Departs-of (blocked, w) _ absurd_here = absurd_here

-- A session ends, and has then given back all that it took, if the reads from the client fail twice and those
-- from the upstream once at the latest when they have waited long enough, the queue answers it, and the
-- copying comes to an end.
pub handle_conn-Departs :
    (env : Env) (w : World) (out in_ : ℕ) (first : Side)
    → w.trace ≡ []
    → 2 ≤ failures w.from_client
    → 1 ≤ failures w.from_upstream
    → Answered env.events
    → env.transferred ≡ some (out, in_, first)
    → Departs (handle_conn env w)
handle_conn-Departs env w out in_ first empty reads upstream_reads answered ends =
    Departs-of (handle_conn env w) (handle_conn-Follows env w empty)
      ((handle_conn-Ends env out in_ first ends answered).run w (reads, upstream_reads))
