-- ===== src/Dataplane.antt =====
-- internal/dataplane/dataplane.go: the servers that are embedded in the gateway process, and the operations on all
-- of them.
pub mod Rollout
pub mod Create
mod Tests
use rsync_gateway.Prelude.{
  ℕ, suc, Bool, true, false, List, [], ◌∷◌, map, Option, none, some, String, Result, ok, err, ◌>>=◌,
  if◌then◌else◌,
}
use rsync_gateway.Prelude.Int.{ℤ, pos, int_eq, ltb_ℤ}
use rsync_gateway.Prelude.Text.{◌^^◌}
use rsync_gateway.Queue.Channel.{Fault}
use rsync_gateway.Server.{Config, Server}
use rsync_gateway.Server.Load.{World, load_config}

-- Dataplane, whose error channel is that of Start
pub record Dataplane : Type 0 where
  pub servers : List Server

-- One server is done: the loop stops at an error and goes on with `rest` otherwise.
pub then_apply :
    Server × Option String
    → List Server
    → Result Fault (List Server × Option String)
    → Result Fault (List Server × Option String)
then_apply (s, some e) later rest = ok (s ∷ later, some ("dataplane: apply config: " ^^ e))
then_apply (s, none) later rest = rest >>= λ r. ok (s ∷ r.0, r.1)

-- The loop of Apply, with the servers afterwards and the error. Each ApplyConfig asks the system again: `worlds n` is
-- what it answers to the server n places on.
pub apply_each : (ℕ → World) → Config → List Server → Result Fault (List Server × Option String)
apply_each worlds config [] = ok ([], none)
apply_each worlds config (s ∷ later) = load_config (worlds 0) s config false >>= λ r.
    then_apply r later (apply_each (λ n. worlds (suc n)) config later)

-- Apply
pub apply : (ℕ → World) → Config → Dataplane → Result Fault (Dataplane × Option String)
apply worlds config d =
    apply_each worlds config d.servers >>= λ r. ok (record { servers = r.0 }, r.1)

-- Addrs
pub addrs : Dataplane → List String
addrs d = map (λ (s : Server). s.listen_addr) d.servers

-- AdminAddr
pub admin_addr : Dataplane → String
admin_addr d = elim d.servers [ [] ↦ "" | s ∷ _ ↦ s.http_listen_addr ]

-- A round of Server.Drain's loop: the connections that are active, and how many are where the context is done.
abbrev pub Round : Type 0
Round = ℤ × Option ℤ

-- Server.Drain behind its Close, which still waits where the rounds are over.
pub drain_server : List Round → Option ℤ
drain_server [] = none
drain_server ((n, done) ∷ rounds) =
    let later = drain_server rounds in
    if int_eq n (pos 0) then some (pos 0) else elim done [ some m ↦ some m | none ↦ later ]

-- Drain's loop, over the rounds of each server.
pub drain_from : ℤ → List (List Round) → Option ℤ
drain_from remaining [] = some remaining
drain_from remaining (rounds ∷ servers) = elim (drain_server rounds) [
  | none ↦ none
  | some n ↦ drain_from (if ltb_ℤ remaining n then n else remaining) servers
]

-- Drain
pub drain : List (List Round) → Option ℤ
drain servers = drain_from (pos 0) servers
