-- ===== src/Server/Relay/Protocol.antt =====
-- What a session of pkg/server/server.go may do, and when: an automaton over the effects of relay and
-- handleConn, and what it means for a computation to follow it.
use rsync_gateway.Prelude.{
  ◌≡◌, Bool, true, false, not, ◌&&◌, List, [], ◌∷◌, Option, none, some, if◌then◌else◌,
}
use rsync_gateway.Server.Relay.{
  client, upstream, Effect, enter, leave, store_info, delete_info, set_module, set_upstream, raise,
  lower, acquire, receive, release, dial, send, transfer, close_read, close, tally, completed,
  World, Outcome, go, stop, panic, blocked, M,
}

-- The handle on the queue: none, one that waits, or one that has its turn.
pub data Turn : Type 0 where
  no_handle waiting granted : Turn

-- What a session holds.
pub record Held : Type 0 where
  pub counted : Bool  -- in activeConnCount
  pub listed : Bool  -- in connInfo
  pub client_open : Bool
  pub raised : Bool  -- in the per-IP counter
  pub turn : Turn
  pub upstream_open : Bool

-- Before the session and after it.
abbrev pub arrived : Held
arrived = record {
  counted = false;
  listed = false;
  client_open = true;
  raised = false;
  turn = no_handle;
  upstream_open = false;
}

abbrev pub departed : Held
departed = record arrived { client_open = false }

abbrev pub is_none : Turn → Bool
is_none no_handle = true
is_none _ = false

abbrev pub is_waiting : Turn → Bool
is_waiting waiting = true
is_waiting _ = false

abbrev pub is_granted : Turn → Bool
is_granted granted = true
is_granted _ = false

-- Nothing is taken twice, nothing is given back that is not held, what was taken later is given back
-- earlier, only a granted session dials, and only an open connection is written to.
abbrev pub allowed : Effect → Held → Bool
allowed enter h = not h.counted
allowed leave h = h.counted && not h.listed && not h.client_open
allowed (store_info _) h = h.counted && not h.listed
allowed delete_info h = h.listed && not h.raised && is_none h.turn
allowed (set_module _) h = h.listed
allowed (set_upstream _) h = h.listed
allowed (raise _ _) h = h.listed && not h.raised && is_none h.turn
allowed (lower _ _) h = h.raised && is_none h.turn
allowed (acquire _) h = h.listed && is_none h.turn
allowed (receive _) h = is_waiting h.turn
allowed release h = not (is_none h.turn) && not h.upstream_open
allowed (dial _ _ _) h = is_granted h.turn && not h.upstream_open
allowed (send client _) h = h.listed && h.client_open
allowed (send upstream _) h = h.upstream_open
allowed transfer h = h.client_open && h.upstream_open
allowed (close_read client) h = h.client_open
allowed (close_read upstream) h = h.upstream_open
allowed (close client) h = h.counted
allowed (close upstream) h = is_granted h.turn
allowed (tally _) h = h.listed
allowed (completed _ _ _ _) h = is_granted h.turn

abbrev pub after : Effect → Held → Held
after enter h = record h { counted = true }
after leave h = record h { counted = false }
after (store_info _) h = record h { listed = true }
after delete_info h = record h { listed = false }
after (raise _ _) h = record h { raised = true }
after (lower _ _) h = record h { raised = false }
after (acquire _) h = record h { turn = waiting }
after (receive st) h = record h { turn = if st.ok then granted else waiting }
after release h = record h { turn = no_handle }
after (dial _ _ success) h = record h { upstream_open = success }
after (close client) h = record h { client_open = false }
after (close upstream) h = record h { upstream_open = false }
after _ h = h

abbrev pub move : Effect → Option Held → Option Held
move e none = none
move e (some h) = if allowed e h then some (after e h) else none

-- Where a list of effects leads, the latest first; nowhere if one of them is not allowed.
abbrev pub leads : List Effect → Option Held
leads [] = some arrived
leads (e ∷ effects) = move e (leads effects)

-- The trace leads to a state that satisfies `P`.
abbrev pub Stands : (Held → Type 0) → World → Type 0
Stands P w = (h : Held) × (leads w.trace ≡ some h) × P h

abbrev pub Any : Held → Type 0
Any h = Unit {0}

-- `Q` where the computation goes on, `R` where it returns or panics, and the protocol is kept if it blocks.
abbrev pub Post : {A : Type 0} → (Held → Type 0) → (Held → Type 0) → Outcome A × World → Type 0
Post Q R (go a, w) = Stands Q w
Post Q R (stop e, w) = Stands R w
Post Q R (panic, w) = Stands R w
Post Q R (blocked, w) = Stands Any w

pub record Runs {A : Type 0} (P : Held → Type 0) (m : M A) (Q R : Held → Type 0) : Type 0 where
  pub run : (w : World) → Stands P w → Post Q R (m w)

-- An effect is allowed under `P` and leads to `Q`.
abbrev pub Leads : (Held → Type 0) → Effect → (Held → Type 0) → Type 0
Leads P e Q = (h : Held) → P h → (allowed e h ≡ true) × Q (after e h)
