-- ===== src/Server/Relay.antt =====
-- The effects of relay and handleConn in pkg/server/server.go: what a session does to the connections, the
-- queue and the counters, what it reads, and the order of its deferred calls. Session has the code.
pub mod Protocol
pub mod Rules
pub mod Stages
pub mod Ending
pub mod Forward
pub mod Line
pub mod Session
use rsync_gateway.Prelude.{
  ℕ, ◌≡◌, Bool, true, false, List, [], ◌∷◌, Option, none, some, String, if◌then◌else◌,
}
use rsync_gateway.Prelude.Int.{ℤ}
use rsync_gateway.Prelude.Text.{◌^^◌}
use rsync_gateway.Queue.Channel.{Status}
use rsync_gateway.Server.{Server}
use rsync_gateway.Server.Wire.{Address, Arrival, LineRead, line, failed, waits, read_line}

pub data Side : Type 0 where
  client upstream : Side

-- The counters of an upstream, and that of unknown modules.
pub data Counter : Type 0 where
  unknown_module : Counter
  per_ip_rejected queue_full dial_error : String → Counter

pub data Effect : Type 0 where
  enter leave : Effect  -- activeConnCount
  store_info : ℕ → Effect
  delete_info : Effect
  set_module set_upstream : String → Effect
  raise lower : String → String → Effect  -- the counter of an upstream and a client IP
  acquire : String → Effect
  receive : Status → Effect
  release : Effect
  dial : String → String → Bool → Effect  -- network, address, success
  send : Side → String → Effect
  transfer : Effect
  close_read close : Side → Effect
  tally : Counter → Effect
  completed : String → String → ℕ → ℕ → Effect

-- What a session meets while it waits: a status on handle.C, or a minute that passes.
pub data Event : Type 0 where
  notice : Status → Event
  minute : Event

-- When the server's fields are read. A reload may come in between, so each has its own view.
pub data Moment : Type 0 where
  greeting listing routing queueing capping : Moment

-- The surroundings of one session: the addresses, the server at each moment, and the answers of the
-- system and of the other sessions. `transferred` is the number of bytes sent and received, and the side
-- that ends first.
pub record Env : Type 0 where
  pub index : ℕ
  pub client_addr : Address
  pub addr_text : Address → String
  pub ip_text : List ℕ → String
  pub parse_ip : String → List ℕ
  pub view : Moment → Server
  pub counter_value : ℤ
  pub queue_max : ℤ
  pub events : List Event
  pub dial_failure : Option String
  pub upstream_addr : Address
  pub transferred : Option (ℕ × ℕ × Side)

-- What is still to be read on each side, whether the writes to come fail, and what was done, the latest first.
pub record World : Type 0 where
  pub from_client : List Arrival
  pub from_upstream : List Arrival
  pub writes : List (Option String)
  pub trace : List Effect

-- `stop` is a return, with its error; `blocked` is a call that never returns.
pub data Outcome (A : Type 0) : Type 0 where
  go : A → Outcome A
  stop : Option String → Outcome A
  panic : Outcome A
  blocked : Outcome A

abbrev pub M : Type 0 → Type 0
M A = World → Outcome A × World

abbrev pub continue : {A B : Type 0} → (A → M B) → Outcome A × World → Outcome B × World
continue f (go a, w) = f a w
continue f (stop e, w) = (stop e, w)
continue f (panic, w) = (panic, w)
continue f (blocked, w) = (blocked, w)

infixl 5 ◌>>=◌ ◌>>◌
abbrev pub ◌>>=◌ : {A B : Type 0} → M A → (A → M B) → M B
◌>>=◌ m f w = continue f (m w)

abbrev pub ◌>>◌ : {A B : Type 0} → M A → M B → M B
m >> n = m >>= λ _. n

abbrev pub result : {A : Type 0} → A → M A
result a w = (go a, w)

-- `return err`
abbrev pub quit : {A : Type 0} → Option String → M A
quit e w = (stop e, w)

abbrev pub block : {A : Type 0} → M A
block w = (blocked, w)

abbrev pub fault : {A : Type 0} → M A
fault w = (panic, w)

abbrev pub done : Effect → World → World
done e w = record w { trace = e ∷ w.trace }

abbrev pub emit : Effect → M (Unit {0})
emit e w = (go tt, done e w)

-- `defer`: the effect comes when the body returns or panics.
abbrev pub ending : {A : Type 0} → Effect → Outcome A × World → Outcome A × World
ending e (go a, w) = (go a, done e w)
ending e (stop why, w) = (stop why, done e w)
ending e (panic, w) = (panic, done e w)
ending e (blocked, w) = (blocked, w)

abbrev pub finally : {A : Type 0} → Effect → M A → M A
finally e m w = ending e (m w)

-- handleConn's recover
abbrev pub recover : {A : Type 0} → Outcome A × World → Outcome A × World
recover (panic, w) = (stop (some "panicked"), w)
recover (go a, w) = (go a, w)
recover (stop e, w) = (stop e, w)
recover (blocked, w) = (blocked, w)

-- `if bad { return err }`
abbrev pub check : Bool → String → M (Unit {0})
check good why = if good then result tt else quit (some why)

abbrev pub after_send : Side → String → World → List (Option String) → World
after_send side text w rest = record w { writes = rest; trace = send side text ∷ w.trace }

abbrev pub sent : Side → String → World → List (Option String) → Outcome (Option String) × World
sent side text w [] = (go none, after_send side text w [])
sent side text w (failure ∷ rest) = (go failure, after_send side text w rest)

-- writeWithTimeout, with the error of the write; where no answer is left, a write succeeds.
pub try_send : Side → String → M (Option String)
try_send side text w = sent side text w w.writes

abbrev pub unless_failed : String → Option String → M (Unit {0})
unless_failed context none = result tt
unless_failed context (some why) = quit (some (context ^^ why))

-- A write with `if err != nil { return fmt.Errorf("context: %w", err) }`.
pub send_or_quit : Side → String → String → M (Unit {0})
unfolding try_send
send_or_quit side text context = try_send side text >>= unless_failed context

abbrev pub unread : Side → World → List Arrival
unread client w = w.from_client
unread upstream w = w.from_upstream

abbrev pub have_read : Side → List Arrival → World → World
have_read client rest w = record w { from_client = rest }
have_read upstream rest w = record w { from_upstream = rest }

pub after_read : Side → String → World → LineRead → Outcome String × World
after_read side context w (line got rest) = (go got, have_read side rest w)
after_read side context w (failed got why rest) =
    (stop (some (context ^^ why)), have_read side rest w)
after_read side context w (waits got) = (blocked, have_read side [] w)

-- readLine into a buffer of ReadBufferSize bytes, with the error that a failure returns.
pub read_or_quit : Side → String → M String
unfolding after_read
read_or_quit side context w = after_read side context w (read_line 256 "" (unread side w))
