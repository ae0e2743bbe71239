-- ===== src/Server/Listen.antt =====
-- pkg/server/server.go and utils.go: the listeners of a server. A listener is named by a number of its own; `Sockets` are
-- those that are open.
pub mod Leaves
pub mod Whole
use Prim.Native.Char.{code}
use rsync_gateway.Prelude.{
  ℕ, suc, Bool, true, false, not, List, [], ◌∷◌, Option, none, some, String, Result, ok, err,
  if◌then◌else◌, nat_eq, keep_if, is_some,
}
use rsync_gateway.Prelude.Int.{ℤ}
use rsync_gateway.Prelude.Keys.{◌==◌, String_eq}
use rsync_gateway.Prelude.Text.{◌^^◌}
use rsync_gateway.Queue.Channel.{Fault}
use rsync_gateway.Server.{Server}

pub record Listener : Type 0 where
  pub id : ℕ
  pub addr : String

pub record Sockets : Type 0 where
  pub next : ℕ
  pub opened : List ℕ

-- net.Listen for a network, an address and the number of the listener: its own address or an error; os.Chmod.
pub record Net : Type 0 where
  pub listen : String → String → ℕ → Result String String
  pub chmod : String → Result String (Unit {0})

-- Why a function does not give its result.
pub data Trouble : Type 0 where
  reported : String → Trouble
  faulted : Fault → Trouble

abbrev pub Action : Type 0 → Type 0
Action A = Sockets → Result Trouble A × Sockets

abbrev pub go_on :
    {A B : Type 0} → Result Trouble A × Sockets → (A → Action B) → Result Trouble B × Sockets
go_on (err e, s) f = (err e, s)
go_on (ok a, s) f = f a s

abbrev pub cleaned :
    {A : Type 0} → (Sockets → Sockets) → Result Trouble A × Sockets → Result Trouble A × Sockets
cleaned clean (err e, s) = (err e, clean s)
cleaned clean (ok a, s) = (ok a, s)

abbrev pub renamed : {A : Type 0} → String → Result Trouble A × Sockets → Result Trouble A × Sockets
renamed p (err (reported e), s) = (err (reported (p ^^ e)), s)
renamed p (err (faulted f), s) = (err (faulted f), s)
renamed p (ok a, s) = (ok a, s)

infixl 5 ◌>>=◌ ◌>>◌
abbrev pub ◌>>=◌ : {A B : Type 0} → Action A → (A → Action B) → Action B
(m >>= f) s = go_on (m s) f

abbrev pub ◌>>◌ : {A B : Type 0} → Action A → Action B → Action B
m >> n = m >>= λ _. n

abbrev pub pure : {A : Type 0} → A → Action A
pure a s = (ok a, s)

abbrev pub report : {A : Type 0} → String → Action A
report e s = (err (reported e), s)

-- What is done on the way out of an error.
abbrev pub on_error : {A : Type 0} → (Sockets → Sockets) → Action A → Action A
on_error clean m s = cleaned clean (m s)

-- The text in front of an error, as `%w` gives it.
abbrev pub named : {A : Type 0} → String → Action A → Action A
named p m s = renamed p (m s)

close_id : ℕ → Sockets → Sockets
close_id i s = record s { opened = keep_if (λ j. not (nat_eq i j)) s.opened }

-- Close of a listener, which may be closed already, or nil.
pub close : Option Listener → Sockets → Sockets
unfolding close_id
close none s = s
close (some l) s = close_id l.id s

-- An address of a Unix socket.
pub is_unix : String → Bool
is_unix String.[] = false
is_unix (String.◌∷◌ c s) = nat_eq (code c) 47

module _ (net : Net) where
  -- net.Listen
  pub net_listen : String → String → Action Listener
  net_listen network addr s =
      elim (net.listen network addr s.next) as (λ r. Result Trouble Listener × Sockets) [
        | err e ↦ (err (reported e), s)
        | ok own ↦ (
          ok (record { id = s.next; addr = own }),
          record { next = suc s.next; opened = s.next ∷ s.opened },
        )
      ]

  -- os.Chmod
  unfoldable pub set_mode : String → Action (Unit {0})
  set_mode addr s = elim (net.chmod addr) as (λ r. Result Trouble (Unit {0}) × Sockets) [
    | err e ↦ (err (reported e), s)
    | ok _ ↦ (ok tt, s)
  ]

  -- listenTCPOrUnix: where the mode cannot be set the listener stays open.
  pub listen_tcp_or_unix : String → Action Listener
  listen_tcp_or_unix addr =
      if is_unix addr
      then (do l ← net_listen "unix" addr; set_mode addr; pure l)
      else net_listen "tcp" addr

  -- The second listener of Listen, where TLSListenAddr is set.
  pub listen_tls : String → Action (Option Listener)
  listen_tls addr =
      if addr == "" then pure none else (do l ← listen_tcp_or_unix addr; pure (some l))

-- A server with its listeners and timeouts.
pub record Instance : Type 0 where
  pub server : Server
  pub tcp : Option Listener
  pub tls : Option Listener
  pub http : Option Listener
  pub read_timeout : ℤ
  pub write_timeout : ℤ

-- Close
pub close_server : Instance → Sockets → Sockets
close_server i s = close i.http (close i.tls (close i.tcp s))

abbrev own_addr : Option Listener → String → String
own_addr none addr = addr
own_addr (some l) addr = l.addr

-- The assignments at the end of Listen, and those of the addresses.
pub with_listeners : Instance → Listener → Option Listener → Listener → Instance
with_listeners i l1 tls l2 = record i {
  server = record i.server {
    listen_addr = l1.addr;
    tls_listen_addr = own_addr tls i.server.tls_listen_addr;
    http_listen_addr = l2.addr;
    tcp_listener = true;
    tls_listener = is_some tls;
    http_listener = true;
  };
  tcp = some l1;
  tls = tls;
  http = some l2;
}

-- Listen
pub listen : Net → Instance → Action Instance
listen net i = do
  l1 ← named "create tcp listener: " (listen_tcp_or_unix net i.server.listen_addr)
  tls ←
      on_error (close (some l1))
        (named "create tls listener: " (listen_tls net i.server.tls_listen_addr))
  l2 ←
      on_error (λ s. close tls (close (some l1) s))
        (named "create http listener: " (listen_tcp_or_unix net i.server.http_listen_addr))
  pure (with_listeners i l1 tls l2)
