-- ===== src/Server/Relay/Stages.antt =====
-- The stages of a session in the protocol of Protocol.
use rsync_gateway.Server.Relay.Protocol.{Turn, no_handle, granted, Held, is_none, Leads}
use rsync_gateway.Prelude.{◌≡◌, Bool, true, false, String, arith}
use rsync_gateway.Server.Relay.{client, upstream, send}

-- In a session, with or without the per-IP counter raised.
pub record Within (raised : Bool) (h : Held) : Type 0 where
  pub counted : h.counted ≡ true
  pub listed : h.listed ≡ true
  pub raised_kept : h.raised ≡ raised

-- The client's connection is open; the turn and the upstream's connection are known.
pub record At (raised : Bool) (turn : Turn) (upstream_open : Bool) (h : Held) : Type 0 where
  pub within : Within raised h
  pub client_open : h.client_open ≡ true
  pub turn_kept : h.turn ≡ turn
  pub upstream_kept : h.upstream_open ≡ upstream_open

-- Its turn has come.
pub record Granted (raised : Bool) (h : Held) : Type 0 where
  pub within : Within raised h
  pub turn_kept : h.turn ≡ granted

-- A handle is held, and no connection to the upstream.
pub record Lined (raised : Bool) (h : Held) : Type 0 where
  pub within : Within raised h
  pub turn_held : is_none h.turn ≡ false
  pub upstream_kept : h.upstream_open ≡ false

-- Neither is held.
pub record Clear (raised : Bool) (h : Held) : Type 0 where
  pub within : Within raised h
  pub turn_kept : h.turn ≡ no_handle
  pub upstream_kept : h.upstream_open ≡ false

module _ (r : Bool) where
  -- A write to an open connection.
  pub send_client :
      {t : Turn} {u : Bool} (text : String) → Leads (At r t u) (send client text) (At r t u)
  send_client text h p = (ground arith, p)

  pub send_upstream :
      {t : Turn} (text : String) → Leads (At r t true) (send upstream text) (At r t true)
  send_upstream text h p = (ground arith, p)

  pub At-Granted : {u : Bool} (h : Held) → At r granted u h → Granted r h
  At-Granted h p = record { within = p.within; turn_kept = p.turn_kept }

  abbrev pub Working : Held → Type 0
  Working = At r granted true
