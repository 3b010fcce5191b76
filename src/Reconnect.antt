-- ===== src/Reconnect.antt =====
-- tryReconnectSuper of RecordServer/RecordServer.cpp: when a server whose connection to SuperServer is
-- gone connects again. GatewayServer/GatewayServer.cpp has the same, and resets some flags of its own.
-- What the client is told, to disconnect and to connect, follows from the result and is left out.
mod Spaced
mod Tests
use rpg_server.Base.{
  ℕ, ◌+◌, ◌*◌, Bool, true, false, not, ◌&&◌, Option, none, some, List, [], ◌∷◌, ◌++◌, ltb, leb,
  ◌==◌, if◌then◌else◌, u32, u64, sub64,
}

-- EXTERNAL_TLS_STUCK_MS.
abbrev pub external_tls_stuck_ms : ℕ
external_tls_stuck_ms = 3000

abbrev pub min_delay : ℕ
min_delay = 1000

abbrev pub max_delay : ℕ
max_delay = 30000

pub record Link : Type 0 where
  pub tls_stuck_since_ms : ℕ
  pub retry_delay_ms : ℕ
  pub next_retry_ms : ℕ

-- What a call finds: the clock, the connection, and whether Connect succeeds if it is called.
pub record Seen : Type 0 where
  pub now_ms : ℕ
  pub connected : Bool
  pub can_send : Bool
  pub connects : Bool

-- The last part: a new connection, unless it is too early. The result says whether one was tried.
unfoldable pub retry : Link → Seen → Link × Bool
retry l t =
    let delay =
      if t.connects
      then min_delay
      else if ltb (u32 (l.retry_delay_ms * 2)) max_delay
      then u32 (l.retry_delay_ms * 2)
      else max_delay in
    if ltb t.now_ms l.next_retry_ms
    then (l, false)
    else (record l { retry_delay_ms = delay; next_retry_ms = u64 (t.now_ms + delay) }, true)

-- A connection that is there but cannot send: since when, 0 standing for not yet.
abbrev pub stuck_since : Link → Seen → ℕ
stuck_since l t = if l.tls_stuck_since_ms == 0 then t.now_ms else l.tls_stuck_since_ms

unfoldable pub try_reconnect_super : Link → Seen → Link × Bool
unfolding retry
try_reconnect_super l t =
    if t.connected && t.can_send
    then (record l { tls_stuck_since_ms = 0; retry_delay_ms = min_delay }, false)
    else if not t.connected
    then retry l t
    else if ltb (sub64 t.now_ms (stuck_since l t)) external_tls_stuck_ms
    then (record l { tls_stuck_since_ms = stuck_since l t }, false)
    else retry (record l { tls_stuck_since_ms = 0 }) t
