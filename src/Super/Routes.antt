-- ===== src/Super/Routes.antt =====
-- The routing table of SuperServer/SuperServer.cpp: registrations, heartbeats and lost connections, and
-- the logins that a lost server or the clock ends.
use rpg_server.Base.{
  ℕ, ◌+◌, Bool, true, false, not, ◌&&◌, ◌||◌, Option, none, some, List, [], ◌∷◌, ltb, ◌==◌,
  if◌then◌else◌, nat_eq, ℤ, Table, find, insert, erase, total, u32, sub64,
}
use rpg_server.Super.State.{
  unknown_type, session_type, record_type, gateway_type, no_session, load_user_failed, txn_timeout,
  SubServerInfo, PendingLogin, is_resolve_map, Super,
}
use rpg_server.Super.Messages.{RegisterReq, register_rsp, heartbeat_ack, kick_client}
use rpg_server.Super.Logins.{Result, fail_login, is_late, end_login}

unfoldable pub on_register : ℕ → Super → ℕ → RegisterReq → Result
on_register now s conn req = (
  record s {
    servers =
        insert conn
          (record {
            conn_id = conn;
            type = req.server_type;
            server_id = req.server_id;
            ip = req.ip;
            port = req.port;
            name = req.name;
            alive = true;
            last_heartbeat = now;
          })
          s.servers;
  },
  register_rsp conn ∷ [],
)

-- onHeartbeat on a whole Msg_S2S_Heartbeat, the only length that its registration lets through.
unfoldable pub on_heartbeat : ℕ → Super → ℕ → ℕ → ℕ → Result
on_heartbeat now s conn seq online_count = elim (find conn s.servers) [
  | none ↦ (s, heartbeat_ack conn seq now ∷ [])
  | some info ↦ (
    record s {
      servers = insert conn (record info { last_heartbeat = now }) s.servers;
      gateway_online =
          if info.type == gateway_type && info.alive
          then insert info.server_id online_count s.gateway_online
          else s.gateway_online;
    },
    heartbeat_ack conn seq now ∷ [],
  )
]

pub record ZoneStatus : Type 0 where
  pub online_count : ℕ
  pub gateway_count : ℕ
  pub alive : ℕ

abbrev pub online_of : Option ℕ → ℕ
online_of none = 0
online_of (some n) = n

-- The loop of reportZoneStatusToLogin, with the sums so far.
unfoldable pub count_online : Table ℕ ℕ → Table ℕ SubServerInfo → ℕ → ℕ → ℕ × ℕ
count_online online [] total gateways = (total, gateways)
count_online online ((cid, info) ∷ m) total gateways =
    let (total', gateways') =
      if not (info.type == gateway_type) || not info.alive
      then (total, gateways)
      else (u32 (total + online_of (find info.server_id online)), u32 (gateways + 1)) in
    count_online online m total' gateways'

-- What reportZoneStatusToLogin puts into the outbox.
unfoldable pub zone_status : Super → ZoneStatus
unfolding count_online
zone_status s =
    let (total, gateways) = count_online s.gateway_online s.servers 0 0 in
    record {
      online_count = total;
      gateway_count = gateways;
      alive = if ltb 0 gateways then 1 else 0;
    }

unfoldable pub on_kick_user : Super → ℕ → Result
on_kick_user s user = elim (find user s.users) [
  | none ↦ (s, [])
  | some proxy ↦ (
    record s { users = erase user s.users },
    kick_client proxy.gateway_conn_id proxy.gateway_client_conn_id ∷ [],
  )
]

abbrev pub heartbeat_late : ℕ → SubServerInfo → Bool
heartbeat_late now info = ltb 90000 (sub64 now info.last_heartbeat)

unfoldable pub mark_late : ℕ → Table ℕ SubServerInfo → Table ℕ SubServerInfo
mark_late now [] = []
mark_late now ((cid, info) ∷ m) =
    let rest = mark_late now m in
    if heartbeat_late now info
    then (cid, record info { alive = false }) ∷ rest
    else (cid, info) ∷ rest

unfoldable pub check_heartbeat : ℕ → Super → Super
unfolding mark_late
check_heartbeat now s = record s { servers = mark_late now s.servers }

-- The first loop of checkPendingLoginTimeouts, and of failPendingLoginsOnSubServerDisconnect.
unfoldable pub users_where : (PendingLogin → Bool) → Table ℕ PendingLogin → List ℕ
users_where test [] = []
users_where test ((user, p) ∷ m) =
    let rest = users_where test m in if test p then user ∷ rest else rest

-- Their second loop.
unfoldable pub fail_each : ℤ → List ℕ → Super → Result
unfolding fail_login
fail_each code [] s = (s, [])
fail_each code (user ∷ users) s = elim (find user s.pending_logins) [
  | none ↦ fail_each code users s
  | some p ↦
      let (s', out) = fail_each code users (end_login user s) in (s', fail_login p code ∷ out)
]

unfoldable pub check_pending_login_timeouts : ℕ → Super → Result
unfolding users_where fail_each
check_pending_login_timeouts now s =
    fail_each txn_timeout (users_where (is_late now) s.pending_logins) s

-- The logins that the loss of a server of a type fails.
unfoldable pub depends_on : ℕ → PendingLogin → Bool
depends_on type p =
    type == record_type
    || (type == session_type && (p.awaiting_map_resolve || is_resolve_map p.phase))

unfoldable pub fail_pending_logins_on_sub_server_disconnect : Super → ℕ → Result
unfolding users_where fail_each depends_on
fail_pending_logins_on_sub_server_disconnect s type =
    fail_each (if type == record_type then load_user_failed else no_session)
      (users_where (depends_on type) s.pending_logins) s

abbrev pub type_of : Option SubServerInfo → ℕ
type_of none = unknown_type
type_of (some info) = info.type

abbrev pub forget_online : Option SubServerInfo → Table ℕ ℕ → Table ℕ ℕ
forget_online none online = online
forget_online (some info) online =
    if info.type == gateway_type then erase info.server_id online else online

-- removeSubServer, the whole of OnDisconnect.
unfoldable pub remove_sub_server : Super → ℕ → Result
unfolding fail_pending_logins_on_sub_server_disconnect
remove_sub_server s conn =
    let lost = find conn s.servers in
    let rest = record s {
      servers = erase conn s.servers;
      gateway_online = forget_online lost s.gateway_online;
    } in
    if type_of lost == record_type || type_of lost == session_type
    then fail_pending_logins_on_sub_server_disconnect rest (type_of lost)
    else (rest, [])
