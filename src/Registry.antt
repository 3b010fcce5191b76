-- ===== src/Registry.antt =====
-- LoginServer/LoginGatewayRegistry.cpp: the gateways that the login server knows, and the choice of one
-- for a client. An unordered map is walked in the order of its table.
pub mod Walks
pub mod Choice
mod Tests
use rpg_server.Base.{
  ℕ, zero, suc, ◌+◌, ◌-◌, ◌*◌, ◌/◌, ◌%◌, ◌<◌, Bool, true, false, not, ◌&&◌, Option, none, some,
  List, [], ◌∷◌, map, arith, ltb, leb, ◌==◌, if◌then◌else◌, Eq, nat_eq, length, Table, find, insert,
  erase_if,
}

pub record GatewayEntry : Type 0 where
  pub gateway_server_id : ℕ
  pub zone_id : ℕ
  pub game_type : ℕ
  pub last_heartbeat_ms : ℕ
  pub online_count : ℕ
  pub address : List ℕ

pub record Registry : Type 0 where
  pub entries : Table ℕ GatewayEntry
  pub order : List ℕ
  pub zone_rr_index : Table ℕ ℕ
  pub rr_index : ℕ

unfoldable pub keys : Table ℕ GatewayEntry → List ℕ
keys [] = []
keys ((id, e) ∷ m) = id ∷ keys m

unfoldable pub rebuild_order : Registry → Registry
unfolding keys
rebuild_order r = record r {
  order = keys r.entries;
  rr_index = if leb (length (keys r.entries)) r.rr_index then 0 else r.rr_index;
}

unfoldable pub upsert : GatewayEntry → Registry → Registry
unfolding rebuild_order
upsert e r = rebuild_order (record r { entries = insert e.gateway_server_id e r.entries })

unfoldable pub touch : ℕ → ℕ → Registry → Bool × Registry
touch now_ms id r = elim (find id r.entries) [
  | none ↦ (false, r)
  | some e ↦
      (true, record r { entries = insert id (record e { last_heartbeat_ms = now_ms }) r.entries })
]

unfoldable pub is_stale : ℕ → ℕ → GatewayEntry → Bool
is_stale now_ms timeout_ms e =
    ltb e.last_heartbeat_ms now_ms && ltb timeout_ms (now_ms - e.last_heartbeat_ms)

unfoldable pub prune_stale : ℕ → ℕ → Registry → Registry
unfolding is_stale rebuild_order
prune_stale now_ms timeout_ms r =
    rebuild_order (record r { entries = erase_if (is_stale now_ms timeout_ms) r.entries })

abbrev pub nth : ℕ → List ℕ → ℕ
nth n [] = 0
nth zero (x ∷ xs) = x
nth (suc n) (x ∷ xs) = nth n xs

unfoldable pub pick_by_server_id : ℕ → Registry → Option GatewayEntry
pick_by_server_id id r = find id r.entries

unfoldable pub pick_round_robin : Registry → Option GatewayEntry × Registry
pick_round_robin r = if leb (length r.order) 0 then (none, r) else (
  find (nth (r.rr_index % length r.order) r.order) r.entries,
  record r { rr_index = (r.rr_index + 1) % length r.order },
)

abbrev pub serves : ℕ → ℕ → GatewayEntry → Bool
serves zone kind e = e.zone_id == zone && e.game_type == kind

-- zoneIds.
unfoldable pub zone_ids : ℕ → ℕ → Table ℕ GatewayEntry → List ℕ
zone_ids zone kind [] = []
zone_ids zone kind ((id, e) ∷ m) =
    let rest = zone_ids zone kind m in if serves zone kind e then id ∷ rest else rest

-- The best so far: its number and its clients, and whether there is one.
pub record Best : Type 0 where
  pub id : ℕ
  pub online : ℕ
  pub has : Bool

unfoldable pub best_of : Table ℕ GatewayEntry → List ℕ → Best → Best
best_of m [] b = b
best_of m (id ∷ ids) b = elim (find id m) [
  | none ↦ best_of m ids b
  | some e ↦
      let better = best_of m ids (record { id = id; online = e.online_count; has = true }) in
      let same = best_of m ids b in if ltb e.online_count b.online then better else same
]

unfoldable pub tied_of : Table ℕ GatewayEntry → ℕ → List ℕ → List ℕ
tied_of m online [] = []
tied_of m online (id ∷ ids) =
    let rest = tied_of m online ids in
    elim (find id m) [ none ↦ rest | some e ↦ if e.online_count == online then id ∷ rest else rest ]

-- Among those that are tied, by turns; and the turn of the next.
unfoldable pub take_turn : ℕ → ℕ → List ℕ → ℕ × ℕ
take_turn best rr [] = (best, rr)
take_turn best rr (id ∷ []) = (id, rr)
take_turn best rr (id ∷ id' ∷ ids) =
    let n = length (id ∷ id' ∷ ids) in (nth (rr % n) (id ∷ id' ∷ ids), (rr + 1) % n)

-- `(gameType << 32) | zoneId`, the zone being a uint32_t.
abbrev pub zone_key : ℕ → ℕ → ℕ
zone_key zone kind = kind * 4294967296 + zone

unfoldable pub pick_by_zone : ℕ → ℕ → Registry → Option GatewayEntry × Registry
unfolding zone_ids best_of tied_of take_turn pick_by_server_id
pick_by_zone zone kind r =
    let ids = zone_ids zone kind r.entries in
    let best = best_of r.entries ids (record { id = 0; online = 4294967295; has = false }) in
    let rr = elim (find (zone_key zone kind) r.zone_rr_index) as (λ _. ℕ) [
      | none ↦ 0
      | some n ↦ n
    ] in
    let (id, rr') = take_turn best.id rr (tied_of r.entries best.online ids) in
    if not best.has then (none, r) else (
      find id r.entries,
      record r { zone_rr_index = insert (zone_key zone kind) rr' r.zone_rr_index },
    )

unfoldable pub count_for_zone : ℕ → ℕ → Table ℕ GatewayEntry → ℕ
count_for_zone zone kind m = length (zone_ids zone kind m)
