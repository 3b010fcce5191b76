-- ===== src/Record/Users.antt =====
-- Loading and saving users in RecordServer/RecordServer.cpp, with RecordUser.cpp and
-- RecordUserManager.cpp. MySQL is a parameter: what the SELECT of a user finds, and what the INSERT of one
-- leaves, whether it succeeds or not.
use rpg_server.Base.{
  pos, negsuc, ℕ, ◌+◌, ◌*◌, Bool, true, false, not, Option, none, some, List, [], ◌∷◌, ◌++◌, ltb,
  leb, ◌==◌, if◌then◌else◌, nat_eq, contains, set_insert, set_erase, length, take, drop, ℤ, Table,
  find, insert,
}
use rpg_server.Super.State.{UserBaseWire}
use rpg_server.Super.Messages.{LoadUserBody, header, whole}
use rpg_server.Super.Logins.{copy_to_wire}

-- The state is the table CharBase; relations, in another table, are left out.
pub record Database : Type 1 where
  pub State : Type 0
  pub select : State → ℕ → Option UserBaseWire
  pub upsert : State → ℕ → UserBaseWire → State

-- A cached user: its base data, and whether they have changed since they were saved.
pub record RecordUser : Type 0 where
  pub base : UserBaseWire
  pub dirty : Bool

pub record LoadQueueItem : Type 0 where
  pub user_id : ℕ
  pub request_seq : ℕ

pub data SaveQueueItem : Type 0 where
  user_item : ℕ → ℕ → SaveQueueItem
  relation_item : List ℕ → SaveQueueItem

pub record Record : Type 0 where
  pub user_manager : Table ℕ RecordUser
  pub load_queue : List LoadQueueItem
  pub pending_load_users : List ℕ
  pub save_queue : List SaveQueueItem

abbrev pub max_load_queue_depth : ℕ
max_load_queue_depth = 4096

abbrev pub max_save_queue_depth : ℕ
max_save_queue_depth = 8192

-- A std::string made from a wire field ends at its first zero byte.
unfoldable pub c_string : List ℕ → List ℕ
c_string [] = []
c_string (c ∷ s) = let rest = c_string s in if c == 0 then [] else c ∷ rest

-- applyUserBaseWire, which replaces every field.
unfoldable pub apply_user_base_wire : UserBaseWire → UserBaseWire
unfolding c_string
apply_user_base_wire wire = record wire { name = c_string wire.name }

-- The user of a successful REC_LOAD_USER_RSP.
unfoldable pub wire_of : UserBaseWire → UserBaseWire
unfolding copy_to_wire
wire_of base = record base {
  name = copy_to_wire 31 base.name;
  map_id = if base.map_id == 0 then 1001 else base.map_id;
}

abbrev pub load_rsp_of : ℕ → ℕ → Option RecordUser → LoadUserBody
load_rsp_of user seq none = header (record { code = negsuc 0; user_id = user; request_seq = seq })
load_rsp_of user seq (some u) =
    whole (record { code = pos 0; user_id = user; request_seq = seq }) (wire_of u.base)

unfoldable pub send_load_user_rsp : Record → ℕ → ℕ → LoadUserBody
unfolding wire_of
send_load_user_rsp r user seq = load_rsp_of user seq (find user r.user_manager)

abbrev pub is_cached : Record → ℕ → Bool
is_cached r user = elim (find user r.user_manager) [ none ↦ false | some u ↦ true ]

-- onLoadUser. A request in the old format, a user alone, has the number 0.
unfoldable pub on_load_user : Record → ℕ → ℕ → Record × List LoadUserBody
unfolding send_load_user_rsp contains
on_load_user r user seq =
    if is_cached r user
    then (r, send_load_user_rsp r user seq ∷ [])
    else if contains user r.pending_load_users
    then (r, [])
    else if leb max_load_queue_depth (length r.load_queue)
    then (r, header (record { code = negsuc 0; user_id = user; request_seq = seq }) ∷ [])
    else (
      record r {
        pending_load_users = set_insert user r.pending_load_users;
        load_queue = r.load_queue ++ record { user_id = user; request_seq = seq } ∷ [];
      },
      [],
    )

module _ (d : Database) where
  open d use {State, select, upsert}

  abbrev pub load_row : Option UserBaseWire → ℕ → Record → Record
  load_row none user r = r
  load_row (some base) user r = record r {
    user_manager = insert user (record { base = base; dirty = false }) r.user_manager;
  }

  unfoldable pub load_user_from_db : State → Record → ℕ → Record
  load_user_from_db db r user = load_row (select db user) user r

  unfoldable pub drain_load_queue : State → Record → Record × List LoadUserBody
  unfolding load_user_from_db send_load_user_rsp
  drain_load_queue db r = elim r.load_queue [
    | [] ↦ (r, [])
    | item ∷ items ↦
        let r1 = record r {
          load_queue = items;
          pending_load_users = set_erase item.user_id r.pending_load_users;
        } in
        let r2 = if is_cached r1 item.user_id then r1 else load_user_from_db db r1 item.user_id in
        (r2, send_load_user_rsp r2 item.user_id item.request_seq ∷ [])
  ]

  -- saveUserToDb. RecordUser::save clears the mark before the query is made.
  unfoldable pub save_user_to_db : State → Record → ℕ → State × Record
  save_user_to_db db r user = elim (find user r.user_manager) [
    | none ↦ (db, r)
    | some u ↦ if not u.dirty then (db, r) else (
      upsert db user u.base,
      record r { user_manager = insert user (record u { dirty = false }) r.user_manager },
    )
  ]

  -- drainSaveQueue, for the items that hold a user.
  unfoldable pub drain_save_queue : State → Record → State × Record
  unfolding save_user_to_db
  drain_save_queue db r = elim r.save_queue [
    | [] ↦ (db, r)
    | item ∷ items ↦
        let r1 = record r { save_queue = items } in
        elim item [
          | user_item user conn ↦ save_user_to_db db r1 user
          | relation_item payload ↦ (db, r1)
        ]
  ]

  -- The loop of autoSaveAll over the cached users.
  unfoldable pub save_users : List ℕ → State → Record → State × Record
  unfolding save_user_to_db
  save_users [] db r = (db, r)
  save_users (user ∷ users) db r =
      let (db', r') = save_user_to_db db r user in save_users users db' r'

  abbrev pub keys_of : Table ℕ RecordUser → List ℕ
  keys_of [] = []
  keys_of ((user, u) ∷ m) = user ∷ keys_of m

  unfoldable pub auto_save_all : State → Record → State × Record
  unfolding save_users
  auto_save_all db r = save_users (keys_of r.user_manager) db r

-- The cached user that onSaveUser leaves: a new one, which RecordUser::init marks as unchanged, or the old
-- one with the new data, which is marked as changed.
abbrev pub saved_user : Option RecordUser → UserBaseWire → RecordUser
saved_user none base = record { base = base; dirty = false }
saved_user (some u) base = record { base = base; dirty = true }

unfoldable pub cache_user : Record → ℕ → UserBaseWire → Record
unfolding apply_user_base_wire
cache_user r user wire = record r {
  user_manager =
      insert user (saved_user (find user r.user_manager) (apply_user_base_wire wire))
        r.user_manager;
}

-- onSaveUser: whether REC_SAVE_USER_RSP is sent. A short request names the user alone.
unfoldable pub on_save_user : Record → ℕ → ℕ → Option UserBaseWire → Record × Bool
unfolding cache_user
on_save_user r conn user wire =
    let r1 : Record = elim wire [ none ↦ r | some w ↦ cache_user r user w ] in
    if leb max_save_queue_depth (length r1.save_queue)
    then (r1, false)
    else (record r1 { save_queue = r1.save_queue ++ user_item user conn ∷ [] }, true)

-- A number of little-endian bytes.
abbrev pub little : List ℕ → ℕ
little [] = 0
little (b ∷ bytes) = b + 256 * little bytes

-- parseRow from the start of a body: the user of a row that has come whole. Its header has 32 bytes.
unfoldable pub row_user : List ℕ → Option ℕ
row_user bytes =
    let need =
      little (take 4 (drop 8 bytes))
      + little (take 4 (drop 12 bytes))
      + little (take 4 (drop 28 bytes)) in
    if ltb (length bytes) 32
    then none
    else if ltb (length bytes) (32 + need)
    then none
    else some (little (take 8 bytes))

-- onRelationSaveReq: the code and the user of the answer.
unfoldable pub on_relation_save_req : Record → List ℕ → Record × (ℤ × ℕ)
unfolding row_user
on_relation_save_req r bytes = elim (row_user bytes) [
  | none ↦ (r, (negsuc 0, 0))
  | some user ↦
      if leb max_save_queue_depth (length r.save_queue)
      then (r, (negsuc 0, user))
      else (record r { save_queue = r.save_queue ++ relation_item bytes ∷ [] }, (pos 0, user))
]
