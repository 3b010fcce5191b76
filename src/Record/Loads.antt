-- ===== src/Record/Loads.antt =====
-- The queue of loads of RecordServer/RecordServer.cpp: its bounds, and that it answers every request in it.
use rpg_server.Base.{
  ℕ, ◌+◌, ◌≤◌, ◌≡◌, refl, inl, inr, Option, none, some, List, [], ◌∷◌, ◌++◌, arith, leb, ◌==◌,
  ==_iff, Bool-cases, Option-cases, nat_eq, contains, set_erase, contains-set_insert,
  contains-set_erase, length, length-append, List-cases, find,
}
use rpg_server.Super.State.{UserBaseWire}
use rpg_server.Record.Users.{
  Database, LoadQueueItem, SaveQueueItem, user_item, relation_item, Record, is_cached, on_load_user,
  load_row, load_user_from_db, drain_load_queue, save_user_to_db, drain_save_queue, save_users,
  keys_of, auto_save_all, cache_user, on_save_user, on_relation_save_req, row_user,
  max_load_queue_depth, max_save_queue_depth,
}
use rpg_server.Outbox.Owed.{one_if}

-- How often a user stands in the queue.
abbrev pub times : ℕ → List LoadQueueItem → ℕ
times u [] = 0
times u (item ∷ items) = one_if (item.user_id == u) + times u items

pub record IsQueued (r : Record) : Type 0 where
  pub once : (u : ℕ) → times u r.load_queue ≡ one_if (contains u r.pending_load_users)
  pub loads_bounded : length r.load_queue ≤ max_load_queue_depth
  pub saves_bounded : length r.save_queue ≤ max_save_queue_depth

times-append :
    (u : ℕ) (xs : List LoadQueueItem) (item : LoadQueueItem)
    → times u (xs ++ item ∷ []) ≡ times u xs + one_if (item.user_id == u)
times-append u [] item = omega arith
times-append u (x ∷ xs) item = omega (arith, times-append u xs item)

-- Only the queues and the set of users in them matter.
same-IsQueued :
    (r r' : Record)
    → r'.load_queue ≡ r.load_queue
    → r'.pending_load_users ≡ r.pending_load_users
    → r'.save_queue ≡ r.save_queue
    → IsQueued r
    → IsQueued r'
same-IsQueued r r' e1 e2 e3 w = record {
  once = λ u. rw (e1, e2) (w.once u);
  loads_bounded = rw e1 w.loads_bounded;
  saves_bounded = rw e3 w.saves_bounded;
}

load-IsQueued : (r : Record) (user seq : ℕ) → IsQueued r → IsQueued (on_load_user r user seq).0
unfolding on_load_user
load-IsQueued r user seq w = elim (Bool-cases (is_cached r user)) [
  | inl here ↦ rw here w
  | inr absent ↦ elim (Bool-cases (contains user r.pending_load_users)) [
    | inl queued ↦ rw absent (rw queued w)
    | inr new ↦ elim (Bool-cases (leb max_load_queue_depth (length r.load_queue))) [
      | inl full ↦ rw absent (rw (new, full) w)
      | inr room ↦
          let item : LoadQueueItem = record { user_id = user; request_seq = seq } in
          rw absent (
            rw (new, room)
              (record {
                once = λ u. ground (
                  arith,
                  times-append u r.load_queue item,
                  w.once u,
                  contains-set_insert user u r.pending_load_users,
                  ==_iff user u,
                  new,
                );
                loads_bounded = ground (arith, room, length-append r.load_queue (item ∷ []));
                saves_bounded = w.saves_bounded;
              }))
    ]
  ]
]

module _ (d : Database) where
  row_queues :
      (row : Option UserBaseWire) (user : ℕ) (r : Record)
      → IsQueued r
      → IsQueued (load_row d row user r)
  row_queues none user r w = w
  row_queues (some base) user r w = same-IsQueued r _ refl refl refl w

  drain-IsQueued : (db : d.State) (r : Record) → IsQueued r → IsQueued (drain_load_queue d db r).0
  unfolding drain_load_queue load_user_from_db
  drain-IsQueued db r w = elim (List-cases r.load_queue) [
    | inl e ↦ rw (e, drain_load_queue) w
    | inr (item, items, e) ↦
        let r1 = record r {
          load_queue = items;
          pending_load_users = set_erase item.user_id r.pending_load_users;
        } in
        let w1 : IsQueued r1 = record {
          once = λ u.
              ground
                (arith, rw e at (w.once u), contains-set_erase item.user_id u r.pending_load_users);
          loads_bounded = ground (arith, rw e at w.loads_bounded);
          saves_bounded = w.saves_bounded;
        } in
        elim (Bool-cases (is_cached r1 item.user_id)) [
          | inl here ↦ rw (e, drain_load_queue) (rw here w1)
          | inr absent ↦ rw (e, drain_load_queue) (rw absent (row_queues _ item.user_id r1 w1))
        ]
  ]

  save_user_queues :
      (db : d.State) (r : Record) (user : ℕ) → IsQueued r → IsQueued (save_user_to_db d db r user).1
  unfolding save_user_to_db
  save_user_queues db r user w = elim (Option-cases (find user r.user_manager)) [
    | inl e ↦ rw (e, save_user_to_db) w
    | inr (u, e) ↦ elim (Bool-cases u.dirty) [
      | inl changed ↦ rw (e, save_user_to_db) (rw changed (same-IsQueued r _ refl refl refl w))
      | inr clean ↦ rw (e, save_user_to_db) (rw clean w)
    ]
  ]

  drain_save-IsQueued :
      (db : d.State) (r : Record) → IsQueued r → IsQueued (drain_save_queue d db r).1
  unfolding drain_save_queue
  drain_save-IsQueued db r w = elim (List-cases r.save_queue) [
    | inl e ↦ rw (e, drain_save_queue) w
    | inr (item, items, e) ↦
        let r1 = record r { save_queue = items } in
        let w1 : IsQueued r1 = record {
          once = w.once;
          loads_bounded = w.loads_bounded;
          saves_bounded = ground (arith, rw e at w.saves_bounded);
        } in
        rw (e, drain_save_queue) (item_queues db r1 item w1)
  ]
    where
      item_queues :
          (db : d.State) (r1 : Record) (item : SaveQueueItem)
          → IsQueued r1
          → IsQueued
              (elim item as (λ x. d.State × Record) [
                | user_item user conn ↦ save_user_to_db d db r1 user
                | relation_item payload ↦ (db, r1)
              ]).1
      item_queues db r1 (user_item user conn) w1 = save_user_queues db r1 user w1
      item_queues db r1 (relation_item payload) w1 = w1

  save_users-IsQueued :
      (users : List ℕ) (db : d.State) (r : Record)
      → IsQueued r
      → IsQueued (save_users d users db r).1
  unfolding save_users
  save_users-IsQueued [] db r w = w
  save_users-IsQueued (user ∷ users) db r w =
      let step = save_user_to_db d db r user in
      save_users-IsQueued users step.0 step.1 (save_user_queues db r user w)

queue_item : (r : Record) (conn user : ℕ) → IsQueued r → IsQueued (on_save_user r conn user none).0
unfolding on_save_user
queue_item r conn user w = elim (Bool-cases (leb max_save_queue_depth (length r.save_queue))) [
  | inl full ↦ rw full w
  | inr room ↦ rw room (record {
    once = w.once;
    loads_bounded = w.loads_bounded;
    saves_bounded = ground (arith, room, length-append r.save_queue (user_item user conn ∷ []));
  })
]

save-IsQueued :
    (r : Record) (conn user : ℕ) (wire : Option UserBaseWire)
    → IsQueued r
    → IsQueued (on_save_user r conn user wire).0
unfolding on_save_user cache_user
save-IsQueued r conn user none w = queue_item r conn user w
save-IsQueued r conn user (some data_of) w =
    queue_item (cache_user r user data_of) conn user (same-IsQueued r _ refl refl refl w)

relation-IsQueued :
    (r : Record) (bytes : List ℕ) → IsQueued r → IsQueued (on_relation_save_req r bytes).0
unfolding on_relation_save_req
relation-IsQueued r bytes w = elim (Option-cases (row_user bytes)) [
  | inl bad ↦ rw (bad, on_relation_save_req) w
  | inr (user, good) ↦ elim (Bool-cases (leb max_save_queue_depth (length r.save_queue))) [
    | inl full ↦ rw (good, on_relation_save_req) (rw full w)
    | inr room ↦
        rw (good, on_relation_save_req)
          (rw room (record {
            once = w.once;
            loads_bounded = w.loads_bounded;
            saves_bounded =
                ground (arith, room, length-append r.save_queue (relation_item bytes ∷ []));
          }))
  ]
]

-- The messages and the parts of a main loop that change the cached users or the two queues, with the
-- database as it is when they run.
pub data Call (d : Database) : Type 0 where
  asks : ℕ → ℕ → Call d
  saves : ℕ → ℕ → Option UserBaseWire → Call d
  saves_relation : List ℕ → Call d
  drains_loads : d.State → Call d
  drains_saves : d.State → Call d
  auto_saves : d.State → Call d

abbrev pub serve : (d : Database) → Record → Call d → Record
serve d r (asks user seq) = (on_load_user r user seq).0
serve d r (saves conn user wire) = (on_save_user r conn user wire).0
serve d r (saves_relation bytes) = (on_relation_save_req r bytes).0
serve d r (drains_loads db) = (drain_load_queue d db r).0
serve d r (drains_saves db) = (drain_save_queue d db r).1
serve d r (auto_saves db) = (auto_save_all d db r).1

-- A request to load or to save a user, a request to save a relation, a turn that drains a queue and an
-- automatic save keep a Record server's queues in order, whatever the database holds: the users marked as being loaded are exactly those in the queue of loads, each there once, and
-- the queues of loads and of saves are no longer than 4096 and 8192.
pub serve-IsQueued : (d : Database) (r : Record) (c : Call d) → IsQueued r → IsQueued (serve d r c)
unfolding auto_save_all
serve-IsQueued d r (asks user seq) w = load-IsQueued r user seq w
serve-IsQueued d r (saves conn user wire) w = save-IsQueued r conn user wire w
serve-IsQueued d r (saves_relation bytes) w = relation-IsQueued r bytes w
serve-IsQueued d r (drains_loads db) w = drain-IsQueued d db r w
serve-IsQueued d r (drains_saves db) w = drain_save-IsQueued d db r w
serve-IsQueued d r (auto_saves db) w = save_users-IsQueued d (keys_of d r.user_manager) db r w
