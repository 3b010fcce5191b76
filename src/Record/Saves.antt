-- ===== src/Record/Saves.antt =====
-- What a save of RecordServer/RecordServer.cpp does to the cache and to the database.
use rpg_server.Base.{
  pos, ℕ, zero, suc, ◌≤◌, ◌≡◌, refl, ap, ◌∙◌, ◌⊎◌, inl, inr, true, false, Option, none, some, List,
  [], ◌∷◌, arith, leb, ◌==◌, Bool-cases, Option-cases, nat_eq, length, List-cases, find,
  find-insert, beq_refl, Every, insert-Every, find-Every,
}
use rpg_server.Super.State.{UserBaseWire}
use rpg_server.Super.Messages.{whole}
use rpg_server.Super.Logins.{copy_to_wire}
use rpg_server.Record.Users.{
  Database, RecordUser, user_item, relation_item, SaveQueueItem, Record, c_string,
  apply_user_base_wire, wire_of, is_cached, send_load_user_rsp, on_load_user, save_user_to_db,
  drain_save_queue, save_users, keys_of, auto_save_all, saved_user, cache_user, on_save_user,
  max_save_queue_depth,
}

abbrev pub HasNoZero : List ℕ → Type 0
HasNoZero [] = Unit {0}
HasNoZero (c ∷ s) = (c == 0 ≡ false) × HasNoZero s

-- Data that a Scene server sends of a user who stands on a map: the name's bytes fit into the field.
pub record IsWire (w : UserBaseWire) : Type 0 where
  pub named : HasNoZero w.name
  pub fits : length w.name ≤ 31
  pub on_map : w.map_id == 0 ≡ false

c_string_id : (s : List ℕ) → HasNoZero s → c_string s ≡ s
unfolding c_string
c_string_id [] h = refl
c_string_id (c ∷ s) h = rw h.0 (ap (λ t. c ∷ t) (c_string_id s h.1))

copy_id : (n : ℕ) (s : List ℕ) → HasNoZero s → length s ≤ n → copy_to_wire n s ≡ s
unfolding copy_to_wire
copy_id zero [] h k = refl
copy_id zero (c ∷ s) h k = ground (arith, k)
copy_id (suc n) [] h k = refl
copy_id (suc n) (c ∷ s) h k = rw h.0 (ap (λ t. c ∷ t) (copy_id n s h.1 (omega (arith, k))))

wire-apply : (w : UserBaseWire) → IsWire w → wire_of (apply_user_base_wire w) ≡ w
unfolding wire_of apply_user_base_wire
wire-apply w h =
    rw (c_string_id w.name h.named, copy_id 31 w.name h.named h.fits) (rw h.on_map refl)

saved_base : (o : Option RecordUser) (base : UserBaseWire) → (saved_user o base).base ≡ base
saved_base none base = refl
saved_base (some u) base = refl

save_keeps :
    (r : Record) (conn user : ℕ) (w : UserBaseWire)
    → (on_save_user r conn user (some w)).0.user_manager ≡ (cache_user r user w).user_manager
unfolding on_save_user
save_keeps r conn user w =
    elim (Bool-cases (leb max_save_queue_depth (length (cache_user r user w).save_queue))) [
      | inl full ↦ rw full refl
      | inr room ↦ rw room refl
    ]

cached :
    (r : Record) (user : ℕ) (w : UserBaseWire)
    → find user (cache_user r user w).user_manager
      ≡ some (saved_user (find user r.user_manager) (apply_user_base_wire w))
unfolding cache_user
cached r user w =
    find-insert user user (saved_user (find user r.user_manager) (apply_user_base_wire w))
      r.user_manager
    ∙ rw (beq_refl user) refl

-- A user whom a Scene server has saved is loaded with the data that were saved, whether or not there was
-- room in the queue of saves, where the name has at most 31 bytes, none of them zero, and the map is not
-- 0: the answer to the next load is immediate and returns the same data, with the number of the request.
pub save-load :
    (r : Record) (conn user seq : ℕ) (w : UserBaseWire)
    → IsWire w
    → (on_load_user (on_save_user r conn user (some w)).0 user seq).1
      ≡ whole (record { code = pos 0; user_id = user; request_seq = seq }) w ∷ []
unfolding on_load_user send_load_user_rsp
save-load r conn user seq w h =
    let u = saved_user (find user r.user_manager) (apply_user_base_wire w) in
    let found : find user (on_save_user r conn user (some w)).0.user_manager ≡ some u =
      ap (find user) (save_keeps r conn user w) ∙ cached r user w in
    let back : wire_of u.base ≡ w =
      ap wire_of (saved_base (find user r.user_manager) (apply_user_base_wire w))
      ∙ wire-apply w h in
    rw (found, is_cached) (rw back refl)

-- No cached user has unsaved changes.
abbrev pub AllClean : Record → Type 0
AllClean r = Every (λ user u. u.dirty ≡ false) r.user_manager

module _ (d : Database) where
  -- What the main loop and the timer do for the database, in any order.
  pub data Writing : Type 0 where
    drains saves_all : Writing

  abbrev pub write : d.State → Record → Writing → d.State × Record
  write db r drains = drain_save_queue d db r
  write db r saves_all = auto_save_all d db r

  abbrev pub writes : d.State → Record → List Writing → d.State × Record
  writes db r [] = (db, r)
  writes db r (x ∷ xs) = let (db', r') = write db r x in writes db' r' xs

  clean_user :
      (db : d.State) (r : Record) (user : ℕ) → AllClean r → save_user_to_db d db r user ≡ (db, r)
  unfolding save_user_to_db
  clean_user db r user w = elim (Option-cases (find user r.user_manager)) [
    | inl e ↦ rw (e, save_user_to_db) refl
    | inr (u, e) ↦
        let clean = find-Every (λ user u. u.dirty ≡ false) user r.user_manager w e in
        rw (e, save_user_to_db) (rw clean refl)
  ]

  clean_users :
      (users : List ℕ) (db : d.State) (r : Record) → AllClean r → save_users d users db r ≡ (db, r)
  unfolding save_users
  clean_users [] db r w = refl
  clean_users (user ∷ users) db r w = rw (clean_user db r user w) (clean_users users db r w)

  clean_drain :
      (db : d.State) (r : Record)
      → AllClean r
      → ((drain_save_queue d db r).0 ≡ db)
        × ((drain_save_queue d db r).1.user_manager ≡ r.user_manager)
  unfolding drain_save_queue
  clean_drain db r w = elim (List-cases r.save_queue) [
    | inl e ↦ rw (e, drain_save_queue) (refl, refl)
    | inr (item, items, e) ↦ elim (item_cases item) [
      | inl (user, conn, q) ↦
          let same = clean_user db (record r { save_queue = items }) user w in
          rw (e, q, drain_save_queue) (rw same (refl, refl))
      | inr (payload, q) ↦ rw (e, q, drain_save_queue) (refl, refl)
    ]
  ]
    where
      item_cases :
          (item : SaveQueueItem)
          → ((user : ℕ) × (conn : ℕ) × (item ≡ user_item user conn))
            ⊎ ((payload : List ℕ) × (item ≡ relation_item payload))
      item_cases (user_item user conn) = inl (user, conn, refl)
      item_cases (relation_item payload) = inr (payload, refl)

  clean_writes :
      (xs : List Writing) (db : d.State) (r : Record) → AllClean r → (writes db r xs).0 ≡ db
  unfolding auto_save_all
  clean_writes [] db r w = refl
  clean_writes (drains ∷ xs) db r w =
      let (same, kept) = clean_drain db r w in clean_writes xs _ _ (rw kept w) ∙ same
  clean_writes (saves_all ∷ xs) db r w =
      ap (λ (p : d.State × Record). (writes p.0 p.1 xs).0)
        (clean_users (keys_of d r.user_manager) db r w)
      ∙ clean_writes xs db r w

  -- Where no cached user has unsaved changes, a save of a user who is not cached never reaches the
  -- database: whatever turns of the main loop and of the timer follow, the database is as it was.
  pub save_uncached_lost :
      (db : d.State) (r : Record) (conn user : ℕ) (w : UserBaseWire) (xs : List Writing)
      → AllClean r
      → find user r.user_manager ≡ none
      → (writes db (on_save_user r conn user (some w)).0 xs).0 ≡ db
  unfolding cache_user
  save_uncached_lost db r conn user w xs clean e =
      clean_writes xs db (on_save_user r conn user (some w)).0 (
        rw (save_keeps r conn user w)
          (rw e (insert-Every (λ user u. u.dirty ≡ false) user _ r.user_manager refl clean)))

  -- A save of a user who is cached, in an empty queue, reaches the database in the next turn of the main
  -- loop, with the data that the Scene server sent.
  save_cached_written :
      (db : d.State) (r : Record) (conn user : ℕ) (w : UserBaseWire) (u : RecordUser)
      → find user r.user_manager ≡ some u
      → r.save_queue ≡ []
      → (drain_save_queue d db (on_save_user r conn user (some w)).0).0
        ≡ d.upsert db user (apply_user_base_wire w)
  unfolding on_save_user drain_save_queue save_user_to_db
  save_cached_written db r conn user w u e empty =
      let base = apply_user_base_wire w in
      let r1 = cache_user r user w in
      let queued : (on_save_user r conn user (some w)).0
          ≡ record r1 { save_queue = user_item user conn ∷ [] } =
        rw (empty, on_save_user) refl in
      let found : find user r1.user_manager ≡ some (record { base = base; dirty = true }) =
        cached r user w ∙ ap (λ (o : Option RecordUser). some (saved_user o base)) e in
      ap (λ (x : Record). (drain_save_queue d db x).0) queued ∙ rw (found, save_user_to_db) refl
