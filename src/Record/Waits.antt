-- ===== src/Record/Waits.antt =====
-- What the turns of RecordServer/RecordServer.cpp leave of a request to load that stands last in its
-- queue.
use rpg_server.Base.{
  ℕ, ◌≤◌, ◌≡◌, refl, sym, ap, ◌∙◌, inl, inr, Bool, true, false, Option, none, some, List, [], ◌∷◌,
  ◌++◌, arith, ◌==◌, Bool-cases, Option-cases, nat_eq, contains, set_erase, contains-set_erase,
  length, find, insert, find-insert,
}
use mathlib.Core.List.{append_assoc}
use rpg_server.Super.Messages.{LoadUserBody}
use rpg_server.Record.Users.{
  Database, RecordUser, LoadQueueItem, Record, is_cached, load_user_from_db, drain_load_queue,
}
use rpg_server.Record.Loads.{times}
use rpg_server.Record.Drained.{drain_one, drain_times}

-- A user is not in the cache, and is among those who are in the queue.
abbrev pub Waits : ℕ → Record → Type 0
Waits user r = (is_cached r user ≡ false) × (contains user r.pending_load_users ≡ true)

abbrev is_some : Option RecordUser → Bool
is_some o = elim o [ none ↦ false | some u ↦ true ]

module _ (d : Database) (user : ℕ) where
  -- The row of another user.
  row-Waits :
      (db : d.State) (other : ℕ) (r : Record)
      → other == user ≡ false
      → Waits user r
      → Waits user (load_user_from_db d db r other)
  unfolding load_user_from_db
  row-Waits db other r differs w = elim (Option-cases (d.select db other)) [
    | inl e ↦ rw e w
    | inr (base, e) ↦
        let loaded : RecordUser = record { base = base; dirty = false } in
        let same : find user (insert other loaded r.user_manager) ≡ find user r.user_manager =
          find-insert other user loaded r.user_manager ∙ rw differs refl in
        rw e (ap (λ (o : Option RecordUser). is_some o) same ∙ w.0, w.1)
  ]

  drain-Waits :
      (db : d.State) (r : Record) (item : LoadQueueItem) (items : List LoadQueueItem)
      → r.load_queue ≡ item ∷ items
      → item.user_id == user ≡ false
      → Waits user r
      → Waits user (drain_load_queue d db r).0
  unfolding drain_load_queue
  drain-Waits db r item items e differs w =
      let r1 = record r {
        load_queue = items;
        pending_load_users = set_erase item.user_id r.pending_load_users;
      } in
      let kept : Waits user r1 =
        (w.0, contains-set_erase item.user_id user r.pending_load_users ∙ rw (differs, w.1) refl) in
      elim (Bool-cases (is_cached r1 item.user_id)) [
        | inl here ↦ rw (e, drain_load_queue) (rw here kept)
        | inr absent ↦
            rw (e, drain_load_queue) (rw absent (row-Waits db item.user_id r1 differs kept))
      ]

  -- Turns that come to an end before the request does.
  pub drain_times-Waits :
      (dbs : List d.State) (r : Record) (before : List LoadQueueItem) (item : LoadQueueItem)
      → r.load_queue ≡ before ++ item ∷ []
      → times user before ≡ 0
      → length dbs ≤ length before
      → Waits user r
      → Waits user (drain_times d dbs r).0
  drain_times-Waits [] r before item e none_before turns w = w
  drain_times-Waits (db ∷ dbs) r [] item e none_before turns w = ground (arith, turns)
  drain_times-Waits (db ∷ dbs) r (x ∷ before) item e none_before turns w =
      let other : x.user_id == user ≡ false = ground (arith, none_before) in
      drain_times-Waits dbs (drain_load_queue d db r).0 before item
        (drain_one d db r x (before ++ item ∷ []) e).0 (omega (arith, none_before))
        (omega (arith, turns)) (drain-Waits db r x (before ++ item ∷ []) e other w)

pub drain_times-append :
    (d : Database) (xs ys : List d.State) (r : Record)
    → (drain_times d (xs ++ ys) r).1
      ≡ (drain_times d xs r).1 ++ (drain_times d ys (drain_times d xs r).0).1
drain_times-append d [] ys r = refl
drain_times-append d (db ∷ xs) ys r =
    let (r', out) = drain_load_queue d db r in
    ap (λ (rest : List LoadUserBody). out ++ rest) (drain_times-append d xs ys r')
    ∙ sym (append_assoc out (drain_times d xs r').1 (drain_times d ys (drain_times d xs r').0).1)
