-- ===== src/Record/Drained.antt =====
-- What the queue of loads of RecordServer/RecordServer.cpp comes to when it is drained.
use mathlib.Core.List.{map-append}
use rpg_server.Base.{
  ℕ, ◌≡◌, refl, sym, ap, ap₂, ◌∙◌, inl, inr, Option, none, some, List, [], ◌∷◌, ◌++◌, map, arith,
  Bool-cases, Option-cases, nat_eq, set_erase, length, List-cases, find,
}
use rpg_server.Super.Messages.{LoadUserBody, short, header, whole}
use rpg_server.Record.Users.{
  Database, RecordUser, LoadQueueItem, Record, is_cached, load_rsp_of, send_load_user_rsp,
  load_user_from_db, drain_load_queue,
}

-- Whom an answer is about, and the number that it returns.
abbrev pub answer_id : LoadUserBody → ℕ × ℕ
answer_id short = (0, 0)
answer_id (header rsp) = (rsp.user_id, rsp.request_seq)
answer_id (whole rsp wire) = (rsp.user_id, rsp.request_seq)

abbrev pub item_id : LoadQueueItem → ℕ × ℕ
item_id item = (item.user_id, item.request_seq)

load_rsp_id :
    (user seq : ℕ) (o : Option RecordUser) → answer_id (load_rsp_of user seq o) ≡ (user, seq)
load_rsp_id user seq none = refl
load_rsp_id user seq (some u) = refl

module _ (d : Database) where
  -- Turns of the main loop, with the database as it is at each.
  abbrev pub drain_times : List d.State → Record → Record × List LoadUserBody
  drain_times [] r = (r, [])
  drain_times (db ∷ dbs) r =
      let (r', out) = drain_load_queue d db r in
      let rest = drain_times dbs r' in (rest.0, out ++ rest.1)

  row_queue :
      (db : d.State) (user : ℕ) (r : Record)
      → (load_user_from_db d db r user).load_queue ≡ r.load_queue
  unfolding load_user_from_db
  row_queue db user r = elim (Option-cases (d.select db user)) [
    | inl e ↦ rw e refl
    | inr (base, e) ↦ rw e refl
  ]

  pub drain_one :
      (db : d.State) (r : Record) (item : LoadQueueItem) (items : List LoadQueueItem)
      → r.load_queue ≡ item ∷ items
      → ((drain_load_queue d db r).0.load_queue ≡ items)
        × (map answer_id (drain_load_queue d db r).1 ≡ item_id item ∷ [])
  unfolding drain_load_queue send_load_user_rsp
  drain_one db r item items e =
      let r1 = record r {
        load_queue = items;
        pending_load_users = set_erase item.user_id r.pending_load_users;
      } in
      let answered = λ (r2 : Record).
        ap (λ (x : ℕ × ℕ). x ∷ [])
          (load_rsp_id item.user_id item.request_seq (find item.user_id r2.user_manager)) in
      elim (Bool-cases (is_cached r1 item.user_id)) [
        | inl here ↦ rw (e, drain_load_queue) (rw here (refl, answered r1))
        | inr absent ↦
            rw (e, drain_load_queue)
              (rw absent
                (row_queue db item.user_id r1, answered (load_user_from_db d db r1 item.user_id)))
      ]

  -- As many turns of the main loop as there are requests in the queue of loads, whatever the database
  -- holds at each, answer every request in order, with its user and its number, and nothing else, and
  -- leave the queue empty.
  pub drain_times_answers :
      (dbs : List d.State) (r : Record)
      → length dbs ≡ length r.load_queue
      → ((drain_times dbs r).0.load_queue ≡ [])
        × (map answer_id (drain_times dbs r).1 ≡ map item_id r.load_queue)
  drain_times_answers [] r same = elim (List-cases r.load_queue) [
    | inl e ↦ rw e (refl, refl)
    | inr (item, items, e) ↦ ground (arith, rw e at same)
  ]
  drain_times_answers (db ∷ dbs) r same = elim (List-cases r.load_queue) [
    | inl e ↦ ground (arith, rw e at same)
    | inr (item, items, e) ↦
        let (left, out) = drain_one db r item items e in
        let step = drain_load_queue d db r in
        let rest = drain_times_answers dbs step.0 (rw left (ground (arith, rw e at same))) in
        (
          rest.0,
          map-append answer_id step.1 (drain_times dbs step.0).1
              ∙ ap₂ (λ (x y : List (ℕ × ℕ)). x ++ y) out (rest.1 ∙ ap (map item_id) left)
              ∙ sym (ap (map item_id) e),
        )
  ]
