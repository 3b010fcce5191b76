-- ===== src/Chain.antt =====
-- SuperServer/SuperServer.cpp and RecordServer/RecordServer.cpp together: a login that is asked for again
-- while the Record server still has the user in its queue.
mod Tests
use rpg_server.Base.{
  ℕ, suc, ◌+◌, ◌≤◌, ◌≡◌, refl, sym, ap, subst, ◌∙◌, true, false, Option, some, none, List, [], ◌∷◌,
  ◌++◌, map, arith, leb, ◌==◌, ==_iff, nat_eq, contains, set_insert, contains-set_insert, length,
  length-append, find, u32,
}
use rpg_server.Super.State.{PendingLogin, Super, UserBaseWire}
use rpg_server.Super.Messages.{UserEnterReq, LoadUserBody, LoadUserRsp, short, header, whole}
use rpg_server.Super.Logins.{Result, end_login, is_late, is_retry, on_load_user_rsp}
use rpg_server.Super.Entry.{login_rsp}
use rpg_server.Super.Cases.{opened}
use rpg_server.Super.Serve.{logs_in, loaded, serve, run}
use rpg_server.Super.Steps.{begun, ask_load, MayBegin, find_inserted, login_new, login_again}
use rpg_server.Super.Path.{run-cons}
use rpg_server.Record.Users.{
  Database, LoadQueueItem, Record, is_cached, on_load_user, max_load_queue_depth,
}
use rpg_server.Record.Loads.{IsQueued}
use rpg_server.Record.Waits.{Waits, drain_times-Waits, drain_times-append}
use rpg_server.Record.Drained.{answer_id, item_id, drain_times, drain_times_answers}
use mathlib.Core.List.{map-append}

next_differs : (n : ℕ) → u32 n == u32 (u32 n + 1) ≡ false
next_differs n = ground arith

stale_load :
    (s : Super) (user : ℕ) (p : PendingLogin) (rsp : LoadUserRsp) (wire : Option UserBaseWire)
    (seq : ℕ)
    → find user s.pending_logins ≡ some p
    → seq == 0 ≡ false
    → seq == p.load_request_seq ≡ false
    → ◌≡◌ {A = ℕ × ℕ} (rsp.user_id, rsp.request_seq) (user, seq)
    → rpg_server.Super.Logins.on_load_user s rsp wire ≡ (s, [])
unfolding rpg_server.Super.Logins.on_load_user
stale_load s user p rsp wire seq e named differs id =
    let u : rsp.user_id ≡ user = ap (λ (x : ℕ × ℕ). x.0) id in
    let q : rsp.request_seq ≡ seq = ap (λ (x : ℕ × ℕ). x.1) id in
    rw (u, e, rpg_server.Super.Logins.on_load_user) (rw (q, named, differs) refl)

-- An answer under another number than that of the transaction changes nothing.
stale_answer :
    (s : Super) (user : ℕ) (p : PendingLogin) (body : LoadUserBody) (seq : ℕ)
    → find user s.pending_logins ≡ some p
    → seq == 0 ≡ false
    → seq == p.load_request_seq ≡ false
    → answer_id body ≡ (user, seq)
    → on_load_user_rsp s body ≡ (s, [])
stale_answer s user p short seq e named differs id = refl
stale_answer s user p (header rsp) seq e named differs id =
    stale_load s user p rsp none seq e named differs id
stale_answer s user p (whole rsp wire) seq e named differs id =
    stale_load s user p rsp (some wire) seq e named differs id

retry_same :
    (now : ℕ) (s : Super) (conn : ℕ) (req : UserEnterReq)
    → is_retry req (opened now s conn req) ≡ true
unfolding is_retry
retry_same now s conn req = ground arith

-- The queue of the Record server after the two requests.
abbrev queued_once : Record → ℕ → ℕ → Record
queued_once r user seq = record r {
  pending_load_users = set_insert user r.pending_load_users;
  load_queue = r.load_queue ++ record { user_id = user; request_seq = seq } ∷ [];
}

queue_first :
    (r : Record) (user seq : ℕ)
    → is_cached r user ≡ false
    → contains user r.pending_load_users ≡ false
    → leb max_load_queue_depth (length r.load_queue) ≡ false
    → on_load_user r user seq ≡ (queued_once r user seq, [])
unfolding on_load_user
queue_first r user seq absent new room = rw absent (rw (new, room) refl)

queue_again : (r : Record) (user seq : ℕ) → Waits user r → on_load_user r user seq ≡ (r, [])
unfolding on_load_user
queue_again r user seq w = rw (w.0) (rw (w.1) refl)

-- The Record server's part: it has come to some requests of its queue, but not to this user's, before the
-- second request.
answered_once :
    (d : Database) (dbs dbs' : List d.State) (r : Record) (user seq seq' : ℕ)
    → IsQueued r
    → is_cached r user ≡ false
    → contains user r.pending_load_users ≡ false
    → leb max_load_queue_depth (length r.load_queue) ≡ false
    → length dbs ≤ length r.load_queue
    → length dbs + length dbs' ≡ suc (length r.load_queue)
    → let first = on_load_user r user seq in
      let between = drain_times d dbs first.0 in
      let second = on_load_user between.0 user seq' in
      (first.1 ++ second.1 ≡ [])
      × (map answer_id (between.1 ++ (drain_times d dbs' second.0).1)
          ≡ map item_id r.load_queue ++ (user, seq) ∷ [])
answered_once d dbs dbs' r user seq seq' w absent fresh room early turns =
    let item : LoadQueueItem = record { user_id = user; request_seq = seq } in
    let r1 = queued_once r user seq in
    let here : contains user r1.pending_load_users ≡ true =
      contains-set_insert user user r.pending_load_users ∙ ground (arith, ==_iff user user) in
    let waits =
      drain_times-Waits d user dbs r1 r.load_queue item refl (rw fresh at (w.once user)) early
        (absent, here) in
    let all_turns : length (dbs ++ dbs') ≡ length (r.load_queue ++ item ∷ []) =
      omega (arith, turns, length-append dbs dbs', length-append r.load_queue (item ∷ [])) in
    rw (queue_first r user seq absent fresh room) (
      rw (queue_again (drain_times d dbs r1).0 user seq' waits) (
        refl,
        ap (map answer_id) (sym (drain_times-append d dbs dbs' r1))
            ∙ (drain_times_answers d (dbs ++ dbs') r1 all_turns).1
            ∙ map-append item_id r.load_queue (item ∷ []),
      ))

-- A user, not 0, who is neither online nor logging in, not cached by the Record server, whose queues are
-- sound, and not in its queue of loads, which has room, asks to log in at a SuperServer that has a Record
-- server and whose next number of a request is not 0. The same request comes again, under the same number
-- of a transaction or from the same client, within 60 seconds, when the Record server may have come to
-- requests of its queue, but not yet to this one. Then SuperServer asks twice for the user, each time
-- under a new number; the Record server answers neither request at once, and by the time its queue is
-- through it has answered what was in it and then the user once, under the first number; and this answer,
-- whatever it holds, changes nothing at SuperServer and sends nothing.
pub retry_stalls :
    (d : Database) (dbs dbs' : List d.State) (r : Record) (now now' : ℕ) (s : Super)
    (conn conn' : ℕ) (req : UserEnterReq) (body : LoadUserBody)
    → MayBegin s req
    → find req.user_id s.users ≡ none
    → find req.user_id s.pending_logins ≡ none
    → is_late now' (opened now s conn req) ≡ false
    → u32 (s.load_user_seq + 1) == 0 ≡ false
    → IsQueued r
    → is_cached r req.user_id ≡ false
    → contains req.user_id r.pending_load_users ≡ false
    → leb max_load_queue_depth (length r.load_queue) ≡ false
    → length dbs ≤ length r.load_queue
    → length dbs + length dbs' ≡ suc (length r.load_queue)
    → ◌≡◌ {A = ℕ × ℕ} (answer_id body) (req.user_id, u32 (s.load_user_seq + 1))
    → let a = u32 (s.load_user_seq + 1) in
      let s1 = begun now s conn req in
      let asked = run s (logs_in now conn req ∷ logs_in now' conn' req ∷ []) in
      let first = on_load_user r req.user_id a in
      let between = drain_times d dbs first.0 in
      let second = on_load_user between.0 req.user_id (u32 (a + 1)) in
      (asked.1 ≡ ask_load s req ∷ ask_load s1 req ∷ [])
      × (first.1 ++ second.1 ≡ [])
      × (map answer_id (between.1 ++ (drain_times d dbs' second.0).1)
          ≡ map item_id r.load_queue ++ (req.user_id, a) ∷ [])
      × (serve asked.0 (loaded body) ≡ (asked.0, []))
retry_stalls d dbs dbs' r now now' s conn conn' req body may offline new early named w absent fresh
      room before turns id =
    let user = req.user_id in
    let a = u32 (s.load_user_seq + 1) in
    let p = opened now s conn req in
    let s1 = begun now s conn req in
    let ended = end_login user s1 in
    let s2 = begun now' ended conn' req in
    let e1 = login_new now s conn req may offline new in
    let e2 =
      login_again now' s1 conn' req p may offline (find_inserted user p s.pending_logins) early
        (retry_same now s conn req) in
    let k2 = run-cons s1 (logs_in now' conn' req) [] e2 refl in
    let k1 = run-cons s (logs_in now conn req) (logs_in now' conn' req ∷ []) e1 k2 in
    let (quiet, answered) =
      answered_once d dbs dbs' r user a (u32 (a + 1)) w absent fresh room before turns in
    (
      ap (λ (x : Result). x.1) k1,
      quiet,
      answered,
      subst (λ (x : Super). serve x (loaded body) ≡ (x, [])) (sym (ap (λ (x : Result). x.0) k1))
          (stale_answer s2 user (opened now' ended conn' req) body a
            (find_inserted user _ ended.pending_logins) named (next_differs (s.load_user_seq + 1))
            id),
    )
