-- ===== src/Outbox/Conserved.antt =====
-- A tick of SuperServer/LoginExternOutbox.cpp loses no verification, nor does any history of calls.
use rpg_server.Base.{
  ℕ, ◌+◌, ◌≤◌, ◌≡◌, refl, sym, ap, subst, ◌∙◌, inl, inr, Bool, true, false, none, some, List, [],
  ◌∷◌, ◌++◌, arith, ◌==◌, if◌then◌else◌, ==_iff, Bool-cases, Option-cases, nat_eq, Table, find,
  insert, Distinct, total, total-insert, Every,
}
use rpg_server.Outbox.Queue.{
  VerifyReq, Payload, verify_token, gateway_register, gateway_heartbeat, update_last_user,
  zone_status_report, extern_game_zone_fwd, Item, Pending, Outbox, Event, sent, register_failed,
}
use rpg_server.Outbox.Flush.{
  LoginClient, flush, attempt, Attempt, settle, send_once, send_raw, send_payload, attempt_cases,
}
use rpg_server.Outbox.Owed.{
  owes, queued, flies, flying, owed, answers, queued-append, answers-append,
}

-- A verification in the queue whose number is not in flight.
abbrev pub IsFresh : Table ℕ Pending → Payload → Type 0
IsFresh m (verify_token conn req started) = find req.request_seq m ≡ none
IsFresh m _ = Unit {0}

abbrev pub AllFresh : Table ℕ Pending → List Item → Type 0
AllFresh m [] = Unit {0}
AllFresh m (item ∷ items) = IsFresh m item.payload × AllFresh m items

flying-insert :
    (q : ℕ) (p : Pending) (m : Table ℕ Pending)
    → find p.verify_req.request_seq m ≡ none
    → flying q (insert p.verify_req.request_seq p m) ≡ flying q m + flies q p
flying-insert q p m h = ground (arith, total-insert (flies q) p.verify_req.request_seq p m, h)

module _ (l : LoginClient) where
  -- What an attempt does to the account of a number, and that it leaves the table unless it is done.
  abbrev pub Balances : ℕ → Payload → Table ℕ Pending → Attempt l → Type 0
  Balances q p m a =
      (owes q p + flying q m
        ≡ (if a.done then 0 else owes q a.item.payload)
          + (flying q a.in_flight + answers q a.events))
      × (a.done ≡ false → a.in_flight ≡ m)

  settle-Balances :
      (q ms : ℕ) (item : Item) (conn : ℕ) (req : VerifyReq) (m : Table ℕ Pending) (c : l.Client)
      → find req.request_seq m ≡ none
      → (started : Bool) → (events : List Event) → answers q events ≡ 0
      → Balances q (verify_token conn req started) m (settle l ms item conn req m c events)
  unfolding settle
  settle-Balances q ms item conn req m c fresh started events quiet =
      let p : Pending = record { record_conn = conn; verify_req = req; sent_at_ms = ms } in
      elim (Bool-cases (l.has_pending_send c)) [
        | inl pending ↦ rw pending (omega arith, λ _. refl)
        | inr clear ↦ rw clear (omega (arith, flying-insert q p m fresh), λ h. cc)
      ]

  once-Balances :
      (q : ℕ) (item : Item) (m : Table ℕ Pending) (c : l.Client) (p : Payload) (drops : Bool)
      → (failure : List Event) → item.payload ≡ p
      → owes q p ≡ 0
      → answers q failure ≡ 0
      → Balances q p m (send_once l item m c drops failure)
  unfolding send_once
  once-Balances q item m c p drops failure e other quiet =
      let none_owed : owes q item.payload ≡ 0 = ap (owes q) e ∙ other in
      (ground (arith, none_owed, other, quiet), λ _. refl)

  raw-Balances :
      (q : ℕ) (item : Item) (bytes : List ℕ) (m : Table ℕ Pending) (c : l.Client) (p : Payload)
      → item.payload ≡ p
      → owes q p ≡ 0
      → Balances q p m (send_raw l item bytes m c)
  unfolding send_raw
  raw-Balances q item [] m c p e other = (omega (arith, other), λ _. refl)
  raw-Balances q item (b ∷ bytes) m c p e other = once-Balances q item m c p false [] e other refl

  payload-Balances :
      (q ms : ℕ) (item : Item) (m : Table ℕ Pending) (c : l.Client) (p : Payload)
      → item.payload ≡ p
      → IsFresh m p
      → Balances q p m (send_payload l ms item m c p)
  unfolding send_payload send_once send_raw
  payload-Balances q ms item m c (verify_token conn req true) e fresh =
      settle-Balances q ms item conn req m c fresh true [] refl
  payload-Balances q ms item m c (verify_token conn req false) e fresh =
      elim (Bool-cases (l.send_msg c item.payload).0) [
        | inl ok ↦
            rw ok (settle-Balances q ms item conn req m _ fresh false (sent item.payload ∷ []) refl)
        | inr failed ↦ rw (failed, e) (omega arith, λ _. refl)
      ]
  payload-Balances q ms item m c (gateway_register conn body) e fresh =
      once-Balances q item m c (gateway_register conn body) true
        (register_failed conn body.gateway_server_id ∷ []) e refl refl
  payload-Balances q ms item m c (gateway_heartbeat bytes) e fresh =
      raw-Balances q item bytes m c (gateway_heartbeat bytes) e refl
  payload-Balances q ms item m c (update_last_user bytes) e fresh =
      raw-Balances q item bytes m c (update_last_user bytes) e refl
  payload-Balances q ms item m c (zone_status_report report) e fresh =
      once-Balances q item m c (zone_status_report report) false [] e refl refl
  payload-Balances q ms item m c (extern_game_zone_fwd bytes) e fresh =
      raw-Balances q item bytes m c (extern_game_zone_fwd bytes) e refl

  attempt-Balances :
      (q ready ms : ℕ) (queue : List Item) (item : Item) (m : Table ℕ Pending) (c : l.Client)
      → IsFresh m item.payload
      → Balances q item.payload m (attempt l ready ms queue item m c)
  attempt-Balances q ready ms queue item m c fresh =
      attempt_cases l (Balances q item.payload m) ready ms queue item m c (omega arith, λ _. refl)
        (λ _ _. payload-Balances q ms item m c item.payload refl fresh)

  pub flush-conserves :
      (q ready ms : ℕ) (kept items : List Item) (m : Table ℕ Pending) (c : l.Client)
      → AllFresh m items
      → queued q (flush l ready ms kept items m c).queue
          + flying q (flush l ready ms kept items m c).in_flight
          + answers q (flush l ready ms kept items m c).events
        ≡ queued q kept + queued q items + flying q m
  unfolding flush
  flush-conserves q ready ms kept [] m c fresh = omega arith
  flush-conserves q ready ms kept (item ∷ items) m c fresh =
      let a : Attempt l = attempt l ready ms (kept ++ item ∷ items) item m c in
      let (balance, same) = attempt-Balances q ready ms (kept ++ item ∷ items) item m c fresh.0 in
      elim (Bool-cases a.done) [
        | inl done ↦
            let b = rw done at balance in rw done (omega (arith, b, queued-append q kept items))
        | inr waits ↦
            let b = rw waits at balance in
            let flown : flying q a.in_flight ≡ flying q m = ap (flying q) (same waits) in
            let ih =
              flush-conserves q ready ms (kept ++ a.item ∷ []) items a.in_flight a.client
                (subst (λ t. AllFresh t items) (sym (same waits)) fresh.1) in
            let rest = flush l ready ms (kept ++ a.item ∷ []) items a.in_flight a.client in
            rw waits (
              omega (
                arith,
                b,
                flown,
                ih,
                queued-append q kept (a.item ∷ []),
                answers-append q a.events rest.events,
              ))
      ]

-- A number that is owed at most once, each verification in flight under its own number.
pub record IsSingle (o : Outbox) : Type 0 where
  pub once : (q : ℕ) → owed q o ≤ 1
  pub keyed : Every (λ seq p. p.verify_req.request_seq ≡ seq) o.in_flight
  pub distinct : Distinct o.in_flight

in_flight_counts :
    (q : ℕ) (m : Table ℕ Pending) {p : Pending}
    → Every (λ seq p. p.verify_req.request_seq ≡ seq) m
    → find q m ≡ some p
    → 1 ≤ flying q m
unfolding find total
in_flight_counts q [] k h = cc
in_flight_counts q ((seq, r) ∷ m) {p} k h = elim (Bool-cases (seq == q)) [
  | inl here ↦ ground (arith, k.0, here)
  | inr there ↦ omega (arith, in_flight_counts q m {p = p} k.1 (rw there at h))
]

one-IsFresh :
    (m : Table ℕ Pending) (p : Payload)
    → Every (λ seq p. p.verify_req.request_seq ≡ seq) m
    → ((q : ℕ) → owes q p + flying q m ≤ 1)
    → IsFresh m p
one-IsFresh m (verify_token conn req started) k h = elim (Option-cases (find req.request_seq m)) [
  | inl e ↦ e
  | inr (r, e) ↦
      let many = in_flight_counts req.request_seq m {p = r} k e in
      absurd (ground (arith, many, h req.request_seq, ==_iff req.request_seq req.request_seq))
]
one-IsFresh m (gateway_register conn body) k h = tt
one-IsFresh m (gateway_heartbeat bytes) k h = tt
one-IsFresh m (update_last_user bytes) k h = tt
one-IsFresh m (zone_status_report report) k h = tt
one-IsFresh m (extern_game_zone_fwd bytes) k h = tt

pub single-AllFresh :
    (m : Table ℕ Pending) (items : List Item)
    → Every (λ seq p. p.verify_req.request_seq ≡ seq) m
    → ((q : ℕ) → queued q items + flying q m ≤ 1)
    → AllFresh m items
single-AllFresh m [] k h = tt
single-AllFresh m (item ∷ items) k h = (
  one-IsFresh m item.payload k (λ q. omega (arith, h q)),
  single-AllFresh m items k (λ q. omega (arith, h q)),
)
