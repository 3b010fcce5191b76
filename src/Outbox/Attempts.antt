-- ===== src/Outbox/Attempts.antt =====
-- What one attempt of SuperServer/LoginExternOutbox.cpp to send an item sends, and what it leaves.
use rpg_server.Base.{
  ℕ, ◌≡◌, refl, inl, inr, Bool, true, false, not, ◌||◌, List, [], ◌∷◌, ◌++◌, arith, Bool-cases,
  nat_eq, Table,
}
use rpg_server.Outbox.Queue.{
  VerifyReq, Payload, verify_token, gateway_register, gateway_heartbeat, update_last_user,
  zone_status_report, extern_game_zone_fwd, Item, Pending, Event, sent, verify_failed,
  verify_answered, register_failed, is_verify, is_started, any_started, is_verify_transport_busy,
  can_send_verify,
}
use rpg_server.Outbox.Flush.{
  attempt_cases, LoginClient, attempt, Attempt, settle, send_once, send_raw, send_payload,
}

-- No item that passes the test is sent.
abbrev pub sends : (Payload → Bool) → List Event → Bool
sends p [] = false
sends p (sent x ∷ es) = p x || sends p es
sends p (verify_failed conn seq ∷ es) = sends p es
sends p (verify_answered conn seq rest ∷ es) = sends p es
sends p (register_failed conn id ∷ es) = sends p es

abbrev pub is_other : Payload → Bool
is_other p = not (is_verify p)

pub sends-append :
    (p : Payload → Bool) (xs ys : List Event) → sends p (xs ++ ys) ≡ (sends p xs || sends p ys)
sends-append p [] ys = refl
sends-append p (sent x ∷ xs) ys = ground (arith, sends-append p xs ys)
sends-append p (verify_failed conn seq ∷ xs) ys = sends-append p xs ys
sends-append p (verify_answered conn seq rest ∷ xs) ys = sends-append p xs ys
sends-append p (register_failed conn id ∷ xs) ys = sends-append p xs ys

any_started-append :
    (xs ys : List Item) → any_started (xs ++ ys) ≡ (any_started xs || any_started ys)
unfolding any_started
any_started-append [] ys = refl
any_started-append (x ∷ xs) ys = ground (arith, any_started-append xs ys)

pub still_busy :
    (m m' : Table ℕ Pending) (kept : List Item) (x y : Item) (items : List Item)
    → m' ≡ m
    → (is_started x.payload ≡ true → is_started y.payload ≡ true)
    → is_verify_transport_busy m (kept ++ x ∷ items) ≡ true
    → is_verify_transport_busy m' ((kept ++ y ∷ []) ++ items) ≡ true
unfolding is_verify_transport_busy any_started
still_busy m m' kept x y items same more busy = ground (
  arith,
  any_started-append kept (x ∷ items),
  any_started-append (kept ++ y ∷ []) items,
  any_started-append kept (y ∷ []),
  same,
  more,
  busy,
)

module _ (l : LoginClient) where
  once_sends :
      (item : Item) (m : Table ℕ Pending) (c : l.Client) (drops : Bool) (failure : List Event)
      → (p : Payload → Bool) → p item.payload ≡ false
      → sends p failure ≡ false
      → sends p (send_once l item m c drops failure).events ≡ false
  unfolding send_once
  once_sends item m c drops failure p h k = elim (Bool-cases (l.send_msg c item.payload).0) [
    | inl ok ↦ rw (ok, h) refl
    | inr failed ↦ rw (failed, k) refl
  ]

  raw_sends :
      (item : Item) (bytes : List ℕ) (m : Table ℕ Pending) (c : l.Client)
      → (p : Payload → Bool) → p item.payload ≡ false
      → sends p (send_raw l item bytes m c).events ≡ false
  unfolding send_raw
  raw_sends item [] m c p h = refl
  raw_sends item (b ∷ bytes) m c p h = once_sends item m c false [] p h refl

  -- What is not a verification does not send one.
  payload_others :
      (ms : ℕ) (item : Item) (m : Table ℕ Pending) (c : l.Client) (p : Payload)
      → item.payload ≡ p
      → is_verify p ≡ false
      → sends is_verify (send_payload l ms item m c p).events ≡ false
  unfolding send_payload
  payload_others ms item m c (verify_token conn req started) e h = cc
  payload_others ms item m c (gateway_register conn body) e h =
      once_sends item m c true _ is_verify (rw e refl) refl
  payload_others ms item m c (gateway_heartbeat bytes) e h =
      raw_sends item bytes m c is_verify (rw e refl)
  payload_others ms item m c (update_last_user bytes) e h =
      raw_sends item bytes m c is_verify (rw e refl)
  payload_others ms item m c (zone_status_report report) e h =
      once_sends item m c false [] is_verify (rw e refl) refl
  payload_others ms item m c (extern_game_zone_fwd bytes) e h =
      raw_sends item bytes m c is_verify (rw e refl)

  payload_verifies :
      (ms : ℕ) (item : Item) (m : Table ℕ Pending) (c : l.Client) (p : Payload)
      → item.payload ≡ p
      → is_verify p ≡ true
      → sends is_other (send_payload l ms item m c p).events ≡ false
  unfolding send_payload settle
  payload_verifies ms item m c (verify_token conn req true) e h = refl
  payload_verifies ms item m c (verify_token conn req false) e h =
      elim (Bool-cases (l.send_msg c item.payload).0) [
        | inl ok ↦ rw (ok, e) refl
        | inr failed ↦ rw failed refl
      ]
  payload_verifies ms item m c (gateway_register conn body) e h = cc
  payload_verifies ms item m c (gateway_heartbeat bytes) e h = cc
  payload_verifies ms item m c (update_last_user bytes) e h = cc
  payload_verifies ms item m c (zone_status_report report) e h = cc
  payload_verifies ms item m c (extern_game_zone_fwd bytes) e h = cc

  -- An item that is not done with leaves the table, and has been started if it was.
  abbrev pub WaitsAs : Payload → Table ℕ Pending → Attempt l → Type 0
  WaitsAs p m a =
      a.done ≡ false → (a.in_flight ≡ m) × (is_started p ≡ true → is_started a.item.payload ≡ true)

  settle_waits :
      (ms : ℕ) (item : Item) (conn : ℕ) (req : VerifyReq) (m : Table ℕ Pending) (c : l.Client)
      → (events : List Event) (p : Payload) → WaitsAs p m (settle l ms item conn req m c events)
  unfolding settle
  settle_waits ms item conn req m c events p = elim (Bool-cases (l.has_pending_send c)) [
    | inl pending ↦ rw pending (λ _. (refl, λ _. refl))
    | inr clear ↦ rw clear (λ h. cc)
  ]

  raw_waits :
      (item : Item) (bytes : List ℕ) (m : Table ℕ Pending) (c : l.Client) (p : Payload)
      → is_started p ≡ false
      → WaitsAs p m (send_raw l item bytes m c)
  unfolding send_raw send_once
  raw_waits item [] m c p never h = (refl, λ s. cc)
  raw_waits item (b ∷ bytes) m c p never h = (refl, λ s. cc)

  payload_waits :
      (ms : ℕ) (item : Item) (m : Table ℕ Pending) (c : l.Client) (p : Payload)
      → WaitsAs p m (send_payload l ms item m c p)
  unfolding send_payload send_once
  payload_waits ms item m c (verify_token conn req true) =
      settle_waits ms item conn req m c [] (verify_token conn req true)
  payload_waits ms item m c (verify_token conn req false) =
      elim (Bool-cases (l.send_msg c item.payload).0) [
        | inl ok ↦ rw ok (
            settle_waits ms item conn req m _ (sent item.payload ∷ [])
              (verify_token conn req false))
        | inr failed ↦ rw failed (λ _. (refl, λ h. cc))
      ]
  payload_waits ms item m c (gateway_register conn body) = λ _. (refl, λ h. cc)
  payload_waits ms item m c (gateway_heartbeat bytes) =
      raw_waits item bytes m c (gateway_heartbeat bytes) refl
  payload_waits ms item m c (update_last_user bytes) =
      raw_waits item bytes m c (update_last_user bytes) refl
  payload_waits ms item m c (zone_status_report report) = λ _. (refl, λ h. cc)
  payload_waits ms item m c (extern_game_zone_fwd bytes) =
      raw_waits item bytes m c (extern_game_zone_fwd bytes) refl

  pub attempt_early :
      (ready ms : ℕ) (queue : List Item) (item : Item) (m : Table ℕ Pending) (c : l.Client)
      → can_send_verify ready ms ≡ false
      → sends is_verify (attempt l ready ms queue item m c).events ≡ false
  attempt_early ready ms queue item m c early =
      attempt_cases l (λ a. sends is_verify a.events ≡ false) ready ms queue item m c refl
        (λ in_time _.
          let other : is_verify item.payload ≡ false = ground (arith, in_time, early) in
          payload_others ms item m c item.payload refl other)

  pub attempt_busy :
      (ready ms : ℕ) (queue : List Item) (item : Item) (m : Table ℕ Pending) (c : l.Client)
      → is_verify_transport_busy m queue ≡ true
      → sends is_other (attempt l ready ms queue item m c).events ≡ false
  attempt_busy ready ms queue item m c busy =
      attempt_cases l (λ a. sends is_other a.events ≡ false) ready ms queue item m c refl
        (λ _ free.
          let verify : is_verify item.payload ≡ true = ground (arith, free, busy) in
          payload_verifies ms item m c item.payload refl verify)

  pub attempt_waits :
      (ready ms : ℕ) (queue : List Item) (item : Item) (m : Table ℕ Pending) (c : l.Client)
      → WaitsAs item.payload m (attempt l ready ms queue item m c)
  attempt_waits ready ms queue item m c =
      attempt_cases l (WaitsAs item.payload m) ready ms queue item m c (λ _. (refl, λ h. h))
        (λ _ _. payload_waits ms item m c item.payload)
