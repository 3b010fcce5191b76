-- ===== src/Outbox/Owed.antt =====
-- How many answers the outbox of SuperServer/LoginExternOutbox.cpp owes for a sequence number, and that
-- the loops over the queue and the verifications in flight lose none.
use rpg_server.Base.{
  ℕ, ◌+◌, ◌≡◌, refl, ap, inl, inr, Bool, List, [], ◌∷◌, ◌++◌, arith, ◌==◌, if◌then◌else◌,
  Bool-cases, nat_eq, Table, total, erase_if,
}
use rpg_server.Outbox.Queue.{
  Payload, verify_token, Item, Pending, Outbox, Event, sent, verify_failed, verify_answered,
  register_failed, is_full, requeue, reset_send_state, expire_in_flight, expire_queue, is_late,
}

abbrev pub one_if : Bool → ℕ
one_if b = if b then 1 else 0

abbrev pub owes : ℕ → Payload → ℕ
owes q (verify_token conn req started) = one_if (req.request_seq == q)
owes q _ = 0

-- The verifications of a sequence number that stand in the queue.
abbrev pub queued : ℕ → List Item → ℕ
queued q [] = 0
queued q (item ∷ items) = owes q item.payload + queued q items

abbrev pub flies : ℕ → Pending → ℕ
flies q p = one_if (p.verify_req.request_seq == q)

-- Those that are in flight.
abbrev pub flying : ℕ → Table ℕ Pending → ℕ
flying q m = total (flies q) m

abbrev pub owed : ℕ → Outbox → ℕ
owed q o = queued q o.queue + flying q o.in_flight

abbrev pub answers_one : ℕ → Event → ℕ
answers_one q (sent p) = 0
answers_one q (verify_failed conn seq) = one_if (seq == q)
answers_one q (verify_answered conn seq rest) = one_if (seq == q)
answers_one q (register_failed conn id) = 0

-- The answers to a Record, good or bad, for a sequence number.
abbrev pub answers : ℕ → List Event → ℕ
answers q [] = 0
answers q (e ∷ es) = answers_one q e + answers q es

pub queued-append : (q : ℕ) (xs ys : List Item) → queued q (xs ++ ys) ≡ queued q xs + queued q ys
queued-append q [] ys = omega arith
queued-append q (x ∷ xs) ys = omega (arith, queued-append q xs ys)

pub answers-append :
    (q : ℕ) (xs ys : List Event) → answers q (xs ++ ys) ≡ answers q xs + answers q ys
answers-append q [] ys = omega arith
answers-append q (x ∷ xs) ys = omega (arith, answers-append q xs ys)

pub requeue_conserves :
    (q ms : ℕ) (m : Table ℕ Pending) (items : List Item)
    → queued q (requeue ms m items).0 + answers q (requeue ms m items).1
      ≡ queued q items + flying q m
unfolding requeue total
requeue_conserves q ms [] items = refl
requeue_conserves q ms ((seq, p) ∷ m) items = elim (Bool-cases (is_full items)) [
  | inl full ↦ rw full (omega (arith, requeue_conserves q ms m items))
  | inr room ↦ rw room (omega (arith, requeue_conserves q ms m (_ ∷ items)))
]

pub queued-reset : (q : ℕ) (items : List Item) → queued q (reset_send_state items) ≡ queued q items
unfolding reset_send_state
queued-reset q [] = refl
queued-reset q (item ∷ items) = ground (arith, queued-reset q items)

pub expire_in_flight_conserves :
    (q now_ms : ℕ) (m : Table ℕ Pending)
    → flying q (expire_in_flight now_ms m).0 + answers q (expire_in_flight now_ms m).1 ≡ flying q m
unfolding expire_in_flight total
expire_in_flight_conserves q now_ms [] = refl
expire_in_flight_conserves q now_ms ((seq, p) ∷ m) =
    elim (Bool-cases (is_late now_ms p.sent_at_ms)) [
      | inl late ↦ rw late (omega (arith, expire_in_flight_conserves q now_ms m))
      | inr early ↦ rw early (omega (arith, expire_in_flight_conserves q now_ms m))
    ]

pub expire_queue_conserves :
    (q now_ms : ℕ) (items : List Item)
    → queued q (expire_queue now_ms items).0 + answers q (expire_queue now_ms items).1
      ≡ queued q items
unfolding expire_queue
expire_queue_conserves q now_ms [] = refl
expire_queue_conserves q now_ms (item ∷ items) =
    ground (arith, expire_queue_conserves q now_ms items)

pub expire_in_flight-erase_if :
    (now_ms : ℕ) (m : Table ℕ Pending)
    → (expire_in_flight now_ms m).0 ≡ erase_if (λ p. is_late now_ms p.sent_at_ms) m
unfolding expire_in_flight erase_if
expire_in_flight-erase_if now_ms [] = refl
expire_in_flight-erase_if now_ms ((seq, p) ∷ m) = elim (Bool-cases (is_late now_ms p.sent_at_ms)) [
  | inl late ↦ rw late (expire_in_flight-erase_if now_ms m)
  | inr early ↦ rw early (ap (λ t. (seq, p) ∷ t) (expire_in_flight-erase_if now_ms m))
]
