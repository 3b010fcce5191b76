-- ===== src/Outbox/Served.antt =====
-- What a call of SuperServer/LoginExternOutbox.cpp owes before and after.
use rpg_server.Base.{
  ℕ, ◌+◌, ◌≤◌, ◌≡◌, refl, sym, ap, subst, inl, inr, Option, none, some, List, [], ◌∷◌, ◌++◌, arith,
  ◌==◌, ==_iff, Bool-cases, Option-cases, nat_eq, find, erase-Distinct, total-erase, erase-Every,
  find-Every,
}
use rpg_server.Outbox.Queue.{
  Payload, gateway_register, gateway_heartbeat, update_last_user, zone_status_report,
  extern_game_zone_fwd, Outbox, is_full, enqueue_verify_token, enqueue_gateway_register,
  enqueue_raw, enqueue_zone_status_report, complete_verify_rsp,
}
use rpg_server.Outbox.Flush.{LoginClient, flush}
use rpg_server.Outbox.Serve.{
  Clock, watch, expire, on_extern_tick, Call, verifies, registers, heartbeats, updates, forwards,
  reports, completes, ticks, serve,
}
use rpg_server.Outbox.Owed.{
  one_if, owes, queued, flies, flying, owed, answers, queued-append, answers-append,
}
use rpg_server.Outbox.Conserved.{IsSingle, flush-conserves, single-AllFresh}
use rpg_server.Outbox.Kept.{
  KeptTable, watch_conserves, expire_conserves, watch-KeptTable, expire-KeptTable, flush-KeptTable,
}

-- How many verifications of a number a call asks for.
abbrev pub asks : {l : LoginClient} → ℕ → Call l → ℕ
asks q (verifies ms conn req) = one_if (req.request_seq == q)
asks q _ = 0

-- A new verification has a number that is not owed.
abbrev pub IsNew : {l : LoginClient} → Outbox → Call l → Type 0
IsNew o (verifies ms conn req) = owed req.request_seq o ≡ 0
IsNew o _ = Unit {0}

raw_owes :
    (q ms : ℕ) (kind : List ℕ → Payload) (bytes : Option (List ℕ)) (o : Outbox)
    → ((xs : List ℕ) → owes q (kind xs) ≡ 0)
    → queued q (enqueue_raw kind ms bytes o).queue ≡ queued q o.queue
unfolding enqueue_raw
raw_owes q ms kind none o h = refl
raw_owes q ms kind (some []) o h = refl
raw_owes q ms kind (some (b ∷ bytes)) o h = ground (
  arith,
  queued-append q o.queue (record { enqueued_at_ms = ms; payload = kind (b ∷ bytes) } ∷ []),
  h (b ∷ bytes),
)

raw_table :
    (ms : ℕ) (kind : List ℕ → Payload) (bytes : Option (List ℕ)) (o : Outbox)
    → (enqueue_raw kind ms bytes o).in_flight ≡ o.in_flight
unfolding enqueue_raw
raw_table ms kind none o = refl
raw_table ms kind (some []) o = refl
raw_table ms kind (some (b ∷ bytes)) o = ground arith

raw_same :
    (q ms : ℕ) (kind : List ℕ → Payload) (bytes : Option (List ℕ)) (o : Outbox)
    → ((xs : List ℕ) → owes q (kind xs) ≡ 0)
    → owed q (enqueue_raw kind ms bytes o) + 0 ≡ owed q o + 0
raw_same q ms kind bytes o h =
    omega (arith, raw_owes q ms kind bytes o h, ap (flying q) (raw_table ms kind bytes o))

module _ (l : LoginClient) where
  tick-KeptTable :
      (t : Clock) (c : l.Client) (o : Outbox)
      → KeptTable o.in_flight
      → KeptTable (on_extern_tick l t c o).0.in_flight
  unfolding on_extern_tick
  tick-KeptTable t c o k =
      let o1 = (watch l t c o).0 in
      let o2 = (expire l t.now_ms o1).0 in
      flush-KeptTable l o2.login_conn_ready_ms t.send_ms [] o2.queue o2.in_flight c
        (expire-KeptTable l t.now_ms o1 (watch-KeptTable l t c o k))

  tick_conserves :
      (q : ℕ) (t : Clock) (c : l.Client) (o : Outbox)
      → IsSingle o
      → owed q (on_extern_tick l t c o).0 + answers q (on_extern_tick l t c o).2 ≡ owed q o
  unfolding on_extern_tick
  tick_conserves q t c o w =
      let o1 = (watch l t c o).0 in
      let o2 = (expire l t.now_ms o1).0 in
      let table = expire-KeptTable l t.now_ms o1 (watch-KeptTable l t c o (w.keyed, w.distinct)) in
      let less : (r : ℕ) → owed r o2 ≤ 1 =
        λ r. omega (arith, watch_conserves l r t c o, expire_conserves l r t.now_ms o1, w.once r) in
      let f = flush l o2.login_conn_ready_ms t.send_ms [] o2.queue o2.in_flight c in
      omega (
        arith,
        watch_conserves l q t c o,
        expire_conserves l q t.now_ms o1,
        flush-conserves l q o2.login_conn_ready_ms t.send_ms [] o2.queue o2.in_flight c
            (single-AllFresh o2.in_flight o2.queue table.0 less),
        answers-append q (watch l t c o).1 ((expire l t.now_ms o1).1 ++ f.events),
        answers-append q (expire l t.now_ms o1).1 f.events,
      )

  tick-IsSingle :
      (t : Clock) (c : l.Client) (o : Outbox) → IsSingle o → IsSingle (on_extern_tick l t c o).0
  tick-IsSingle t c o w =
      let table = tick-KeptTable t c o (w.keyed, w.distinct) in
      record {
        once = λ q. omega (arith, tick_conserves q t c o w, w.once q);
        keyed = table.0;
        distinct = table.1;
      }

  pub serve_conserves :
      (q : ℕ) (o : Outbox) (call : Call l)
      → IsSingle o
      → owed q (serve l o call).0 + answers q (serve l o call).1 ≡ owed q o + asks q call
  unfolding enqueue_verify_token enqueue_gateway_register enqueue_zone_status_report
      complete_verify_rsp
  serve_conserves q o (verifies ms conn req) w = ground arith
  serve_conserves q o (registers ms conn body) w = ground (
    arith,
    queued-append q o.queue
        (record { enqueued_at_ms = ms; payload = gateway_register conn body } ∷ []),
  )
  serve_conserves q o (heartbeats ms bytes) w = raw_same q ms gateway_heartbeat bytes o (λ xs. refl)
  serve_conserves q o (updates ms bytes) w = raw_same q ms update_last_user bytes o (λ xs. refl)
  serve_conserves q o (forwards ms bytes) w =
      raw_same q ms extern_game_zone_fwd bytes o (λ xs. refl)
  serve_conserves q o (reports ms report) w = ground (
    arith,
    queued-append q o.queue
        (record { enqueued_at_ms = ms; payload = zone_status_report report } ∷ []),
  )
  serve_conserves q o (completes seq rest) w =
      let left = total-erase (flies q) seq o.in_flight w.distinct in
      elim (Option-cases (find seq o.in_flight)) [
        | inl e ↦ rw (e, complete_verify_rsp) (omega arith)
        | inr (p, e) ↦
            let own = find-Every _ seq o.in_flight w.keyed e in
            let left' = rw e at left in rw (e, complete_verify_rsp) (ground (arith, left', own))
      ]
  serve_conserves q o (ticks t c) w = omega (arith, tick_conserves q t c o w)

  raw-IsSingle :
      (ms : ℕ) (kind : List ℕ → Payload) (bytes : Option (List ℕ)) (o : Outbox)
      → KeptTable o.in_flight
      → KeptTable (enqueue_raw kind ms bytes o).in_flight
  raw-IsSingle ms kind bytes o k = subst KeptTable (sym (raw_table ms kind bytes o)) k

  serve-KeptTable :
      (o : Outbox) (call : Call l) → KeptTable o.in_flight → KeptTable (serve l o call).0.in_flight
  unfolding enqueue_verify_token enqueue_gateway_register enqueue_zone_status_report
      complete_verify_rsp
  serve-KeptTable o (verifies ms conn req) k = elim (Bool-cases (is_full o.queue)) [
    | inl full ↦ rw full k
    | inr room ↦ rw room k
  ]
  serve-KeptTable o (registers ms conn body) k = elim (Bool-cases (is_full o.queue)) [
    | inl full ↦ rw full k
    | inr room ↦ rw room k
  ]
  serve-KeptTable o (heartbeats ms bytes) k = raw-IsSingle ms gateway_heartbeat bytes o k
  serve-KeptTable o (updates ms bytes) k = raw-IsSingle ms update_last_user bytes o k
  serve-KeptTable o (forwards ms bytes) k = raw-IsSingle ms extern_game_zone_fwd bytes o k
  serve-KeptTable o (reports ms report) k = elim (Bool-cases (is_full o.queue)) [
    | inl full ↦ rw full k
    | inr room ↦ rw room k
  ]
  serve-KeptTable o (completes seq rest) k = elim (Option-cases (find seq o.in_flight)) [
    | inl e ↦ rw (e, complete_verify_rsp) k
    | inr (p, e) ↦
        rw (e, complete_verify_rsp)
          (erase-Every _ seq o.in_flight k.0, erase-Distinct seq o.in_flight k.1)
  ]
  serve-KeptTable o (ticks t c) k = tick-KeptTable t c o k

  new_once :
      (q : ℕ) (o : Outbox) (call : Call l)
      → IsNew o call
      → owed q o ≤ 1
      → owed q o + asks q call ≤ 1
  new_once q o (verifies ms conn req) new h = elim (Bool-cases (req.request_seq == q)) [
    | inl e ↦ ground (arith, subst (λ x. owed x o ≡ 0) ((==_iff req.request_seq q).0 e) new)
    | inr e ↦ ground arith
  ]
  new_once q o (registers ms conn body) new h = omega arith
  new_once q o (heartbeats ms bytes) new h = omega arith
  new_once q o (updates ms bytes) new h = omega arith
  new_once q o (forwards ms bytes) new h = omega arith
  new_once q o (reports ms report) new h = omega arith
  new_once q o (completes seq rest) new h = omega arith
  new_once q o (ticks t c) new h = omega arith

  pub serve-IsSingle :
      (o : Outbox) (call : Call l) → IsNew o call → IsSingle o → IsSingle (serve l o call).0
  serve-IsSingle o call new w =
      let table = serve-KeptTable o call (w.keyed, w.distinct) in
      record {
        once = λ q. omega (arith, serve_conserves q o call w, new_once q o call new (w.once q));
        keyed = table.0;
        distinct = table.1;
      }
