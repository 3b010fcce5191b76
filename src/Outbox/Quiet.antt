-- ===== src/Outbox/Quiet.antt =====
-- What onExternTick of SuperServer/LoginExternOutbox.cpp does not send: a verification before the
-- connection has warmed up, and anything else while a verification is on its way.
use rpg_server.Base.{
  ℕ, ◌≡◌, refl, inl, inr, true, false, List, [], ◌∷◌, ◌++◌, Bool-cases, nat_eq, Table,
}
use rpg_server.Outbox.Queue.{Item, Pending, is_verify, is_verify_transport_busy, can_send_verify}
use rpg_server.Outbox.Flush.{LoginClient, flush, attempt, Attempt}
use rpg_server.Outbox.Attempts.{
  attempt_busy, attempt_early, attempt_waits, is_other, sends, sends-append, still_busy,
}

module _ (l : LoginClient) where
  -- Before the connection has warmed up, the walk of a tick over the queue sends no verification.
  flush_early :
      (ready ms : ℕ) (kept items : List Item) (m : Table ℕ Pending) (c : l.Client)
      → can_send_verify ready ms ≡ false
      → sends is_verify (flush l ready ms kept items m c).events ≡ false
  unfolding flush
  flush_early ready ms kept [] m c early = refl
  flush_early ready ms kept (item ∷ items) m c early =
      let a : Attempt l = attempt l ready ms (kept ++ item ∷ items) item m c in
      let quiet = attempt_early l ready ms (kept ++ item ∷ items) item m c early in
      elim (Bool-cases a.done) [
        | inl done ↦ rw done quiet
        | inr waits ↦
            let rest = flush l ready ms (kept ++ a.item ∷ []) items a.in_flight a.client in
            rw (waits, sends-append is_verify a.events rest.events, quiet)
              (flush_early ready ms (kept ++ a.item ∷ []) items a.in_flight a.client early)
      ]

  -- While a verification is on its way, the walk of a tick over the queue sends nothing but verifications.
  flush_busy :
      (ready ms : ℕ) (kept items : List Item) (m : Table ℕ Pending) (c : l.Client)
      → is_verify_transport_busy m (kept ++ items) ≡ true
      → sends is_other (flush l ready ms kept items m c).events ≡ false
  unfolding flush
  flush_busy ready ms kept [] m c busy = refl
  flush_busy ready ms kept (item ∷ items) m c busy =
      let a : Attempt l = attempt l ready ms (kept ++ item ∷ items) item m c in
      let quiet = attempt_busy l ready ms (kept ++ item ∷ items) item m c busy in
      elim (Bool-cases a.done) [
        | inl done ↦ rw done quiet
        | inr waits ↦
            let same = attempt_waits l ready ms (kept ++ item ∷ items) item m c waits in
            let rest = flush l ready ms (kept ++ a.item ∷ []) items a.in_flight a.client in
            let still : is_verify_transport_busy a.in_flight ((kept ++ a.item ∷ []) ++ items)
                ≡ true =
              still_busy m a.in_flight kept item a.item items same.0 same.1 busy in
            rw (waits, sends-append is_other a.events rest.events, quiet)
              (flush_busy ready ms (kept ++ a.item ∷ []) items a.in_flight a.client still)
      ]
