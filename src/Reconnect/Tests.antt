-- ===== src/Reconnect/Tests.antt =====
-- A link that is down, and calls that find it so.
use rpg_server.Base.{ℕ, false, [], ◌∷◌, arith, nat_eq}
use rpg_server.Reconnect.{Link, Seen}
use rpg_server.Reconnect.Spaced.{tries, AreSpaced, tries-AreSpaced}

abbrev down : ℕ → Seen
down now = record { now_ms = now; connected = false; can_send = false; connects = false }

abbrev link : Link
link = record { tls_stuck_since_ms = 0; retry_delay_ms = 1000; next_retry_ms = 0 }

tries-AreSpaced_example : AreSpaced 0 (tries link (down 500 ∷ down 1200 ∷ down 10500 ∷ []))
tries-AreSpaced_example =
    tries-AreSpaced link (down 500 ∷ down 1200 ∷ down 10500 ∷ []) (omega arith, omega arith)
      (omega arith, (omega arith, (omega arith, tt)))
