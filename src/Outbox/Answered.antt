-- ===== src/Outbox/Answered.antt =====
-- Whole histories of calls of SuperServer/LoginExternOutbox.cpp: what becomes of every verification.
use rpg_server.Base.{ℕ, ◌+◌, List, [], ◌∷◌, ◌++◌, nat_eq}
use rpg_server.Outbox.Queue.{Outbox, Event}
use rpg_server.Outbox.Flush.{LoginClient}
use rpg_server.Outbox.Serve.{Call, serve}
use rpg_server.Outbox.Served.{IsNew, asks}

module _ (l : LoginClient) where
  -- Call after call.
  abbrev pub run : Outbox → List (Call l) → Outbox × List Event
  run o [] = (o, [])
  run o (call ∷ calls) =
      let (o', events) = serve l o call in let rest = run o' calls in (rest.0, events ++ rest.1)

  abbrev pub all_asks : ℕ → List (Call l) → ℕ
  all_asks q [] = 0
  all_asks q (call ∷ calls) = asks q call + all_asks q calls

  abbrev pub AllNew : Outbox → List (Call l) → Type 0
  AllNew o [] = Unit {0}
  AllNew o (call ∷ calls) = IsNew o call × AllNew (serve l o call).0 calls
