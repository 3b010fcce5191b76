-- ===== src/Gateway/Histories.antt =====
-- Whole histories of calls of GatewayServer/GatewayServer.cpp.
use rpg_server.Base.{
  ℕ, ◌≡◌, refl, subst, inl, inr, Option, none, some, List, [], ◌∷◌, ◌++◌, Option-cases, nat_eq,
  find, Distinct,
}
use rpg_server.Gateway.User.{entering, GatewayUser, Users, new_user}
use rpg_server.Gateway.Messages.{Links, Proto, Event}
use rpg_server.Gateway.Limiter.{allow}
use rpg_server.Gateway.Replies.{LoginRsp, on_kick_client, on_disconnect, on_user_login_rsp}
use rpg_server.Gateway.Server.{
  Gateway, at_conn, check_timeout, handle_client_msg, Call, connects, disconnects, says,
  token_answers, list_answers, create_answers, login_answers, kicks, times_out, serve, on_connect,
}
use rpg_server.Gateway.Flow.{IsIdentified, Continues}
use rpg_server.Gateway.Answers.{
  on_validate_token_rsp-Continues, on_list_characters_rsp-Continues,
  on_create_character_rsp-Continues, on_user_login_rsp-Follows,
}
use rpg_server.Gateway.Followed.{receive-Follows}
use rpg_server.Gateway.Sweeps.{
  put-Distinct, put-Continues, sweep-Distinct, check_timeout-Continues, Continues-same,
}

-- A login's answer comes to a session that waits for it, and a connection has a new number.
abbrev pub IsTimely : Gateway → Call → Type 0
IsTimely g (login_answers conn rsp) =
    (u : GatewayUser) → find conn g.users ≡ some u → u.client_state ≡ entering
IsTimely g (connects conn) = find conn g.users ≡ none
IsTimely g _ = Unit {0}

on_user_login_rsp-Continues :
    (conn : ℕ) (rsp : LoginRsp) (user : Option GatewayUser)
    → ((u : GatewayUser) → user ≡ some u → u.client_state ≡ entering)
    → Continues user (on_user_login_rsp conn rsp user).0
unfolding on_user_login_rsp
on_user_login_rsp-Continues conn rsp none h = tt
on_user_login_rsp-Continues conn rsp (some u) h = on_user_login_rsp-Follows conn rsp u (h u refl)

on_kick_client-Continues :
    (l : Links) (conn : ℕ) (user : Option GatewayUser)
    → Continues user (on_kick_client l conn user).0
unfolding on_kick_client
on_kick_client-Continues l conn none = tt
on_kick_client-Continues l conn (some u) = tt

module _ (p : Proto) (l : Links) where
  -- Whatever is called, where a login's answer finds a session that waits for it and a new connection has
  -- a number that is not in use, the session of every connection stays in its state, takes one step of
  -- the state machine of a login, or ends, and a new one begins at its start. If it has an account and a
  -- role wherever it is in the world or on the way there, so it has afterwards.
  pub serve-Continues :
      (g : Gateway) (call : Call) (conn : ℕ)
      → Distinct g.users
      → IsTimely g call
      → Continues (find conn g.users) (find conn (serve p l g call).0.users)
  unfolding on_connect at_conn handle_client_msg on_disconnect
  serve-Continues g (connects c) conn d t =
      put-Continues c conn (some (new_user l.now_ms)) g.users (rw t refl)
  serve-Continues g (disconnects c) conn d t = elim (Option-cases (find c g.users)) [
    | inl e ↦ rw (e, serve) (Continues-same (find conn g.users))
    | inr (u, e) ↦ rw (e, serve) (put-Continues c conn _ g.users (rw e tt))
  ]
  serve-Continues g (says c fresh topic body) conn d t = elim (Option-cases (find c g.users)) [
    | inl e ↦ rw (e, handle_client_msg) (Continues-same (find conn g.users))
    | inr (u, e) ↦
        rw (e, handle_client_msg)
          (put-Continues c conn _ g.users
            (rw e (receive-Follows p l c fresh topic body (allow l.now_ms c g.limiter).0 u)))
  ]
  serve-Continues g (token_answers c rsp) conn d t =
      put-Continues c conn _ g.users (on_validate_token_rsp-Continues l c rsp (find c g.users))
  serve-Continues g (list_answers c rsp) conn d t =
      put-Continues c conn _ g.users (on_list_characters_rsp-Continues l c rsp (find c g.users))
  serve-Continues g (create_answers c rsp) conn d t =
      put-Continues c conn _ g.users (on_create_character_rsp-Continues l c rsp (find c g.users))
  serve-Continues g (login_answers c rsp) conn d t =
      put-Continues c conn _ g.users (on_user_login_rsp-Continues c rsp (find c g.users) t)
  serve-Continues g (kicks c) conn d t =
      put-Continues c conn _ g.users (on_kick_client-Continues l c (find c g.users))
  serve-Continues g times_out conn d t = check_timeout-Continues l conn g.users d

  serve-Distinct :
      (g : Gateway) (call : Call) → Distinct g.users → Distinct (serve p l g call).0.users
  unfolding on_connect at_conn handle_client_msg check_timeout
  serve-Distinct g (connects c) d = put-Distinct c (some (new_user l.now_ms)) g.users d
  serve-Distinct g (disconnects c) d = elim (Option-cases (find c g.users)) [
    | inl e ↦ rw (e, serve) d
    | inr (u, e) ↦ rw (e, serve) (put-Distinct c _ g.users d)
  ]
  serve-Distinct g (says c fresh topic body) d = elim (Option-cases (find c g.users)) [
    | inl e ↦ rw (e, handle_client_msg) d
    | inr (u, e) ↦ rw (e, handle_client_msg) (put-Distinct c _ g.users d)
  ]
  serve-Distinct g (token_answers c rsp) d = put-Distinct c _ g.users d
  serve-Distinct g (list_answers c rsp) d = put-Distinct c _ g.users d
  serve-Distinct g (create_answers c rsp) d = put-Distinct c _ g.users d
  serve-Distinct g (login_answers c rsp) d = put-Distinct c _ g.users d
  serve-Distinct g (kicks c) d = put-Distinct c _ g.users d
  serve-Distinct g times_out d =
      sweep-Distinct _ _ (sweep-Distinct _ _ (sweep-Distinct _ g.users d))

-- The sessions of the gateway: one for each connection, each in the world or on the way there with an
-- account and a role.
pub record IsOrderly (users : Users) : Type 0 where
  pub distinct : Distinct users
  pub identified : (conn : ℕ) (u : GatewayUser) → find conn users ≡ some u → IsIdentified u

continued-IsIdentified :
    (x y : Option GatewayUser)
    → Continues x y
    → ((u : GatewayUser) → x ≡ some u → IsIdentified u)
    → (v : GatewayUser) → y ≡ some v
    → IsIdentified v
continued-IsIdentified none none h w v e = cc
continued-IsIdentified none (some z) h w v e =
    let same : z ≡ v = cc e in
    subst IsIdentified same (λ playing. absurd (let q = rw h at playing in cc))
continued-IsIdentified (some u) none h w v e = cc
continued-IsIdentified (some u) (some z) h w v e =
    let same : z ≡ v = cc e in subst IsIdentified same (h.1 (w u refl))

serve-IsOrderly :
    (p : Proto) (l : Links) (g : Gateway) (call : Call)
    → IsTimely g call
    → IsOrderly g.users
    → IsOrderly (serve p l g call).0.users
serve-IsOrderly p l g call t w = record {
  distinct = serve-Distinct p l g call w.distinct;
  identified = λ conn.
      continued-IsIdentified _ _ (serve-Continues p l g call conn w.distinct t) (w.identified conn);
}

-- Call after call, each with the gateway's connections as they are at the time.
abbrev pub run : Proto → Gateway → List (Links × Call) → Gateway × List Event
run p g [] = (g, [])
run p g ((l, call) ∷ calls) =
    let (g', events) = serve p l g call in let rest = run p g' calls in (rest.0, events ++ rest.1)

abbrev pub AllTimely : Proto → Gateway → List (Links × Call) → Type 0
AllTimely p g [] = Unit {0}
AllTimely p g ((l, call) ∷ calls) = IsTimely g call × AllTimely p (serve p l g call).0 calls

-- Through any calls whose login answers find a session that waits for them, and whose new connections
-- have numbers not in use, whoever is in the world or on the way there has an account and a role, and
-- no connection has two sessions.
pub run-IsOrderly :
    (p : Proto) (g : Gateway) (calls : List (Links × Call))
    → AllTimely p g calls
    → IsOrderly g.users
    → IsOrderly (run p g calls).0.users
run-IsOrderly p g [] t w = w
run-IsOrderly p g ((l, call) ∷ calls) t w =
    run-IsOrderly p (serve p l g call).0 calls t.1 (serve-IsOrderly p l g call t.0 w)
