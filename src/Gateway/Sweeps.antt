-- ===== src/Gateway/Sweeps.antt =====
-- What putting one session back, and the sweeps of checkTimeout in GatewayServer/GatewayServer.cpp, do to
-- the sessions of all connections.
use rpg_server.Base.{
  ℕ, ◌≡◌, refl, sym, ap, subst, ◌∙◌, ◌⊎◌, inl, inr, Option, none, some, [], ◌∷◌, ◌==◌,
  if◌then◌else◌, ==_iff, Bool-cases, Option-cases, nat_eq, find, find-insert, find-erase, Distinct,
  insert-Distinct, erase-Distinct,
}
use rpg_server.Gateway.User.{GatewayUser, Users}
use rpg_server.Gateway.Messages.{Links}
use rpg_server.Gateway.Login.{Session}
use rpg_server.Gateway.Replies.{sweep_auth, sweep_entering, sweep_silent, is_auth_late, is_silent}
use rpg_server.Gateway.Server.{put, sweep, check_timeout}
use rpg_server.Gateway.Flow.{stays, Continues}
use rpg_server.Gateway.Answers.{sweep_entering-Follows}

find-put :
    (conn j : ℕ) (r : Option GatewayUser) (users : Users)
    → find j (put conn r users) ≡ (if conn == j then r else find j users)
unfolding put
find-put conn j none users = find-erase conn j users
find-put conn j (some u) users = find-insert conn j u users

pub put-Distinct :
    (conn : ℕ) (r : Option GatewayUser) (users : Users)
    → Distinct users
    → Distinct (put conn r users)
unfolding put
put-Distinct conn none users d = erase-Distinct conn users d
put-Distinct conn (some u) users d = insert-Distinct conn u users d

pub Continues-same : (user : Option GatewayUser) → Continues user user
Continues-same none = tt
Continues-same (some u) = (stays, λ w. w)

ends : (user : Option GatewayUser) → Continues user none
ends none = tt
ends (some u) = tt

-- Where the session of one connection goes on, every session does.
pub put-Continues :
    (conn j : ℕ) (r : Option GatewayUser) (users : Users)
    → Continues (find conn users) r
    → Continues (find j users) (find j (put conn r users))
put-Continues conn j r users h = elim (Bool-cases (conn == j)) [
  | inl same ↦
      let e : conn ≡ j = (==_iff conn j).0 same in
      subst (λ y. Continues (find j users) y) (sym (find-put conn j r users))
        (rw same (subst (λ k. Continues (find k users) r) e h))
  | inr apart ↦
      subst (λ y. Continues (find j users) y) (sym (find-put conn j r users))
        (rw apart (Continues-same (find j users)))
]

abbrev after : (GatewayUser → Option GatewayUser) → Option GatewayUser → Option GatewayUser
after f none = none
after f (some u) = f u

find-sweep :
    (f : ℕ → GatewayUser → Session) (j : ℕ) (users : Users)
    → Distinct users
    → find j (sweep f users).0 ≡ after (λ u. (f j u).0) (find j users)
unfolding find sweep
find-sweep f j [] d = refl
find-sweep f j ((conn, u) ∷ users) d =
    let ih = find-sweep f j users d.1 in
    elim (Bool-cases (conn == j)) [
      | inl same ↦
          let e : conn ≡ j = (==_iff conn j).0 same in
          let gone : find j users ≡ none = subst (λ k. find k users ≡ none) e d.0 in
          let left : find j (sweep f users).0 ≡ none = rw gone at ih in
          elim (Option-cases (f conn u).0) [
            | inl r ↦
                let r' : (f j u).0 ≡ none = subst (λ k. (f k u).0 ≡ none) e r in
                rw (r, same, r') left
            | inr (v, r) ↦
                let r' : (f j u).0 ≡ some v = subst (λ k. (f k u).0 ≡ some v) e r in
                rw (r, same, r') refl
          ]
      | inr apart ↦ elim (Option-cases (f conn u).0) [
        | inl r ↦ rw (r, apart) ih
        | inr (v, r) ↦ rw (r, apart) ih
      ]
    ]

pub sweep-Distinct :
    (f : ℕ → GatewayUser → Session) (users : Users) → Distinct users → Distinct (sweep f users).0
unfolding sweep
sweep-Distinct f [] d = tt
sweep-Distinct f ((conn, u) ∷ users) d =
    let gone : find conn (sweep f users).0 ≡ none =
      find-sweep f conn users d.1 ∙ ap (after (λ v. (f conn v).0)) d.0 in
    elim (Option-cases (f conn u).0) [
      | inl r ↦ rw r (sweep-Distinct f users d.1)
      | inr (v, r) ↦ rw r (gone, sweep-Distinct f users d.1)
    ]

-- A sweep that only removes leaves the others as they are.
abbrev Removes : (ℕ → GatewayUser → Session) → Type 0
Removes f = (conn : ℕ) (u : GatewayUser) → ((f conn u).0 ≡ none) ⊎ ((f conn u).0 ≡ some u)

sweep_auth-Removes : (l : Links) → Removes (sweep_auth l)
unfolding sweep_auth
sweep_auth-Removes l conn u = elim (Bool-cases (is_auth_late l.now_ms u)) [
  | inl late ↦ rw late (inl refl)
  | inr early ↦ rw early (inr refl)
]

sweep_silent-Removes : (l : Links) → Removes (sweep_silent l)
unfolding sweep_silent
sweep_silent-Removes l conn u = elim (Bool-cases (is_silent l.now_ms u)) [
  | inl late ↦ rw late (inl refl)
  | inr early ↦ rw early (inr refl)
]

removed-Continues :
    (f : ℕ → GatewayUser → Session) (j : ℕ) (x y : Option GatewayUser)
    → Removes f
    → Continues x y
    → Continues x (after (λ u. (f j u).0) y)
removed-Continues f j x none k h = h
removed-Continues f j x (some u) k h = elim (k j u) [
  | inl gone ↦ rw gone (ends x)
  | inr left ↦ rw left h
]

-- A session that is swept away in the first or the last sweep, or is stuck in the second.
swept-Continues :
    (l : Links) (j : ℕ) (x : Option GatewayUser)
    → Continues x (
        after
          (λ u. (sweep_silent l j u).0)
          (after (λ u. (sweep_entering l j u).0) (after (λ u. (sweep_auth l j u).0) x)))
swept-Continues l j none = tt
swept-Continues l j (some u) =
    removed-Continues (sweep_silent l) j (some u) _ (sweep_silent-Removes l)
      (elim (sweep_auth-Removes l j u) [
        | inl gone ↦ rw gone tt
        | inr left ↦ rw left (sweep_entering-Follows l j u)
      ])

pub check_timeout-Continues :
    (l : Links) (j : ℕ) (users : Users)
    → Distinct users
    → Continues (find j users) (find j (check_timeout l users).0)
unfolding check_timeout
check_timeout-Continues l j users d =
    let one = (sweep (sweep_auth l) users).0 in
    let two = (sweep (sweep_entering l) one).0 in
    let d1 = sweep-Distinct (sweep_auth l) users d in
    let d2 = sweep-Distinct (sweep_entering l) one d1 in
    let e =
      find-sweep (sweep_silent l) j two d2
      ∙ (ap (after (λ u. (sweep_silent l j u).0)) (find-sweep (sweep_entering l) j one d1)
          ∙ ap (λ x. after (λ u. (sweep_silent l j u).0) (after (λ u. (sweep_entering l j u).0) x))
              (find-sweep (sweep_auth l) j users d)) in
    subst (Continues (find j users)) (sym e) (swept-Continues l j (find j users))
