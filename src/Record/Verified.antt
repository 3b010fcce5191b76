-- ===== src/Record/Verified.antt =====
-- What becomes of the login tokens that a Gateway gives to RecordServer/RecordServer.cpp.
use rpg_server.Base.{
  ℕ, ◌+◌, ◌≡◌, refl, ap, inl, inr, true, false, ◌&&◌, none, List, [], ◌∷◌, ◌++◌, arith, ◌==◌,
  Option-cases, nat_eq, Table, find, erase, Distinct, insert-Distinct, erase-Distinct, total,
  total-insert, total-erase, erase-insert,
}
use rpg_server.Outbox.Owed.{one_if}
use rpg_server.Record.Tokens.{
  PendingVerifyToken, Reply, Tokens, next_seq, on_validate_token_req, on_login_verify_token_rsp,
  expired_seqs, expire_each, cleanup_pending_verify_token_timeout, fail_all,
  fail_all_pending_verify_tokens, Call, validates, verified, cleans, loses_super, serve,
}

-- A connection of a Gateway, and a client of it.
module _ (conn : ℕ) (client : ℕ) where
  abbrev pub is_of : PendingVerifyToken → ℕ
  is_of p = one_if (p.reply_conn == conn && p.gateway_conn_id == client)

  -- The tokens of the client that are being verified, the replies to it, and what it asks for.
  abbrev pub waiting : Tokens → ℕ
  waiting t = total is_of t.pending_verify_token

  abbrev pub replies : List Reply → ℕ
  replies [] = 0
  replies ((c, rsp) ∷ out) = one_if (c == conn && rsp.gateway_conn_id == client) + replies out

  abbrev pub asks : Call → ℕ
  asks (validates now sent c g) = one_if (c == conn && g == client)
  asks _ = 0

  replies-append : (xs ys : List Reply) → replies (xs ++ ys) ≡ replies xs + replies ys
  replies-append [] ys = omega arith
  replies-append (x ∷ xs) ys = omega (arith, replies-append xs ys)

  each_conserves :
      (seqs : List ℕ) (t : Tokens)
      → Distinct t.pending_verify_token
      → waiting (expire_each seqs t).0 + replies (expire_each seqs t).1 ≡ waiting t
  unfolding expire_each
  each_conserves [] t w = omega arith
  each_conserves (seq ∷ seqs) t w =
      let table = t.pending_verify_token in
      elim (Option-cases (find seq table)) [
        | inl e ↦ rw (e, expire_each) (each_conserves seqs t w)
        | inr (p, e) ↦
            let rest =
              each_conserves seqs (record t { pending_verify_token = erase seq table })
                (erase-Distinct seq table w) in
            let one = rw e at (total-erase is_of seq table w) in
            rw (e, expire_each) (omega (arith, rest, one))
      ]

  all_conserves : (m : Table ℕ PendingVerifyToken) → replies (fail_all m) ≡ total is_of m
  unfolding fail_all total
  all_conserves [] = refl
  all_conserves ((seq, p) ∷ m) = omega (arith, all_conserves m)

-- The number of a new request is not in use.
abbrev pub IsNew : Tokens → Call → Type 0
IsNew t (validates now sent c g) = find (next_seq t) t.pending_verify_token ≡ none
IsNew t _ = Unit {0}

each-Distinct :
    (seqs : List ℕ) (t : Tokens)
    → Distinct t.pending_verify_token
    → Distinct (expire_each seqs t).0.pending_verify_token
unfolding expire_each
each-Distinct [] t w = w
each-Distinct (seq ∷ seqs) t w = elim (Option-cases (find seq t.pending_verify_token)) [
  | inl e ↦ rw (e, expire_each) (each-Distinct seqs t w)
  | inr (p, e) ↦
      rw (e, expire_each) (each-Distinct seqs _ (erase-Distinct seq t.pending_verify_token w))
]

serve-Distinct :
    (t : Tokens) (c : Call)
    → Distinct t.pending_verify_token
    → Distinct (serve t c).0.pending_verify_token
unfolding on_validate_token_req on_login_verify_token_rsp cleanup_pending_verify_token_timeout
    fail_all_pending_verify_tokens
serve-Distinct t (validates now true conn client) w =
    insert-Distinct (next_seq t) _ t.pending_verify_token w
serve-Distinct t (validates now false conn client) w =
    erase-Distinct (next_seq t) _ (insert-Distinct (next_seq t) _ t.pending_verify_token w)
serve-Distinct t (verified rsp) w =
    elim (Option-cases (find rsp.request_seq t.pending_verify_token)) [
      | inl e ↦ rw (e, on_login_verify_token_rsp) w
      | inr (p, e) ↦
          rw (e, on_login_verify_token_rsp)
            (erase-Distinct rsp.request_seq t.pending_verify_token w)
    ]
serve-Distinct t (cleans now) w = each-Distinct (expired_seqs now t.pending_verify_token) t w
serve-Distinct t loses_super w = tt

module _ (conn : ℕ) (client : ℕ) where
  serve_conserves :
      (t : Tokens) (c : Call)
      → IsNew t c
      → Distinct t.pending_verify_token
      → waiting conn client (serve t c).0 + replies conn client (serve t c).1
        ≡ waiting conn client t + asks conn client c
  unfolding on_validate_token_req on_login_verify_token_rsp cleanup_pending_verify_token_timeout
      fail_all_pending_verify_tokens total
  serve_conserves t (validates now true c g) new w =
      let p : PendingVerifyToken = record {
        reply_conn = c;
        gateway_conn_id = g;
        created_at_ms = now;
      } in
      let sum =
        rw new at (total-insert (is_of conn client) (next_seq t) p t.pending_verify_token) in
      omega (arith, sum)
  serve_conserves t (validates now false c g) new w =
      let p : PendingVerifyToken = record {
        reply_conn = c;
        gateway_conn_id = g;
        created_at_ms = now;
      } in
      let same =
        rw new at (total-erase (is_of conn client) (next_seq t) t.pending_verify_token w) in
      omega (
        arith,
        same,
        ap (total (is_of conn client)) (erase-insert (next_seq t) p t.pending_verify_token),
      )
  serve_conserves t (verified rsp) new w =
      elim (Option-cases (find rsp.request_seq t.pending_verify_token)) [
        | inl e ↦ rw (e, on_login_verify_token_rsp) (omega arith)
        | inr (p, e) ↦
            let one =
              rw e at (total-erase (is_of conn client) rsp.request_seq t.pending_verify_token w) in
            rw (e, on_login_verify_token_rsp) (omega (arith, one))
      ]
  serve_conserves t (cleans now) new w =
      omega (arith, each_conserves conn client (expired_seqs now t.pending_verify_token) t w)
  serve_conserves t loses_super new w =
      omega (arith, all_conserves conn client t.pending_verify_token)

abbrev pub run : Tokens → List Call → Tokens × List Reply
run t [] = (t, [])
run t (c ∷ calls) = let (t', out) = serve t c in let rest = run t' calls in (rest.0, out ++ rest.1)

abbrev pub AllNew : Tokens → List Call → Type 0
AllNew t [] = Unit {0}
AllNew t (c ∷ calls) = IsNew t c × AllNew (serve t c).0 calls

module _ (conn : ℕ) (client : ℕ) where
  abbrev pub all_asks : List Call → ℕ
  all_asks [] = 0
  all_asks (c ∷ calls) = asks conn client c + all_asks calls

  -- Over any requests, answers, timers and losses of the connection to SuperServer, each request under a
  -- number that is not in use, the replies to a client of a Gateway's connection and its tokens that are
  -- still being verified are as many as the tokens that it gave and those being verified at the start:
  -- every token is answered exactly once, or still being verified.
  pub run_verifies :
      (t : Tokens) (calls : List Call)
      → Distinct t.pending_verify_token
      → AllNew t calls
      → waiting conn client (run t calls).0 + replies conn client (run t calls).1
        ≡ waiting conn client t + all_asks calls
  run_verifies t [] w new = omega arith
  run_verifies t (c ∷ calls) w new =
      let (t', out) = serve t c in
      omega (
        arith,
        serve_conserves conn client t c new.0 w,
        run_verifies t' calls (serve-Distinct t c w) new.1,
        replies-append conn client out (run t' calls).1,
      )
