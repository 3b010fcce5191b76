-- ===== src/Record/Tokens.antt =====
-- The login tokens that RecordServer/RecordServer.cpp has LoginServer verify, by way of SuperServer.
-- Whether the connection to SuperServer takes a message is an argument.
use rpg_server.Base.{
  pos, ℕ, ◌+◌, Bool, not, none, some, List, [], ◌∷◌, leb, if◌then◌else◌, nat_eq, ℤ, Table, find,
  insert, erase, u32, sub64,
}

abbrev pub verify_token_timeout_ms : ℕ
verify_token_timeout_ms = 15000

pub record PendingVerifyToken : Type 0 where
  pub reply_conn : ℕ
  pub gateway_conn_id : ℕ
  pub created_at_ms : ℕ

pub record ValidateTokenRsp : Type 0 where
  pub code : ℤ
  pub accid : ℕ
  pub gateway_conn_id : ℕ

-- A REC_VALIDATE_TOKEN_RSP, with the connection that it goes to.
abbrev pub Reply : Type 0
Reply = ℕ × ValidateTokenRsp

pub record Tokens : Type 0 where
  pub login_verify_seq : ℕ
  pub pending_verify_token : Table ℕ PendingVerifyToken

pub record VerifyTokenRsp : Type 0 where
  pub request_seq : ℕ
  pub code : ℤ
  pub accid : ℕ

abbrev pub reply_to : PendingVerifyToken → ℤ → ℕ → Reply
reply_to p code accid =
    (p.reply_conn, record { code = code; accid = accid; gateway_conn_id = p.gateway_conn_id })

abbrev pub next_seq : Tokens → ℕ
next_seq t = u32 (t.login_verify_seq + 1)

-- onValidateTokenReq. The request that goes to LoginServer has the number `next_seq`.
unfoldable pub on_validate_token_req : ℕ → Bool → Tokens → ℕ → ℕ → Tokens × List Reply
on_validate_token_req now sent t conn client =
    let p : PendingVerifyToken = record {
      reply_conn = conn;
      gateway_conn_id = client;
      created_at_ms = now;
    } in
    let table = insert (next_seq t) p t.pending_verify_token in
    if not sent
    then (
      record { login_verify_seq = next_seq t; pending_verify_token = erase (next_seq t) table },
      reply_to p (pos 1) 0 ∷ [],
    )
    else (record { login_verify_seq = next_seq t; pending_verify_token = table }, [])

unfoldable pub on_login_verify_token_rsp : Tokens → VerifyTokenRsp → Tokens × List Reply
on_login_verify_token_rsp t rsp = elim (find rsp.request_seq t.pending_verify_token) [
  | none ↦ (t, [])
  | some p ↦ (
    record t { pending_verify_token = erase rsp.request_seq t.pending_verify_token },
    reply_to p rsp.code rsp.accid ∷ [],
  )
]

abbrev pub is_expired : ℕ → PendingVerifyToken → Bool
is_expired now p = leb verify_token_timeout_ms (sub64 now p.created_at_ms)

-- The two loops of CleanupPendingVerifyTokenTimeout.
unfoldable pub expired_seqs : ℕ → Table ℕ PendingVerifyToken → List ℕ
expired_seqs now [] = []
expired_seqs now ((seq, p) ∷ m) =
    let rest = expired_seqs now m in if is_expired now p then seq ∷ rest else rest

unfoldable pub expire_each : List ℕ → Tokens → Tokens × List Reply
expire_each [] t = (t, [])
expire_each (seq ∷ seqs) t = elim (find seq t.pending_verify_token) [
  | none ↦ expire_each seqs t
  | some p ↦
      let (t', out) =
        expire_each seqs (record t { pending_verify_token = erase seq t.pending_verify_token }) in
      (t', reply_to p (pos 1) 0 ∷ out)
]

unfoldable pub cleanup_pending_verify_token_timeout : ℕ → Tokens → Tokens × List Reply
unfolding expired_seqs expire_each
cleanup_pending_verify_token_timeout now t = expire_each (expired_seqs now t.pending_verify_token) t

-- failAllPendingVerifyTokens, which a lost connection to SuperServer leads to.
unfoldable pub fail_all : Table ℕ PendingVerifyToken → List Reply
fail_all [] = []
fail_all ((seq, p) ∷ m) = reply_to p (pos 1) 0 ∷ fail_all m

unfoldable pub fail_all_pending_verify_tokens : Tokens → Tokens × List Reply
unfolding fail_all
fail_all_pending_verify_tokens t =
    (record t { pending_verify_token = [] }, fail_all t.pending_verify_token)

pub data Call : Type 0 where
  validates : ℕ → Bool → ℕ → ℕ → Call
  verified : VerifyTokenRsp → Call
  cleans : ℕ → Call
  loses_super : Call

abbrev pub serve : Tokens → Call → Tokens × List Reply
serve t (validates now sent conn client) = on_validate_token_req now sent t conn client
serve t (verified rsp) = on_login_verify_token_rsp t rsp
serve t (cleans now) = cleanup_pending_verify_token_timeout now t
serve t loses_super = fail_all_pending_verify_tokens t
