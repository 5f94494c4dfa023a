-- ===== src/Auth/Tokens.antt =====
-- Tokens in core/security/auth.py. PyJWT is the parameter `Jwt`, with the server's secret.
pub mod Laws
use eu_rag.Base.{
  ℕ, suc, ◌+◌, ◌*◌, ◌≡◌, ◌<◌, String, Bool, true, false, ◌&&◌, not, Option, none, some, List, [],
  ◌∷◌, ◌==◌, ltb, eqb, if◌then◌else◌, find,
}
use eu_rag.Sql.{insert, update, row_count}
use eu_rag.Auth.{
  Principal, User, RefreshToken, AuthStore, Result, done, auth_error, is_user, principal_of, audit,
}

abbrev pub access_ttl : ℕ
access_ttl = 15 * 60

abbrev pub refresh_ttl : ℕ
refresh_ttl = 7 * 24 * 3600

-- The claims that `issue_tokens` signs; only they decode, since the secret is the server's.
pub data Claims : Type 0 where
  access : Principal → ℕ → Claims
  refresh_claims : String → String → ℕ → Claims

-- `exp`
abbrev pub expiry : Claims → ℕ
expiry (access p exp) = exp
expiry (refresh_claims sub jti exp) = exp

-- `jwt.encode`, and `jwt.decode` at a time: none is an `InvalidTokenError`.
pub record Jwt : Type 0 where
  pub encode : Claims → String
  pub decode : ℕ → String → Option Claims

-- What PyJWT documents of a signed token: it decodes to its claims until it expires.
abbrev pub IsTokenOf : Jwt → Claims → String → Type 0
IsTokenOf jwt c token =
    (now : ℕ) → jwt.decode now token ≡ (if ltb now (expiry c) then some c else none)

pub record Tokens : Type 0 where
  pub access_token : String
  pub refresh_token : String

-- WHERE jti = ? AND revoked = 0 AND expires_at > ?
abbrev pub is_live : ℕ → String → RefreshToken → Bool
is_live now jti t = t.jti == jti && not t.revoked && ltb now t.expires_at

abbrev pub revoke : RefreshToken → RefreshToken
revoke t = record t { revoked = true }

module _ (jwt : Jwt) where
  unfoldable pub issue_tokens : ℕ → String → Principal → AuthStore → Tokens × AuthStore
  issue_tokens now jti p s = (
    record {
      access_token = jwt.encode (access p (now + access_ttl));
      refresh_token = jwt.encode (refresh_claims p.username jti (now + refresh_ttl));
    },
    record s {
      refresh_tokens =
          insert
            (record {
              jti = jti;
              username = p.username;
              expires_at = now + refresh_ttl;
              revoked = false;
            })
            s.refresh_tokens;
    },
  )

  access_of : Option Claims → Result Principal
  access_of none = auth_error "invalid token"
  access_of (some (access p exp)) = done p
  access_of (some (refresh_claims sub jti exp)) = auth_error "not an access token"

  unfoldable pub verify_access : ℕ → String → Result Principal
  unfolding access_of
  verify_access now token = access_of (jwt.decode now token)

  -- below the UPDATE, which has spent the token
  rotate : ℕ → String → String → Option User → AuthStore → Result Tokens × AuthStore
  rotate now new_jti sub none s = (auth_error "user no longer exists", s)
  rotate now new_jti sub (some row) s =
      let (tokens, s') =
        issue_tokens now new_jti (principal_of row) (audit now sub "auth.refresh" "" "" s) in
      (done tokens, s')

  refresh_with : ℕ → String → Option Claims → AuthStore → Result Tokens × AuthStore
  unfolding rotate
  refresh_with now new_jti none s = (auth_error "invalid token", s)
  refresh_with now new_jti (some (access p exp)) s = (auth_error "not a refresh token", s)
  refresh_with now new_jti (some (refresh_claims sub jti exp)) s =
      let spent = record s { refresh_tokens = update (is_live now jti) revoke s.refresh_tokens } in
      if eqb (row_count (is_live now jti) s.refresh_tokens) 1
      then rotate now new_jti sub (find (is_user sub) s.users) spent
      else (
        auth_error "refresh token expired, revoked, or reused",
        audit now sub "auth.refresh_reuse_blocked" "" "" spent,
      )

  unfoldable pub refresh : ℕ → String → String → AuthStore → Result Tokens × AuthStore
  unfolding refresh_with
  refresh now new_jti token s = refresh_with now new_jti (jwt.decode now token) s
