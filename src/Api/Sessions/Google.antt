-- ===== src/Api/Sessions/Google.antt =====
-- Whom Google's sign-in gives a session by api/routes/auth.py.
use eu_rag.Base.{
  ℕ, ◌+◌, ◌<◌, ◌≡◌, ◌⊎◌, inl, inr, refl, ap, subst, String, true, false, Option, none, some, arith,
  find, Option-cases,
}
use eu_rag.Base.Text.{is_empty}
use eu_rag.Auth.{
  Principal, User, AuthStore, Result, done, auth_error, is_reserved, principal_of, user_exists,
}
use eu_rag.Auth.Accounts.{Hashing, upsert_google_user, is_google}
use eu_rag.Auth.Accounts.Laws.{upsert_google_user-isolated}
use eu_rag.Auth.Tokens.Laws.{issue_tokens-verify_access}
use eu_rag.Auth.Tokens.{Claims, access_ttl, Tokens, IsTokenOf, issue_tokens, verify_access}
use eu_rag.Security.Google.{
  Decode, GoogleClaims, Verified, verified, google_error, verify_id_token, check_claims,
  is_google_issuer, is_missing,
}
use eu_rag.Api.{App, response}
use eu_rag.Api.Sessions.{or_text, issued, google_session, google_checked, google_route}

-- what the program asks of Google's claims
abbrev pub IsTrusted : GoogleClaims → String → Type 0
IsTrusted c sub =
    (is_google_issuer c.iss ≡ true)
    × (c.sub ≡ some sub)
    × (is_empty sub ≡ false)
    × (c.email_verified ≡ true)

check_claims-IsTrusted :
    (o : Option GoogleClaims) (c : GoogleClaims)
    → check_claims o ≡ verified c
    → (sub : String) × (o ≡ some c) × IsTrusted c sub
unfolding check_claims is_missing
check_claims-IsTrusted none c e = cc
check_claims-IsTrusted (some d) c e = elim (Option-cases d.sub) [
  | inl missing ↦ ground arith
  | inr (sub, there) ↦ (sub, ground arith, (ground arith, ground arith, ground arith, ground arith))
]

verify_id_token-IsTrusted :
    (decode : Decode) (credential client_id : String) (c : GoogleClaims)
    → verify_id_token decode credential client_id ≡ verified c
    → (sub : String) × (decode credential client_id ≡ some c) × IsTrusted c sub
unfolding verify_id_token
verify_id_token-IsTrusted decode credential client_id c e =
    check_claims-IsTrusted (decode credential client_id) c (ground arith)

-- the account is one that is there and has the Google identity, or a new one of its own tenant
abbrev pub IsHeldBy : String → Principal → AuthStore → Type 0
IsHeldBy sub p s =
    ((r : User) × (find (is_google sub) s.users ≡ some r) × (p ≡ principal_of r))
    ⊎ ((find (is_google sub) s.users ≡ none)
        × (user_exists p.username s ≡ false)
        × (is_reserved p.username ≡ false)
        × (p.tenant ≡ p.username))

module _ (h : Hashing) {F V : Type 0} (app : App F V) where
  google_session-issued :
      (now : ℕ) (jti : String) (r : Result Principal × AuthStore) (tokens : Tokens)
      → (google_session h app now jti r).0 ≡ response tokens
      → (p : Principal) × (r.0 ≡ done p) × (tokens ≡ (issue_tokens app.jwt now jti p r.1).0)
  unfolding google_session issued issue_tokens
  google_session-issued now jti (done p, s) tokens e = (p, refl, cc)
  google_session-issued now jti (auth_error m, s) tokens e = cc

  google_checked-verified :
      (now : ℕ) (salt jti : String) (v : Verified) (s : AuthStore) (tokens : Tokens)
      → (google_checked h app now salt jti v s).0 ≡ response tokens
      → (c : GoogleClaims) × (p : Principal) × (s' : AuthStore) × (v ≡ verified c)
        × ((upsert_google_user h.unicode now salt
              (or_text c.sub)
              (or_text c.email)
              (or_text c.name)
              s).0
            ≡ done p)
        × (tokens ≡ (issue_tokens app.jwt now jti p s').0)
  unfolding google_checked
  google_checked-verified now salt jti (google_error m) s tokens e = cc
  google_checked-verified now salt jti (verified c) s tokens e =
      let r =
        upsert_google_user h.unicode now salt (or_text c.sub) (or_text c.email) (or_text c.name)
          s in
      let (p, reached, made) = google_session-issued now jti r tokens e in
      (c, p, r.1, refl, reached, made)

  google_route-checked :
      (decode : Decode) (client_id : String) (now : ℕ) (salt jti credential : String)
      (s : AuthStore) (tokens : Tokens)
      → (google_route h app decode client_id now salt jti credential s).0 ≡ response tokens
      → (google_checked h app now salt jti (verify_id_token decode credential client_id) s).0
        ≡ response tokens
  unfolding google_route
  google_route-checked decode client_id now salt jti credential s tokens e = ground arith

  -- Google's sign-in gives a session only for a credential that Google's checks have passed, with a
  -- Google issuer, a subject and a verified address; until it expires, its access token is that of
  -- the account with that subject, or else of a new account with a tenant of its own.
  pub google_route-IsVerified :
      (decode : Decode) (client_id : String) (now later : ℕ) (salt jti credential : String)
      (s : AuthStore) (tokens : Tokens)
      → ((c : Claims) → IsTokenOf app.jwt c (app.jwt.encode c))
      → later < now + access_ttl
      → (google_route h app decode client_id now salt jti credential s).0 ≡ response tokens
      → (c : GoogleClaims) × (sub : String) × (p : Principal) × (decode credential client_id
          ≡ some c)
        × IsTrusted c sub
        × IsHeldBy sub p s
        × (verify_access app.jwt later tokens.access_token ≡ done p)
  google_route-IsVerified decode client_id now later salt jti credential s tokens signed early e =
      let (c, p, s', passed, reached, made) =
        google_checked-verified now salt jti (verify_id_token decode credential client_id) s tokens
          (google_route-checked decode client_id now salt jti credential s tokens e) in
      let (sub, decoded, trusted) =
        verify_id_token-IsTrusted decode credential client_id c passed in
      let own =
        upsert_google_user-isolated h.unicode now salt (or_text c.sub) (or_text c.email)
          (or_text c.name) s p reached in
      (
        c,
        sub,
        p,
        decoded,
        trusted,
        subst (λ x. IsHeldBy x p s) (ap or_text trusted.1) own,
        issue_tokens-verify_access app.jwt now later jti p s' tokens signed early made,
      )
