-- ===== src/Api/Sessions.antt =====
-- api/routes/auth.py: registration and the three ways to a session. The random parts, a salt and a
-- token's id, are arguments.
pub mod Google
pub mod Login
use eu_rag.Base.{ℕ, String, Bool, true, false, not, ◌&&◌, Option, none, some, if◌then◌else◌}
use eu_rag.Base.Text.{Unicode, is_empty}
use eu_rag.Auth.{Principal, AuthStore, Result, done, auth_error}
use eu_rag.Auth.Accounts
use eu_rag.Auth.Accounts.{Hashing, authenticate, upsert_google_user}
use eu_rag.Auth.Tokens
use eu_rag.Auth.Tokens.{Tokens, issue_tokens}
use eu_rag.Security.Turnstile.{verify}
use eu_rag.Security.Google.{Decode, GoogleClaims, Verified, verified, google_error, verify_id_token}
use eu_rag.Api.{App, Reply, response, http_error, llm_error, server_error}

-- the name and the role that a registration answers with
abbrev pub Registered : Type 0
Registered = String × String

abbrev pub or_text : Option String → String
or_text none = ""
or_text (some s) = s

module _ (h : Hashing) {F V : Type 0} (app : App F V) where
  unfoldable pub registered : Result Principal × AuthStore → Reply Registered × AuthStore
  registered (done p, s) = (response (p.username, p.role), s)
  registered (auth_error e, s) = (http_error 422 e, s)

  -- of a request with its Turnstile token and the address of the client
  unfoldable pub register_route :
      ℕ
      → String
      → String
      → String
      → Option String
      → String
      → AuthStore
      → Reply Registered × AuthStore
  unfolding registered
  register_route now salt username password token ip s =
      if not app.auth_enabled
      then (http_error 404 "auth is disabled on this instance", s)
      else if not (is_empty app.settings.turnstile_secret)
          && not (verify app.siteverify token app.settings.turnstile_secret ip)
      then (http_error 403 "turnstile_failed", s)
      else registered (Accounts.register h now salt username password s)

  -- `issue_tokens`, of the principal that an operation has come to
  pub issued : ℕ → String → Principal → AuthStore → Reply Tokens × AuthStore
  issued now jti p s = let (tokens, s') = issue_tokens app.jwt now jti p s in (response tokens, s')

  logged_in : ℕ → String → Result Principal × AuthStore → Reply Tokens × AuthStore
  unfolding issued
  logged_in now jti (done p, s) = issued now jti p s
  logged_in now jti (auth_error e, s) = (http_error 401 "invalid credentials", s)

  unfoldable pub login_route : ℕ → String → String → String → AuthStore → Reply Tokens × AuthStore
  unfolding logged_in
  login_route now jti username password s =
      if not app.auth_enabled
      then (http_error 404 "auth is disabled on this instance", s)
      else logged_in now jti (authenticate h now username password s)

  -- an AuthError of `upsert_google_user` is not caught
  google_session : ℕ → String → Result Principal × AuthStore → Reply Tokens × AuthStore
  unfolding issued
  google_session now jti (done p, s) = issued now jti p s
  google_session now jti (auth_error e, s) = (server_error, s)

  google_checked : ℕ → String → String → Verified → AuthStore → Reply Tokens × AuthStore
  unfolding google_session
  google_checked now salt jti (google_error e) s = (http_error 401 e, s)
  google_checked now salt jti (verified c) s =
      google_session now jti
        (upsert_google_user h.unicode now salt (or_text c.sub) (or_text c.email) (or_text c.name) s)

  unfoldable pub google_route :
      Decode → String → ℕ → String → String → String → AuthStore → Reply Tokens × AuthStore
  unfolding google_checked
  google_route decode client_id now salt jti credential s =
      if not app.auth_enabled
      then (http_error 404 "auth is disabled on this instance", s)
      else if is_empty client_id
      then (http_error 503 "google_disabled", s)
      else google_checked now salt jti (verify_id_token decode credential client_id) s

module _ {F V : Type 0} (app : App F V) where
  refreshed : Result Tokens × AuthStore → Reply Tokens × AuthStore
  refreshed (done tokens, s) = (response tokens, s)
  refreshed (auth_error e, s) = (http_error 401 e, s)

  unfoldable pub refresh_route : ℕ → String → String → AuthStore → Reply Tokens × AuthStore
  unfolding refreshed
  refresh_route now jti refresh_token s =
      if not app.auth_enabled
      then (http_error 404 "auth is disabled on this instance", s)
      else refreshed (Tokens.refresh app.jwt now jti refresh_token s)
