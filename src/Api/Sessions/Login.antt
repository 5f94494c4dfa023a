-- ===== src/Api/Sessions/Login.antt =====
-- Sessions by a name and a password in api/routes/auth.py, up to the request that they authorise.
use eu_rag.Base.{
  ℕ, ◌+◌, ◌<◌, ◌≡◌, refl, sym, ap, subst, ◌∙◌, String, true, false, Option, some, arith, find,
}
use eu_rag.Base.Text.{Unicode, is_empty, strip}
use eu_rag.Auth.{
  Principal, User, AuthStore, Result, done, auth_error, is_user, principal_of, user_exists,
}
use eu_rag.Auth.Accounts.{Hashing, register, authenticate}
use eu_rag.Auth.Accounts.Login.{register-authenticate, register-tenant}
use eu_rag.Auth.Accounts.Laws.{authenticate-password}
use eu_rag.Auth.Tokens.Laws.{issue_tokens-verify_access}
use eu_rag.Auth.Tokens.{Claims, access_ttl, Tokens, IsTokenOf, issue_tokens, verify_access}
use eu_rag.Api.{App, response}
use eu_rag.Api.Deps.{after_blank, is_bearer, bearer, still_exists, current_principal}
use eu_rag.Api.Sessions.{Registered, registered, register_route, issued, logged_in, login_route}

module _ {F V : Type 0} (app : App F V) where
  -- a bearer token of an account that exists
  verify_access-current_principal :
      (u : Unicode) (now : ℕ) (header token : String) (s : AuthStore) (p : Principal)
      → app.auth_enabled ≡ true
      → is_empty header ≡ false
      → is_bearer u app header ≡ true
      → strip u (after_blank header) ≡ token
      → verify_access app.jwt now token ≡ done p
      → user_exists p.username s ≡ true
      → current_principal u app now (some header) s ≡ response p
  unfolding current_principal bearer still_exists
  verify_access-current_principal u now header token s p enabled full prefixed carried known
        exists =
      rw (enabled, full, prefixed, carried, known, exists) refl

module _ (h : Hashing) {F V : Type 0} (app : App F V) where
  logged_in-issued :
      (now : ℕ) (jti : String) (r : Result Principal × AuthStore) (tokens : Tokens)
      → (logged_in h app now jti r).0 ≡ response tokens
      → (p : Principal) × (r.0 ≡ done p) × (tokens ≡ (issue_tokens app.jwt now jti p r.1).0)
  unfolding logged_in issued issue_tokens
  logged_in-issued now jti (done p, s) tokens e = (p, refl, cc)
  logged_in-issued now jti (auth_error m, s) tokens e = cc

  login_route-logged_in :
      (now : ℕ) (jti username password : String) (s : AuthStore) (tokens : Tokens)
      → (login_route h app now jti username password s).0 ≡ response tokens
      → (app.auth_enabled ≡ true)
        × ((logged_in h app now jti (authenticate h now username password s)).0 ≡ response tokens)
  unfolding login_route
  login_route-logged_in now jti username password s tokens e = (ground arith, ground arith)

  -- The access token of a login with a password identifies, until it expires and while the account
  -- exists, the account whose name and password were typed.
  pub login_route-current_principal :
      (now later : ℕ) (jti username password header : String) (s s' : AuthStore) (tokens : Tokens)
      (r : User)
      → ((c : Claims) → IsTokenOf app.jwt c (app.jwt.encode c))
      → later < now + access_ttl
      → find (is_user (h.unicode.lower (strip h.unicode username))) s.users ≡ some r
      → (login_route h app now jti username password s).0 ≡ response tokens
      → is_empty header ≡ false
      → is_bearer h.unicode app header ≡ true
      → strip h.unicode (after_blank header) ≡ tokens.access_token
      → user_exists r.username s' ≡ true
      → (current_principal h.unicode app later (some header) s' ≡ response (principal_of r))
        × (is_empty r.pw_hash ≡ false)
        × (h.hash r.salt password ≡ r.pw_hash)
  login_route-current_principal now later jti username password header s s' tokens r signed early
        there e full prefixed carried exists =
      let (enabled, answered) = login_route-logged_in now jti username password s tokens e in
      let (p, matched, made) =
        logged_in-issued now jti (authenticate h now username password s) tokens answered in
      let (r', found, same, has_hash, hashed) =
        authenticate-password h now username password s p matched in
      let same_row : r' ≡ r = cc in
      let owner : p ≡ principal_of r = cc in
      let known =
        issue_tokens-verify_access app.jwt now later jti p
          (authenticate h now username password s).1 tokens signed early made in
      (
        verify_access-current_principal app h.unicode later header tokens.access_token s'
            (principal_of r) enabled full prefixed carried (known ∙ ap done owner) exists,
        subst (λ x. is_empty x.pw_hash ≡ false) same_row has_hash,
        subst (λ x. h.hash x.salt password ≡ x.pw_hash) same_row hashed,
      )

  register_route-registered :
      (now : ℕ) (salt username password : String) (token : Option String) (ip : String)
      (s : AuthStore) (who : Registered)
      → (register_route h app now salt username password token ip s).0 ≡ response who
      → (app.auth_enabled ≡ true)
        × (register_route h app now salt username password token ip s
            ≡ registered h app (register h now salt username password s))
  unfolding register_route
  register_route-registered now salt username password token ip s who e =
      (ground arith, ground arith)

  registered-done :
      (r : Result Principal × AuthStore) (who : Registered)
      → (registered h app r).0 ≡ response who
      → (p : Principal) × (r.0 ≡ done p)
        × ((p.username, p.role) ≡ who)
        × ((registered h app r).1 ≡ r.1)
  unfolding registered
  registered-done (done p, s) who e = (p, refl, cc, refl)
  registered-done (auth_error m, s) who e = cc

  login_route-authenticate :
      (now : ℕ) (jti username password : String) (s : AuthStore) (p : Principal)
      → app.auth_enabled ≡ true
      → (authenticate h now username password s).0 ≡ done p
      → (login_route h app now jti username password s).0
        ≡ response (issue_tokens app.jwt now jti p (authenticate h now username password s).1).0
  unfolding login_route logged_in issued issue_tokens
  login_route-authenticate now jti username password s p enabled e = rw (enabled, e) refl

  -- A registration that is answered opens the account: a login with the same name and password
  -- then succeeds, and its access token is, until it expires, that of the name and the role that
  -- the registration gave, with the name as the tenant.
  pub register_route-login_route :
      (now entry later : ℕ) (salt jti username password : String) (token : Option String)
      (ip : String) (s : AuthStore) (who : Registered)
      → ((c : Claims) → IsTokenOf app.jwt c (app.jwt.encode c))
      → is_empty (h.hash salt password) ≡ false
      → later < entry + access_ttl
      → (register_route h app now salt username password token ip s).0 ≡ response who
      → (tokens : Tokens) × ((login_route h app entry jti username password
            (register_route h app now salt username password token ip s).1).0
          ≡ response tokens)
        × (verify_access app.jwt later tokens.access_token
            ≡ done (record { username = who.0; role = who.1; tenant = who.0 }))
  register_route-login_route now entry later salt jti username password token ip s who signed hashed
        early e =
      let r = register h now salt username password s in
      let (enabled, route) =
        register_route-registered now salt username password token ip s who e in
      let (p, opened, named, kept) = registered-done r who (ap (λ x. x.0) (sym route) ∙ e) in
      let entered = register-authenticate h now entry salt username password s p hashed opened in
      let after = ap (λ x. x.1) route ∙ kept in
      let own = register-tenant h now salt username password s p opened in
      let tokens =
        (issue_tokens app.jwt entry jti p (authenticate h entry username password r.1).1).0 in
      (
        tokens,
        subst (λ x. (login_route h app entry jti username password x).0 ≡ response tokens)
            (sym after)
            (login_route-authenticate entry jti username password r.1 p enabled entered),
        issue_tokens-verify_access app.jwt entry later jti p
              (authenticate h entry username password r.1).1 tokens signed early refl
            ∙ ap (λ t. done (record { username = p.username; role = p.role; tenant = t })) own
            ∙ ap (λ w. done (record { username = w.0; role = w.1; tenant = w.0 })) named,
      )
