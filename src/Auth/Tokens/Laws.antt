-- ===== src/Auth/Tokens/Laws.antt =====
-- Refresh tokens: each of them works once.
use eu_rag.Base.{
  ℕ, ◌+◌, ◌<◌, ◌≡◌, ◌≢◌, ◌≤◌, refl, String, Bool, false, Option, none, some, List, [], ◌∷◌, eq_iff,
  arith, find, All,
}
use eu_rag.Sql.{insert, update, row_count, All-insert, All-update}
use eu_rag.Auth.{User, RefreshToken, Principal, AuthStore, done, auth_error, is_user, audit}
use eu_rag.Auth.Tokens.{
  Claims, access, refresh_claims, access_ttl, Jwt, Tokens, IsTokenOf, issue_tokens, verify_access,
  is_live, revoke, refresh, refresh_with, rotate,
}

-- From a time on, no row is live with the token's id.
abbrev pub IsSpent : ℕ → String → List RefreshToken → Type 0
IsSpent since jti rows = All (λ t. is_live since jti t ≡ false) rows

pub insert-IsSpent :
    (since : ℕ) (jti : String) (t : RefreshToken) (rows : List RefreshToken)
    → t.jti ≢ jti
    → IsSpent since jti rows
    → IsSpent since jti (insert t rows)
insert-IsSpent since jti t rows other spent =
    All-insert (λ t. is_live since jti t ≡ false) t rows spent (ground (arith, eq_iff t.jti jti))

revoke-IsSpent :
    (since : ℕ) (jti : String) (p : RefreshToken → Bool) (rows : List RefreshToken)
    → IsSpent since jti rows
    → IsSpent since jti (update p revoke rows)
revoke-IsSpent since jti p rows spent =
    All-update (λ t. is_live since jti t ≡ false) p revoke rows (λ t dead. ground arith) spent

-- the UPDATE of a refresh leaves no live row of its token
update-IsSpent :
    (now : ℕ) (jti : String) (rows : List RefreshToken)
    → IsSpent now jti (update (is_live now jti) revoke rows)
update-IsSpent now jti [] = tt
update-IsSpent now jti (t ∷ rows) = (ground arith, update-IsSpent now jti rows)

no_live :
    (since now : ℕ) (jti : String) (rows : List RefreshToken)
    → since ≤ now
    → IsSpent since jti rows
    → row_count (is_live now jti) rows ≡ 0
no_live since now jti [] later spent = refl
no_live since now jti (t ∷ rows) later spent = ground (arith, no_live since now jti rows, spent.0)

module _ (jwt : Jwt) where
  -- A spent token is refused.
  pub refresh-refused :
      (since now : ℕ) (new_jti token sub jti : String) (exp : ℕ) (s : AuthStore)
      → since ≤ now
      → jwt.decode now token ≡ some (refresh_claims sub jti exp)
      → IsSpent since jti s.refresh_tokens
      → (refresh jwt now new_jti token s).0 ≡ auth_error "refresh token expired, revoked, or reused"
  unfolding refresh refresh_with
  refresh-refused since now new_jti token sub jti exp s later decoded spent =
      rw (decoded, no_live since now jti s.refresh_tokens later spent) refl

  rotate-IsSpent :
      (since now : ℕ) (new_jti sub jti : String) (o : Option User) (s : AuthStore)
      → new_jti ≢ jti
      → IsSpent since jti s.refresh_tokens
      → IsSpent since jti (rotate jwt now new_jti sub o s).1.refresh_tokens
  unfolding rotate issue_tokens audit
  rotate-IsSpent since now new_jti sub jti none s fresh spent = spent
  rotate-IsSpent since now new_jti sub jti (some row) s fresh spent =
      insert-IsSpent since jti _ s.refresh_tokens fresh spent

  refresh_with-IsSpent :
      (since now : ℕ) (new_jti jti : String) (o : Option Claims) (s : AuthStore)
      → new_jti ≢ jti
      → IsSpent since jti s.refresh_tokens
      → IsSpent since jti (refresh_with jwt now new_jti o s).1.refresh_tokens
  unfolding refresh_with audit
  refresh_with-IsSpent since now new_jti jti none s fresh spent = spent
  refresh_with-IsSpent since now new_jti jti (some (access p exp)) s fresh spent = spent
  refresh_with-IsSpent since now new_jti jti (some (refresh_claims sub other exp)) s fresh spent =
      ground (
        arith,
        revoke-IsSpent since jti (is_live now other) s.refresh_tokens spent,
        rotate-IsSpent since now new_jti sub jti (find (is_user sub) s.users)
            (record s { refresh_tokens = update (is_live now other) revoke s.refresh_tokens })
            fresh,
      )

  -- however a refresh of the token ends, the token is spent by it
  pub refresh-IsSpent :
      (now : ℕ) (new_jti token sub jti : String) (exp : ℕ) (s : AuthStore)
      → jwt.decode now token ≡ some (refresh_claims sub jti exp)
      → new_jti ≢ jti
      → IsSpent now jti (refresh jwt now new_jti token s).1.refresh_tokens
  unfolding refresh refresh_with audit
  refresh-IsSpent now new_jti token sub jti exp s decoded fresh = rw decoded (
      ground (
        arith,
        update-IsSpent now jti s.refresh_tokens,
        rotate-IsSpent now now new_jti sub jti (find (is_user sub) s.users)
            (record s { refresh_tokens = update (is_live now jti) revoke s.refresh_tokens }) fresh,
      ))

  rotate-users :
      (now : ℕ) (new_jti sub : String) (o : Option User) (s : AuthStore)
      → (rotate jwt now new_jti sub o s).1.users ≡ s.users
  unfolding rotate issue_tokens audit
  rotate-users now new_jti sub none s = refl
  rotate-users now new_jti sub (some row) s = refl

  refresh_with-users :
      (now : ℕ) (new_jti : String) (o : Option Claims) (s : AuthStore)
      → (refresh_with jwt now new_jti o s).1.users ≡ s.users
  unfolding refresh_with audit
  refresh_with-users now new_jti none s = refl
  refresh_with-users now new_jti (some (access p exp)) s = refl
  refresh_with-users now new_jti (some (refresh_claims sub jti exp)) s = ground (
    arith,
    rotate-users now new_jti sub (find (is_user sub) s.users)
        (record s { refresh_tokens = update (is_live now jti) revoke s.refresh_tokens }),
  )

  pub refresh-users :
      (now : ℕ) (new_jti token : String) (s : AuthStore)
      → (refresh jwt now new_jti token s).1.users ≡ s.users
  unfolding refresh
  refresh-users now new_jti token s = refresh_with-users now new_jti (jwt.decode now token) s

  pub refresh-keeps_IsSpent :
      (since now : ℕ) (new_jti token jti : String) (s : AuthStore)
      → new_jti ≢ jti
      → IsSpent since jti s.refresh_tokens
      → IsSpent since jti (refresh jwt now new_jti token s).1.refresh_tokens
  unfolding refresh
  refresh-keeps_IsSpent since now new_jti token jti s fresh spent =
      refresh_with-IsSpent since now new_jti jti (jwt.decode now token) s fresh spent

  pub refresh-undecoded :
      (now : ℕ) (new_jti token : String) (s : AuthStore)
      → jwt.decode now token ≡ none
      → (refresh jwt now new_jti token s).0 ≡ auth_error "invalid token"
  unfolding refresh refresh_with
  refresh-undecoded now new_jti token s e = rw e refl

  -- the access token is the principal's until it expires
  pub issue_tokens-verify_access :
      (now later : ℕ) (jti : String) (p : Principal) (s : AuthStore) (tokens : Tokens)
      → ((c : Claims) → IsTokenOf jwt c (jwt.encode c))
      → later < now + access_ttl
      → tokens ≡ (issue_tokens jwt now jti p s).0
      → verify_access jwt later tokens.access_token ≡ done p
  unfolding issue_tokens verify_access
  issue_tokens-verify_access now later jti p s tokens signed early made =
      rw (made, signed (access p (now + access_ttl)) later) (ground arith)
