-- ===== src/Auth/Steps.antt =====
-- The histories of the account store: every operation as a step, and what all of them keep.
use eu_rag.Base.{
  ℕ, ◌≤◌, ◌≡◌, ◌≢◌, refl, subst, sym, String, false, some, arith, ltb, ◌<◌, Bool-cases, inl, inr,
  ◌==◌,
}
use eu_rag.Sql.{All-delete}
use eu_rag.Profile.{BusinessProfile}
use eu_rag.Auth.{
  Principal, AuthStore, auth_error, is_user, audit, erase_user, set_byok, clear_byok, set_profile,
}
use eu_rag.Auth.Accounts.{Hashing, register, authenticate, upsert_google_user}
use eu_rag.Auth.Accounts.Laws.{
  AreAccounts, update-AreAccounts, delete-AreAccounts, register-AreAccounts,
  upsert_google_user-AreAccounts, authenticate-users, register-tokens, upsert_google_user-tokens,
}
use eu_rag.Auth.Tokens.{refresh_claims, Jwt, IsTokenOf, issue_tokens, is_live, refresh}
use eu_rag.Auth.Tokens.Laws.{
  IsSpent, insert-IsSpent, refresh-refused, refresh-IsSpent, refresh-keeps_IsSpent, refresh-users,
  refresh-undecoded,
}

-- `IsFresh` is what the new token ids, from `uuid4`, have in common.
pub data Step (jwt : Jwt) (h : Hashing) (IsFresh : String → Type 0)
    : AuthStore → AuthStore → Type 0 where
  registers :
      {s : AuthStore} (now : ℕ) (salt username password : String)
      → Step jwt h IsFresh s (register h now salt username password s).1
  logs_in :
      {s : AuthStore} (now : ℕ) (username password : String)
      → Step jwt h IsFresh s (authenticate h now username password s).1
  signs_in :
      {s : AuthStore} (now : ℕ) (salt sub email name : String)
      → Step jwt h IsFresh s (upsert_google_user h.unicode now salt sub email name s).1
  issues :
      {s : AuthStore} (now : ℕ) (jti : String) (p : Principal)
      → IsFresh jti
      → Step jwt h IsFresh s (issue_tokens jwt now jti p s).1
  refreshes :
      {s : AuthStore} (now : ℕ) (jti token : String)
      → IsFresh jti
      → Step jwt h IsFresh s (refresh jwt now jti token s).1
  erases :
      {s : AuthStore} (now : ℕ) (username : String)
      → Step jwt h IsFresh s (erase_user now username s)
  sets_key :
      {s : AuthStore} (now : ℕ) (username key : String)
      → Step jwt h IsFresh s (set_byok now username key s)
  clears_key : {s : AuthStore} (username : String) → Step jwt h IsFresh s (clear_byok username s)
  sets_profile :
      {s : AuthStore} (username : String) (profile : BusinessProfile)
      → Step jwt h IsFresh s (set_profile username profile s)
  audits :
      {s : AuthStore} (now : ℕ) (actor action resource detail : String)
      → Step jwt h IsFresh s (audit now actor action resource detail s)

pub data Reach (jwt : Jwt) (h : Hashing) (IsFresh : String → Type 0) (s : AuthStore)
    : AuthStore → Type 0 where
  here : Reach jwt h IsFresh s s
  next :
      {t t' : AuthStore}
      → Reach jwt h IsFresh s t
      → Step jwt h IsFresh t t'
      → Reach jwt h IsFresh s t'

module _ (jwt : Jwt) (h : Hashing) (IsFresh : String → Type 0) where
  Step-AreAccounts :
      {s s' : AuthStore} → Step jwt h IsFresh s s' → AreAccounts s.users → AreAccounts s'.users
  unfolding issue_tokens erase_user set_byok clear_byok set_profile audit
  Step-AreAccounts (registers {s} now salt username password) accounts =
      register-AreAccounts h now salt username password s accounts
  Step-AreAccounts (logs_in {s} now username password) accounts =
      subst AreAccounts (sym (authenticate-users h now username password s).0) accounts
  Step-AreAccounts (signs_in {s} now salt sub email name) accounts =
      upsert_google_user-AreAccounts h.unicode now salt sub email name s accounts
  Step-AreAccounts (issues now jti p fresh) accounts = accounts
  Step-AreAccounts (refreshes {s} now jti token fresh) accounts =
      subst AreAccounts (sym (refresh-users jwt now jti token s)) accounts
  Step-AreAccounts (erases {s} now username) accounts =
      delete-AreAccounts (is_user username) s.users accounts
  Step-AreAccounts (sets_key {s} now username key) accounts =
      update-AreAccounts (is_user username) _ s.users (λ r. refl) (λ r. refl) accounts
  Step-AreAccounts (clears_key {s} username) accounts =
      update-AreAccounts (is_user username) _ s.users (λ r. refl) (λ r. refl) accounts
  Step-AreAccounts (sets_profile {s} username profile) accounts =
      update-AreAccounts (is_user username) _ s.users (λ r. refl) (λ r. refl) accounts
  Step-AreAccounts (audits now actor action resource detail) accounts = accounts

  -- Whatever is done to a store in which no two accounts have one name, every account's tenant is
  -- its name, and none has the public corpus or the name of erased accounts: that stays so.
  pub Reach-AreAccounts :
      {s s' : AuthStore} → Reach jwt h IsFresh s s' → AreAccounts s.users → AreAccounts s'.users
  Reach-AreAccounts here accounts = accounts
  Reach-AreAccounts (next path step) accounts =
      Step-AreAccounts step (Reach-AreAccounts path accounts)

-- the new ids differ from one that is there
abbrev pub IsOther : String → String → Type 0
IsOther jti other = other ≢ jti

module _ (jwt : Jwt) (h : Hashing) (since : ℕ) (jti : String) where
  Step-IsSpent :
      {s s' : AuthStore}
      → Step jwt h (IsOther jti) s s'
      → IsSpent since jti s.refresh_tokens
      → IsSpent since jti s'.refresh_tokens
  unfolding issue_tokens erase_user set_byok clear_byok set_profile audit
  Step-IsSpent (registers {s} now salt username password) spent =
      subst (IsSpent since jti) (sym (register-tokens h now salt username password s)) spent
  Step-IsSpent (logs_in {s} now username password) spent =
      subst (IsSpent since jti) (sym (authenticate-users h now username password s).1) spent
  Step-IsSpent (signs_in {s} now salt sub email name) spent =
      subst (IsSpent since jti)
        (sym (upsert_google_user-tokens h.unicode now salt sub email name s)) spent
  Step-IsSpent (issues {s} now other p fresh) spent =
      insert-IsSpent since jti _ s.refresh_tokens fresh spent
  Step-IsSpent (refreshes {s} now other token fresh) spent =
      refresh-keeps_IsSpent jwt since now other token jti s fresh spent
  Step-IsSpent (erases {s} now username) spent =
      All-delete (λ t. is_live since jti t ≡ false) (λ t. t.username == username) s.refresh_tokens
        spent
  Step-IsSpent (sets_key now username key) spent = spent
  Step-IsSpent (clears_key username) spent = spent
  Step-IsSpent (sets_profile username profile) spent = spent
  Step-IsSpent (audits now actor action resource detail) spent = spent

  Reach-IsSpent :
      {s s' : AuthStore}
      → Reach jwt h (IsOther jti) s s'
      → IsSpent since jti s.refresh_tokens
      → IsSpent since jti s'.refresh_tokens
  Reach-IsSpent here spent = spent
  Reach-IsSpent (next path step) spent = Step-IsSpent step (Reach-IsSpent path spent)

-- Once a refresh token has been presented before it expired, whether that gave new tokens or not,
-- it is refused at every later time, whatever is done to the store in between, as long as the new
-- tokens have other ids.
pub refresh-once :
    (jwt : Jwt) (h : Hashing) (now later : ℕ) (token sub jti new_jti newer_jti : String) (exp : ℕ)
    (s s' : AuthStore)
    → IsTokenOf jwt (refresh_claims sub jti exp) token
    → now < exp
    → now ≤ later
    → new_jti ≢ jti
    → Reach jwt h (IsOther jti) (refresh jwt now new_jti token s).1 s'
    → (e : String) × ((refresh jwt later newer_jti token s').0 ≡ auth_error e)
refresh-once jwt h now later token sub jti new_jti newer_jti exp s s' sound valid in_order fresh
      path =
    let decoded : jwt.decode now token ≡ some (refresh_claims sub jti exp) =
      ground (arith, sound now) in
    let spent =
      Reach-IsSpent jwt h now jti path
        (refresh-IsSpent jwt now new_jti token sub jti exp s decoded fresh) in
    elim (Bool-cases (ltb later exp)) [
      | inl alive ↦ (
        _,
        refresh-refused jwt now later newer_jti token sub jti exp s' in_order
            (ground (arith, sound later)) spent,
      )
      | inr expired ↦
          (_, refresh-undecoded jwt later newer_jti token s' (ground (arith, sound later)))
    ]
