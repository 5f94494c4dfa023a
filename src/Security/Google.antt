-- ===== src/Security/Google.antt =====
-- core/security/google_oauth.py: which of Google's id tokens are a login. PyJWT, with the fetch of
-- the signing key, is the parameter `decode`: none where it raises for any reason.
use eu_rag.Base.{String, Bool, true, false, not, ◌||◌, ◌==◌, Option, none, some, if◌then◌else◌}
use eu_rag.Base.Text.{is_empty}

-- the claims that the program reads; `email_verified` is the claim's truth value
pub record GoogleClaims : Type 0 where
  pub iss : Option String
  pub sub : Option String
  pub email : Option String
  pub name : Option String
  pub email_verified : Bool

-- `jwt.decode` of a credential with RS256, Google's key, a client id as the audience, and the
-- five claims required
abbrev pub Decode : Type 0
Decode = String → String → Option GoogleClaims

-- the claims, or the GoogleAuthError; of a message that quotes, only the fixed part is kept
pub data Verified : Type 0 where
  verified : GoogleClaims → Verified
  google_error : String → Verified

unfoldable pub is_google_issuer : Option String → Bool
is_google_issuer none = false
is_google_issuer (some iss) = iss == "accounts.google.com" || iss == "https://accounts.google.com"

-- not claims.get("sub")
unfoldable pub is_missing : Option String → Bool
is_missing none = true
is_missing (some s) = is_empty s

unfoldable pub check_claims : Option GoogleClaims → Verified
check_claims none = google_error "invalid Google credential"
check_claims (some c) =
    if not (is_google_issuer c.iss)
    then google_error "unexpected issuer"
    else if is_missing c.sub
    then google_error "credential carries no subject"
    else if not c.email_verified
    then google_error "that Google account has no verified email address"
    else verified c

unfoldable pub verify_id_token : Decode → String → String → Verified
verify_id_token decode credential client_id =
    if is_empty credential
    then google_error "no Google credential supplied"
    else if is_empty client_id
    then google_error "server has no Google client id configured"
    else check_claims (decode credential client_id)
