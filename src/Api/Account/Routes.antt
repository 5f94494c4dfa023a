-- ===== src/Api/Account/Routes.antt =====
-- The other routes of api/routes/account.py: the view of an account, its profile, and the model key
-- that it stores. `encrypt` is that of `app.state.cipher`, with the nonce that it draws.
pub mod Keys
use eu_rag.Base.{ℕ, String, Bool, true, false, not, Option, none, some, if◌then◌else◌}
use eu_rag.Base.Text.{Unicode, is_empty, has_prefix, strip}
use eu_rag.Profile.{BusinessProfile}
use eu_rag.Auth
use eu_rag.Auth.{Principal, AuthStore, audit}
use eu_rag.Quota.User
use eu_rag.Quota.User.{UserTable}
use eu_rag.Api.{App, Reply, response, http_error, llm_error, server_error}
use eu_rag.Api.Deps.{Tier, byok, free}

pub record AccountView : Type 0 where
  pub username : String
  pub role : String
  pub tier : Tier
  pub has_api_key : Bool
  pub byok_available : Bool
  pub free_limit : ℕ
  pub free_remaining : Option ℕ
  pub api_key_set_at : Option ℕ
  pub profile : Option BusinessProfile

-- the truth value of a stored key
abbrev pub is_key : Option String → Bool
is_key none = false
is_key (some enc) = not (is_empty enc)

has_key : Principal → Option AuthStore → Bool
has_key p none = false
has_key p (some store) = is_key (Auth.get_byok p.username store)

left_of : Principal → ℕ → Option UserTable → Option ℕ
left_of p limit none = none
left_of p limit (some table) = some (User.remaining p.username limit table)

set_at : Principal → Option AuthStore → Option ℕ
set_at p none = none
set_at p (some store) =
    if is_key (Auth.get_byok p.username store) then Auth.byok_set_at p.username store else none

stored_profile : Principal → Option AuthStore → Option BusinessProfile
stored_profile p none = none
stored_profile p (some store) = some (Auth.get_profile p.username store)

-- whether there is a cipher is an argument
unfoldable pub account : ℕ → Bool → Principal → Option AuthStore → Option UserTable → AccountView
unfolding has_key left_of set_at stored_profile
account limit has_cipher p auth quota = record {
  username = p.username;
  role = p.role;
  tier = if has_key p auth then byok else free;
  has_api_key = has_key p auth;
  byok_available = has_cipher;
  free_limit = limit;
  free_remaining = left_of p limit quota;
  api_key_set_at = set_at p auth;
  profile = stored_profile p auth;
}

unfoldable pub set_profile :
    BusinessProfile → Principal → Option AuthStore → Reply BusinessProfile × Option AuthStore
set_profile profile p none = (http_error 404 "auth is disabled on this instance", none)
set_profile profile p (some store) =
    (response profile, some (Auth.set_profile p.username profile store))

-- the tier and whether there is a key; without accounts, `None.set_byok` raises
abbrev pub KeyStatus : Type 0
KeyStatus = Tier × Bool

store_key : ℕ → String → Principal → Option AuthStore → Reply KeyStatus × Option AuthStore
store_key now encrypted p none = (server_error, none)
store_key now encrypted p (some store) = (
  response (byok, true),
  some (
      audit now p.username "account.byok_set" "" "" (Auth.set_byok now p.username encrypted store)),
)

unfoldable pub set_key :
    Unicode
    → Option (String → String)
    → ℕ
    → String
    → Principal
    → Option AuthStore
    → Reply KeyStatus × Option AuthStore
unfolding store_key
set_key u none now api_key p auth = (http_error 503 "key storage unavailable", auth)
set_key u (some encrypt) now api_key p auth =
    let key = strip u api_key in
    if not (has_prefix "sk-ant-" key)
    then (http_error 422 "that doesn't look like an Anthropic API key", auth)
    else store_key now (encrypt key) p auth

unfoldable pub clear_key : ℕ → Principal → Option AuthStore → Reply KeyStatus × Option AuthStore
clear_key now p none = (server_error, none)
clear_key now p (some store) = (
  response (free, false),
  some (audit now p.username "account.byok_cleared" "" "" (Auth.clear_byok p.username store)),
)
