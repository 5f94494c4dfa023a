-- ===== src/Auth.antt =====
-- core/security/auth.py: the state of `AuthStore` and the operations on a single row. A time is a
-- number of whole seconds.
pub mod Accounts
pub mod Tokens
pub mod Steps
pub mod Erasure
pub mod Log
use eu_rag.Base.{
  ℕ, ◌≡◌, String, Bool, true, false, ◌||◌, not, Option, none, some, List, [], ◌∷◌, ◌==◌,
  if◌then◌else◌, find, is_some, any, take, length, drop,
}
use eu_rag.Sql.{insert, update, delete}
use eu_rag.Profile.{BusinessProfile, empty_profile}
use eu_rag.Registry.{public_tenant}

pub record Principal : Type 0 where
  pub username : String
  pub role : String
  pub tenant : String

abbrev pub is_admin : Principal → Bool
is_admin p = p.role == "admin"

abbrev pub local_principal : Principal
local_principal = record { username = "local"; role = "admin"; tenant = "public" }

abbrev pub erased_actor : String
erased_actor = "deleted_account"

-- username in RESERVED_USERNAMES
unfoldable pub is_reserved : String → Bool
is_reserved username = username == public_tenant || username == erased_actor

pub record User : Type 0 where
  pub username : String
  pub salt : String
  pub pw_hash : String
  pub role : String
  pub tenant : String
  pub created_at : ℕ
  pub byok_key_enc : Option String
  pub byok_set_at : Option ℕ
  pub google_sub : Option String
  pub email : Option String
  pub profile : BusinessProfile

pub record RefreshToken : Type 0 where
  pub jti : String
  pub username : String
  pub expires_at : ℕ
  pub revoked : Bool

pub record AuditRow : Type 0 where
  pub ts : ℕ
  pub actor : String
  pub action : String
  pub resource : String
  pub detail : String

pub record AuthStore : Type 0 where
  pub users : List User
  pub refresh_tokens : List RefreshToken
  pub audit_rows : List AuditRow

-- How an operation ends: it returns, or it raises an `AuthError`. Either way it may have written.
pub data Result {ℓ} (A : Type ℓ) : Type ℓ where
  done : A → Result A
  auth_error : String → Result A

abbrev pub is_user : String → User → Bool
is_user username r = r.username == username

abbrev pub principal_of : User → Principal
principal_of r = record { username = r.username; role = r.role; tenant = r.tenant }

-- The audit log only ever grows.
unfoldable pub audit : ℕ → String → String → String → String → AuthStore → AuthStore
audit now actor action resource detail s = record s {
  audit_rows =
      insert
        (record { ts = now; actor = actor; action = action; resource = resource; detail = detail })
        s.audit_rows;
}

unfoldable pub user_exists : String → AuthStore → Bool
user_exists username s = is_some (find (is_user username) s.users)

-- UPDATE audit SET actor = ? WHERE actor = ?
pub pseudonymise : String → List AuditRow → List AuditRow
pseudonymise username rows =
    update (λ r. r.actor == username) (λ r. record r { actor = erased_actor }) rows

unfoldable pub erase_user : ℕ → String → AuthStore → AuthStore
unfolding pseudonymise
erase_user now username s = audit now erased_actor "account.erase" "" "" (record {
  users = delete (is_user username) s.users;
  refresh_tokens = delete (λ t. t.username == username) s.refresh_tokens;
  audit_rows = pseudonymise username s.audit_rows;
})

unfoldable pub set_byok : ℕ → String → String → AuthStore → AuthStore
set_byok now username encrypted s = record s {
  users =
      update (is_user username)
        (λ r. record r { byok_key_enc = some encrypted; byok_set_at = some now }) s.users;
}

unfoldable pub clear_byok : String → AuthStore → AuthStore
clear_byok username s = record s {
  users =
      update (is_user username) (λ r. record r { byok_key_enc = none; byok_set_at = none }) s.users;
}

abbrev byok_of : Option User → Option String
byok_of none = none
byok_of (some r) = r.byok_key_enc

unfoldable pub get_byok : String → AuthStore → Option String
get_byok username s = byok_of (find (is_user username) s.users)

abbrev set_at_of : Option User → Option ℕ
set_at_of none = none
set_at_of (some r) = r.byok_set_at

unfoldable pub byok_set_at : String → AuthStore → Option ℕ
byok_set_at username s = set_at_of (find (is_user username) s.users)

abbrev profile_of : Option User → BusinessProfile
profile_of none = empty_profile
profile_of (some r) = r.profile

unfoldable pub get_profile : String → AuthStore → BusinessProfile
get_profile username s = profile_of (find (is_user username) s.users)

unfoldable pub set_profile : String → BusinessProfile → AuthStore → AuthStore
set_profile username profile s = record s {
  users = update (is_user username) (λ r. record r { profile = profile }) s.users;
}
