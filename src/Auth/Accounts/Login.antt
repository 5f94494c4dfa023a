-- ===== src/Auth/Accounts/Login.antt =====
-- A registration, and the login of the account that it makes, by core/security/auth.py.
use eu_rag.Base.{ℕ, ◌≡◌, refl, String, false, Option, none, some, eq_refl, arith, is_some}
use eu_rag.Base.Text.{is_empty, strip}
use eu_rag.Sql.{insert, find-insert_hit}
use eu_rag.Auth.{Principal, User, AuthStore, done, is_user, principal_of, user_exists, audit}
use eu_rag.Auth.Accounts.{Hashing, new_user, role_for, register, check_password, authenticate}

-- the row of a registration
abbrev registered_row : Hashing → ℕ → String → String → String → AuthStore → User
registered_row h now salt username password s =
    new_user now (h.unicode.lower (strip h.unicode username)) salt (h.hash salt password)
      (role_for s.users)

-- the table of users after it
register-users :
    (h : Hashing) (now : ℕ) (salt username password : String) (s : AuthStore) (p : Principal)
    → (register h now salt username password s).0 ≡ done p
    → (user_exists (h.unicode.lower (strip h.unicode username)) s ≡ false)
      × (p ≡ principal_of (registered_row h now salt username password s))
      × ((register h now salt username password s).1.users
          ≡ insert (registered_row h now salt username password s) s.users)
unfolding register audit
register-users h now salt username password s p e = (ground arith, ground arith, ground arith)

is_some-none : {A : Type 0} (o : Option A) → is_some o ≡ false → o ≡ none
is_some-none none e = refl
is_some-none (some a) e = cc

check_password-done :
    (h : Hashing) (now : ℕ) (username password : String) (row : User) (s : AuthStore)
    → is_empty row.pw_hash ≡ false
    → h.hash row.salt password ≡ row.pw_hash
    → (check_password h now username password (some row) s).0 ≡ done (principal_of row)
unfolding check_password
check_password-done h now username password row s has_hash matches =
    rw (has_hash, matches, eq_refl row.pw_hash) refl

-- Who has registered can log in with the same name and password, as the account of the registration.
pub register-authenticate :
    (h : Hashing) (now later : ℕ) (salt username password : String) (s : AuthStore) (p : Principal)
    → is_empty (h.hash salt password) ≡ false
    → (register h now salt username password s).0 ≡ done p
    → (authenticate h later username password (register h now salt username password s).1).0
      ≡ done p
unfolding authenticate user_exists new_user
register-authenticate h now later salt username password s p hashed e =
    let name = h.unicode.lower (strip h.unicode username) in
    let row = registered_row h now salt username password s in
    let (free, owner, stored) = register-users h now salt username password s p e in
    let found = find-insert_hit (is_user name) row s.users (is_some-none _ free) (eq_refl name) in
    rw (stored, found, owner)
      (check_password-done h later username password row (register h now salt username password s).1
        hashed refl)

pub register-tenant :
    (h : Hashing) (now : ℕ) (salt username password : String) (s : AuthStore) (p : Principal)
    → (register h now salt username password s).0 ≡ done p
    → p.tenant ≡ p.username
unfolding new_user
register-tenant h now salt username password s p e =
    let (free, owner, stored) = register-users h now salt username password s p e in rw owner refl
