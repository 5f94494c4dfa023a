-- ===== src/Auth/Accounts.antt =====
-- Accounts in core/security/auth.py: registration, login and Google sign-in. The password hash and
-- the random salt are parameters.
pub mod Laws
pub mod Login
use Prim.Native.Char.{Char, code}
use Prim.Native.String
use eu_rag.Base.{
  ℕ, zero, suc, ◌+◌, String, Bool, true, false, ◌&&◌, ◌||◌, not, Option, none, some, List, [], ◌∷◌,
  ◌==◌, leb, ltb, eqb, if◌then◌else◌, find,
}
use eu_rag.Base.Text
use eu_rag.Base.Text.{Unicode, ◌<>◌, count, is_empty, strip, decimal}
use eu_rag.Sql.{insert, update}
use eu_rag.Profile.{empty_profile}
use eu_rag.Auth.{
  Principal, User, AuthStore, Result, done, auth_error, is_user, is_reserved, principal_of, audit,
  user_exists,
}

-- What the module takes from Python: its Unicode tables, and scrypt with a salt, in hexadecimal.
pub record Hashing : Type 0 where
  pub unicode : Unicode
  pub hash : String → String → String

-- username.replace("_", "") is alphanumeric
unfoldable pub all_alnum : Unicode → String → Bool
all_alnum u String.[] = true
all_alnum u (String.◌∷◌ c s) = (eqb (code c) b'_' || u.is_alnum c) && all_alnum u s

unfoldable pub has_alnum : String → Bool
has_alnum String.[] = false
has_alnum (String.◌∷◌ c s) = not (eqb (code c) b'_') || has_alnum s

unfoldable pub is_well_formed : Unicode → String → Bool
unfolding all_alnum has_alnum
is_well_formed u username =
    leb 3 (count username) && leb (count username) 40 && all_alnum u username && has_alnum username

-- "admin" for the first account
unfoldable pub role_for : List User → String
role_for [] = "admin"
role_for (r ∷ users) = "user"

unfoldable pub new_user : ℕ → String → String → String → String → User
new_user now username salt pw_hash role = record {
  username = username;
  salt = salt;
  pw_hash = pw_hash;
  role = role;
  tenant = username;
  created_at = now;
  byok_key_enc = none;
  byok_set_at = none;
  google_sub = none;
  email = none;
  profile = empty_profile;
}

unfoldable pub register :
    Hashing → ℕ → String → String → String → AuthStore → Result Principal × AuthStore
unfolding role_for new_user
register h now salt username password s =
    let name = h.unicode.lower (strip h.unicode username) in
    let role = role_for s.users in
    let row = new_user now name salt (h.hash salt password) role in
    if not (is_well_formed h.unicode name)
    then (auth_error "username: 3-40 chars, letters/digits/underscore", s)
    else if is_reserved name
    then (auth_error "that username is reserved", s)
    else if ltb (count password) 10
    then (auth_error "password must be at least 10 characters", s)
    else if user_exists name s
    then (auth_error "username already taken", s)
    else (
      done (principal_of row),
      audit now name "auth.register" "" role (record s { users = insert row s.users }),
    )

-- The comparison of a row with a password; an empty hash is a Google account's.
check_password :
    Hashing → ℕ → String → String → Option User → AuthStore → Result Principal × AuthStore
check_password h now username password none s =
    (auth_error "invalid credentials", audit now username "auth.login_failed" "" "" s)
check_password h now username password (some row) s =
    if is_empty row.pw_hash
    then (
      auth_error "invalid credentials",
      audit now username "auth.login_failed" "" "password login on a google account" s,
    )
    else if h.hash row.salt password == row.pw_hash
    then (done (principal_of row), audit now username "auth.login" "" "" s)
    else (auth_error "invalid credentials", audit now username "auth.login_failed" "" "" s)

-- The row is looked up by the folded name, and the audit log has the name as it was typed.
unfoldable pub authenticate :
    Hashing → ℕ → String → String → AuthStore → Result Principal × AuthStore
unfolding check_password
authenticate h now username password s =
    check_password h now username password
      (find (is_user (h.unicode.lower (strip h.unicode username))) s.users) s

before_at : String → String
before_at String.[] = ""
before_at (String.◌∷◌ c s) =
    let rest = before_at s in if eqb (code c) b'@' then "" else String.◌∷◌ c rest

or_else_text : String → String → String
or_else_text a b = if is_empty a then b else a

plain : Unicode → String → String
plain u String.[] = ""
plain u (String.◌∷◌ c s) =
    let rest = plain u s in
    let underscored = "_" <> rest in
    let taken = String.◌∷◌ c rest in
    if eqb (code c) b' '
    then underscored
    else if ltb (code c) 128 && (u.is_alnum c || eqb (code c) b'_')
    then taken
    else rest

-- `while len(base) < 3: base += "0"`
pad : String → String
pad String.[] = "000"
pad (String.◌∷◌ c String.[]) = String.◌∷◌ c "00"
pad (String.◌∷◌ c (String.◌∷◌ d String.[])) = String.◌∷◌ c (String.◌∷◌ d "0")
pad s = s

base_name : Unicode → String → String → String
unfolding before_at or_else_text plain pad
base_name u email name =
    let raw = or_else_text (or_else_text (before_at email) name) "user" in
    pad (Text.take 36 (or_else_text (plain u (u.lower raw)) "user"))

-- the first of the candidates base + n, base + (n + 1), … that is free
numbered : ℕ → ℕ → String → AuthStore → Option String
numbered zero n base s = none
numbered (suc more) n base s =
    let next = numbered more (n + 1) base s in
    let candidate = base <> decimal n in
    if is_reserved candidate || user_exists candidate s then next else some candidate

-- `_free_username`: the base itself, or with one of the suffixes 2 to 9999. None is an error.
pub free_username : Unicode → String → String → AuthStore → Option String
unfolding base_name numbered
free_username u email name s =
    let base = base_name u email name in
    let next = numbered 9998 2 base s in
    if is_reserved base || user_exists base s then next else some base

abbrev pub is_google : String → User → Bool
is_google sub r = elim r.google_sub [ none ↦ false | some g ↦ g == sub ]

given_email : String → Option String
given_email email = if is_empty email then none else some email

-- `if email and email != row["email"]`
is_new_email : String → Option String → Bool
is_new_email email none = not (is_empty email)
is_new_email email (some old) = not (is_empty email) && not (email == old)

google_register :
    ℕ → String → String → String → Option String → AuthStore → Result Principal × AuthStore
unfolding role_for new_user given_email
google_register now salt sub email none s = (auth_error "could not derive a free username", s)
google_register now salt sub email (some username) s =
    let role = role_for s.users in
    let row = record (new_user now username salt "" role) {
      google_sub = some sub;
      email = given_email email;
    } in
    (
      done (principal_of row),
      audit now username "auth.google_register" "" role (record s { users = insert row s.users }),
    )

google_login :
    Unicode
    → ℕ
    → String
    → String
    → String
    → String
    → Option User
    → AuthStore
    → Result Principal × AuthStore
unfolding google_register is_new_email
google_login u now salt sub email name none s =
    google_register now salt sub email (free_username u email name s) s
google_login u now salt sub email name (some row) s =
    let users =
      if is_new_email email row.email
      then update (is_user row.username) (λ r. record r { email = some email }) s.users
      else s.users in
    (
      done (principal_of row),
      audit now row.username "auth.google_login" "" "" (record s { users = users }),
    )

-- `name` is "" where Google gives none
unfoldable pub upsert_google_user :
    Unicode → ℕ → String → String → String → String → AuthStore → Result Principal × AuthStore
unfolding google_login
upsert_google_user u now salt sub email name s =
    google_login u now salt sub email name (find (is_google sub) s.users) s
