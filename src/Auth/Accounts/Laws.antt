-- ===== src/Auth/Accounts/Laws.antt =====
-- Accounts own their tenants: the invariant of the table of users.
use eu_rag.Base.{
  ℕ, zero, suc, ◌+◌, ◌≡◌, ◌⊎◌, inl, inr, refl, String, Bool, true, false, ◌||◌, Option, none, some,
  List, eq_iff, arith, if◌then◌else◌, find, All, Option-cases,
}
use eu_rag.Base.Text.{Unicode, ◌<>◌, strip, decimal, is_empty}
use eu_rag.Sql.{insert, update, delete, All-insert, All-update, All-delete}
use eu_rag.Sql.Keys.{
  HasUniqueKeys, insert-HasUniqueKeys, update-HasUniqueKeys, delete-HasUniqueKeys,
}
use eu_rag.Auth.{
  Principal, User, AuthStore, done, is_user, is_reserved, principal_of, audit, user_exists,
}
use eu_rag.Auth.Accounts.{
  Hashing, new_user, role_for, register, check_password, authenticate, base_name, numbered,
  free_username, is_google, is_new_email, google_register, google_login, upsert_google_user,
}

-- The account's tenant is its own, and not one that the system uses.
abbrev pub IsPrivate : User → Type 0
IsPrivate r = (r.tenant ≡ r.username) × (is_reserved r.username ≡ false)

-- PRIMARY KEY username
abbrev pub same_account : User → User → Bool
same_account a b = is_user a.username b

abbrev pub AreAccounts : List User → Type 0
AreAccounts users = All IsPrivate users × HasUniqueKeys same_account users

same_account_symm : (a b : User) → same_account a b ≡ same_account b a
same_account_symm a b = ground (arith, eq_iff a.username b.username, eq_iff b.username a.username)

pub insert-AreAccounts :
    (r : User) (users : List User)
    → IsPrivate r
    → find (is_user r.username) users ≡ none
    → AreAccounts users
    → AreAccounts (insert r users)
insert-AreAccounts r users own free h = (
  All-insert IsPrivate r users h.0 own,
  insert-HasUniqueKeys same_account same_account_symm r users free h.1,
)

-- an UPDATE of other columns than the name and the tenant
pub update-AreAccounts :
    (p : User → Bool) (f : User → User) (users : List User)
    → ((r : User) → (f r).username ≡ r.username)
    → ((r : User) → (f r).tenant ≡ r.tenant)
    → AreAccounts users
    → AreAccounts (update p f users)
update-AreAccounts p f users names tenants h = (
  All-update IsPrivate p f users (λ r own. rw (names r, tenants r) own) h.0,
  update-HasUniqueKeys same_account p f (λ a b. rw (names b) refl) (λ a. rw (names a) refl) users
      h.1,
)

pub delete-AreAccounts :
    (p : User → Bool) (users : List User) → AreAccounts users → AreAccounts (delete p users)
delete-AreAccounts p users h =
    (All-delete IsPrivate p users h.0, delete-HasUniqueKeys same_account p users h.1)

user_exists-find :
    (name : String) (s : AuthStore)
    → user_exists name s ≡ false
    → find (is_user name) s.users ≡ none
unfolding user_exists
user_exists-find name s e = elim (Option-cases (find (is_user name) s.users)) [
  | inl miss ↦ miss
  | inr (r, hit) ↦ ground arith
]

abbrev IsFree : AuthStore → String → Type 0
IsFree s name = (is_reserved name ≡ false) × (user_exists name s ≡ false)

first-IsFree :
    (base : String) (next : Option String) (s : AuthStore) (name : String)
    → (next ≡ some name → IsFree s name)
    → (if is_reserved base || user_exists base s then next else some base) ≡ some name
    → IsFree s name
first-IsFree base next s name later e = ground arith

numbered-IsFree :
    (more n : ℕ) (base : String) (s : AuthStore) (name : String)
    → numbered more n base s ≡ some name
    → IsFree s name
unfolding numbered
numbered-IsFree zero n base s name e = cc
numbered-IsFree (suc more) n base s name e =
    first-IsFree (base <> decimal n) (numbered more (n + 1) base s) s name
      (numbered-IsFree more (n + 1) base s name) e

free_username-IsFree :
    (u : Unicode) (email full : String) (s : AuthStore) (name : String)
    → free_username u email full s ≡ some name
    → IsFree s name
unfolding free_username
free_username-IsFree u email full s name e =
    first-IsFree (base_name u email full) (numbered 9998 2 (base_name u email full) s) s name
      (numbered-IsFree 9998 2 (base_name u email full) s name) e

pub register-AreAccounts :
    (h : Hashing) (now : ℕ) (salt username password : String) (s : AuthStore)
    → AreAccounts s.users
    → AreAccounts (register h now salt username password s).1.users
unfolding register audit new_user
register-AreAccounts h now salt username password s accounts =
    let name = h.unicode.lower (strip h.unicode username) in
    ground (
      arith,
      insert-AreAccounts (new_user now name salt (h.hash salt password) (role_for s.users)) s.users,
      user_exists-find name s,
    )

google_register-AreAccounts :
    (now : ℕ) (salt sub email : String) (o : Option String) (s : AuthStore)
    → ((name : String) → o ≡ some name → IsFree s name)
    → AreAccounts s.users
    → AreAccounts (google_register now salt sub email o s).1.users
unfolding google_register audit new_user
google_register-AreAccounts now salt sub email none s free accounts = accounts
google_register-AreAccounts now salt sub email (some name) s free accounts =
    insert-AreAccounts _ s.users (refl, (free name refl).0)
      (user_exists-find name s (free name refl).1) accounts

google_login-AreAccounts :
    (u : Unicode) (now : ℕ) (salt sub email name : String) (o : Option User) (s : AuthStore)
    → AreAccounts s.users
    → AreAccounts (google_login u now salt sub email name o s).1.users
unfolding google_login audit
google_login-AreAccounts u now salt sub email name none s accounts =
    google_register-AreAccounts now salt sub email _ s (free_username-IsFree u email name s)
      accounts
google_login-AreAccounts u now salt sub email name (some row) s accounts =
    go (is_new_email email row.email)
  where
    go :
        (b : Bool)
        → AreAccounts (
            if b
            then update (is_user row.username) (λ r. record r { email = some email }) s.users
            else s.users)
    go true =
        update-AreAccounts (is_user row.username) (λ r. record r { email = some email }) s.users
          (λ r. refl) (λ r. refl) accounts
    go false = accounts

pub upsert_google_user-AreAccounts :
    (u : Unicode) (now : ℕ) (salt sub email name : String) (s : AuthStore)
    → AreAccounts s.users
    → AreAccounts (upsert_google_user u now salt sub email name s).1.users
unfolding upsert_google_user
upsert_google_user-AreAccounts u now salt sub email name s accounts =
    google_login-AreAccounts u now salt sub email name (find (is_google sub) s.users) s accounts

-- A Google identity signs in to the account that has it, or else to a new one: it never reaches an
-- account that is there, whatever its name and address are.
pub upsert_google_user-isolated :
    (u : Unicode) (now : ℕ) (salt sub email name : String) (s : AuthStore) (p : Principal)
    → (upsert_google_user u now salt sub email name s).0 ≡ done p
    → ((r : User) × (find (is_google sub) s.users ≡ some r) × (p ≡ principal_of r))
      ⊎ ((find (is_google sub) s.users ≡ none)
          × (user_exists p.username s ≡ false)
          × (is_reserved p.username ≡ false)
          × (p.tenant ≡ p.username))
unfolding upsert_google_user google_login google_register new_user
upsert_google_user-isolated u now salt sub email name s p e =
    elim (Option-cases (find (is_google sub) s.users)) [
      | inl miss ↦ elim (Option-cases (free_username u email name s)) [
        | inl taken ↦ ground arith
        | inr (fresh, free) ↦ ground (arith, free_username-IsFree u email name s fresh)
      ]
      | inr (r, hit) ↦ ground arith
    ]

pub authenticate-users :
    (h : Hashing) (now : ℕ) (username password : String) (s : AuthStore)
    → ((authenticate h now username password s).1.users ≡ s.users)
      × ((authenticate h now username password s).1.refresh_tokens ≡ s.refresh_tokens)
unfolding authenticate audit
authenticate-users h now username password s =
    go (find (is_user (h.unicode.lower (strip h.unicode username))) s.users)
  where
    go :
        (o : Option User)
        → ((check_password h now username password o s).1.users ≡ s.users)
          × ((check_password h now username password o s).1.refresh_tokens ≡ s.refresh_tokens)
    go none = (refl, refl)
    go (some row) = ground arith

-- Who logs in has typed the password of the account of that name, and the account has one.
pub authenticate-password :
    (h : Hashing) (now : ℕ) (username password : String) (s : AuthStore) (p : Principal)
    → (authenticate h now username password s).0 ≡ done p
    → (r : User) × (find (is_user (h.unicode.lower (strip h.unicode username))) s.users ≡ some r)
      × (p ≡ principal_of r)
      × (is_empty r.pw_hash ≡ false)
      × (h.hash r.salt password ≡ r.pw_hash)
unfolding authenticate check_password
authenticate-password h now username password s p e =
    elim (Option-cases (find (is_user (h.unicode.lower (strip h.unicode username))) s.users)) [
      | inl miss ↦ ground arith
      | inr (r, hit) ↦ (
        r,
        hit,
        ground arith,
        ground arith,
        ground (arith, eq_iff (h.hash r.salt password) r.pw_hash),
      )
    ]

pub register-tokens :
    (h : Hashing) (now : ℕ) (salt username password : String) (s : AuthStore)
    → (register h now salt username password s).1.refresh_tokens ≡ s.refresh_tokens
unfolding register audit
register-tokens h now salt username password s = ground arith

google_register-tokens :
    (now : ℕ) (salt sub email : String) (o : Option String) (s : AuthStore)
    → (google_register now salt sub email o s).1.refresh_tokens ≡ s.refresh_tokens
unfolding google_register audit
google_register-tokens now salt sub email none s = refl
google_register-tokens now salt sub email (some name) s = refl

google_login-tokens :
    (u : Unicode) (now : ℕ) (salt sub email name : String) (o : Option User) (s : AuthStore)
    → (google_login u now salt sub email name o s).1.refresh_tokens ≡ s.refresh_tokens
unfolding google_login audit
google_login-tokens u now salt sub email name none s = google_register-tokens now salt sub email _ s
google_login-tokens u now salt sub email name (some row) s = refl

pub upsert_google_user-tokens :
    (u : Unicode) (now : ℕ) (salt sub email name : String) (s : AuthStore)
    → (upsert_google_user u now salt sub email name s).1.refresh_tokens ≡ s.refresh_tokens
unfolding upsert_google_user
upsert_google_user-tokens u now salt sub email name s =
    google_login-tokens u now salt sub email name (find (is_google sub) s.users) s
