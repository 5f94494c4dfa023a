-- ===== src/Tests/Accounts.antt =====
-- The account store.
use eu_rag.Base.{
  ◌≡◌, ◌≢◌, refl, String, suc, false, ◌&&◌, none, some, [], ◌∷◌, if◌then◌else◌, ltb, find, length,
  arith, ◌==◌, eq_iff,
}
use eu_rag.Profile.{empty_profile}
use eu_rag.Auth.{User, AuthStore, auth_error, is_user, user_exists, erase_user, erased_actor}
use eu_rag.Auth.Accounts.{Hashing, register}
use eu_rag.Auth.Accounts.Laws.{AreAccounts}
use eu_rag.Auth.Tokens.{refresh_claims, Jwt, IsTokenOf, refresh}
use eu_rag.Auth.Steps.{here, next, registers, erases, Reach-AreAccounts, IsOther, refresh-once}
use eu_rag.Auth.Erasure.{names, holds_token, erase_user-forgets}
use eu_rag.Tests.Sample.{ascii, no_accounts}

abbrev pub hashing : Hashing
hashing = record { unicode = ascii; hash = λ salt password. password }

-- two accounts, the second of them of a Google identity
abbrev pub alice : User
alice = record {
  username = "alice";
  salt = "s";
  pw_hash = "correct horse";
  role = "admin";
  tenant = "alice";
  created_at = 1;
  byok_key_enc = none;
  byok_set_at = none;
  google_sub = none;
  email = none;
  profile = empty_profile;
}

abbrev pub carol : User
carol = record alice {
  username = "carol";
  tenant = "carol";
  pw_hash = "";
  role = "user";
  google_sub = some "g1";
}

abbrev pub store : AuthStore
store = record {
  users = alice ∷ carol ∷ [];
  refresh_tokens =
      record { jti = "j1"; username = "alice"; expires_at = 500; revoked = false } ∷ [];
  audit_rows =
      record { ts = 1; actor = "alice"; action = "auth.register"; resource = ""; detail = "admin" }
      ∷ [];
}

Reach-AreAccounts_example :
    AreAccounts (register hashing 2 "s" "dave_1" "long password" no_accounts).1.users
Reach-AreAccounts_example =
    Reach-AreAccounts (record { encode = λ c. ""; decode = λ now token. none }) hashing
      (λ jti. Unit) (next here (registers {s = no_accounts} 2 "s" "dave_1" "long password"))
      (tt, tt)

-- one refresh token of alice
abbrev jwt : Jwt
jwt = record {
  encode = λ c. "t1";
  decode = λ now token.
      if token == "t1" && ltb now 500 then some (refresh_claims "alice" "j1" 500) else none;
}

t1-IsTokenOf : IsTokenOf jwt (refresh_claims "alice" "j1" 500) "t1"
t1-IsTokenOf now = refl

j2-IsOther : IsOther "j1" "j2"
j2-IsOther e = ground (arith, eq_iff "j2" "j1")

refresh-once_example :
    (e : String) × ((refresh jwt 20 "j3" "t1"
        (erase_user 15 "carol" (refresh jwt 10 "j2" "t1" store).1)).0
      ≡ auth_error e)
refresh-once_example =
    refresh-once jwt hashing 10 20 "t1" "alice" "j1" "j2" "j3" 500 store _ t1-IsTokenOf
      (omega arith) (omega arith) j2-IsOther (next here (erases 15 "carol"))

other_name : "alice" ≢ erased_actor
other_name e = ground (arith, eq_iff "alice" "deleted_account")

erase_user-forgets_example :
    (user_exists "alice" (erase_user 9 "alice" store) ≡ false)
    × (holds_token "alice" (erase_user 9 "alice" store).refresh_tokens ≡ false)
    × (names "alice" (erase_user 9 "alice" store).audit_rows ≡ false)
    × (length (erase_user 9 "alice" store).audit_rows ≡ suc (length store.audit_rows))
    × ((j : String)
        → j ≢ "alice"
        → find (is_user j) (erase_user 9 "alice" store).users ≡ find (is_user j) store.users)
erase_user-forgets_example = erase_user-forgets 9 "alice" store other_name
