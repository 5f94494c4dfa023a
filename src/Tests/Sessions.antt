-- ===== src/Tests/Sessions.antt =====
-- Sessions.
use eu_rag.Base.{ℕ, ◌≡◌, refl, String, true, false, none, some, arith, find}
use eu_rag.Base.Text.{◌<>◌, strip, is_empty}
use eu_rag.Auth.{Principal, done, is_user, is_reserved, principal_of, user_exists}
use eu_rag.Auth.Accounts.{is_well_formed, role_for, register, authenticate, upsert_google_user}
use eu_rag.Auth.Tokens.{Tokens, issue_tokens, verify_access}
use eu_rag.Security.Google.{
  Decode, GoogleClaims, verify_id_token, check_claims, is_google_issuer, is_missing,
}
use eu_rag.Api.{App, response}
use eu_rag.Api.Deps.{after_blank, is_bearer, current_principal}
use eu_rag.Api.Sessions.{registered, register_route, login_route, google_route}
use eu_rag.Api.Sessions.Google.{IsTrusted, IsHeldBy, google_route-IsVerified}
use eu_rag.Api.Sessions.Login.{login_route-current_principal, register_route-login_route}
use eu_rag.Tests.Sample
use eu_rag.Tests.Sample.{ascii}
use eu_rag.Tests.Accounts.{hashing, alice, carol, store}
use eu_rag.Tests.Codec.{codec, codec-IsTokenOf, encode_claims, text_code, number_code}

abbrev app : App ℕ Unit
app = record Sample.app { jwt = codec }

-- Google's claims of carol, for any credential
abbrev google : Decode
google credential client_id = some (record {
  iss = some "accounts.google.com";
  sub = some "g1";
  email = some "carol@example.eu";
  name = some "Carol";
  email_verified = true;
})

-- what the routes answer alice and carol with
abbrev of_alice : Tokens
of_alice = (issue_tokens codec 5 "j2" (principal_of alice) store).0

abbrev of_carol : Tokens
of_carol = (issue_tokens codec 5 "j2" (principal_of carol) store).0

carol_enters :
    (google_route hashing app google "client" 5 "s" "j2" "credential" store).0 ≡ response of_carol
unfolding google_route issue_tokens verify_id_token check_claims is_google_issuer is_missing
    upsert_google_user
carol_enters = refl

google_route-IsVerified_example :
    (c : GoogleClaims) × (sub : String) × (p : Principal) × (google "credential" "client" ≡ some c)
    × IsTrusted c sub
    × IsHeldBy sub p store
    × (verify_access codec 10 of_carol.access_token ≡ done p)
google_route-IsVerified_example =
    google_route-IsVerified hashing app google "client" 5 10 "s" "j2" "credential" store of_carol
      codec-IsTokenOf (omega arith) carol_enters

alice_enters : (login_route hashing app 5 "j2" "alice" "correct horse" store).0 ≡ response of_alice
unfolding login_route authenticate issue_tokens strip
alice_enters = refl

alice_there : find (is_user (strip ascii "alice")) store.users ≡ some alice
unfolding strip
alice_there = refl

abbrev header : String
header = "bearer " <> of_alice.access_token

header_full : is_empty header ≡ false
unfolding ◌<>◌
header_full = refl

header_prefixed : is_bearer ascii app header ≡ true
unfolding is_bearer ◌<>◌
header_prefixed = refl

header_carries : strip ascii (after_blank header) ≡ of_alice.access_token
unfolding strip after_blank ◌<>◌ issue_tokens encode_claims text_code number_code
header_carries = refl

alice_exists : user_exists "alice" store ≡ true
unfolding user_exists
alice_exists = refl

login_route-current_principal_example :
    (current_principal ascii app 10 (some header) store ≡ response (principal_of alice))
    × (is_empty alice.pw_hash ≡ false)
    × (hashing.hash alice.salt "correct horse" ≡ alice.pw_hash)
login_route-current_principal_example =
    login_route-current_principal hashing app 5 10 "j2" "alice" "correct horse" header store store
      of_alice alice codec-IsTokenOf (omega arith) alice_there alice_enters header_full
      header_prefixed header_carries alice_exists

dave_registers :
    (register_route hashing app 2 "s" "dave_1" "long password" none "10.0.0.1" store).0
    ≡ response ("dave_1", "user")
unfolding register_route register is_well_formed strip user_exists registered role_for is_reserved
dave_registers = refl

register_route-login_route_example :
    (tokens : Tokens) × ((login_route hashing app 5 "j2" "dave_1" "long password"
        (register_route hashing app 2 "s" "dave_1" "long password" none "10.0.0.1" store).1).0
      ≡ response tokens)
    × (verify_access codec 10 tokens.access_token
        ≡ done (record { username = "dave_1"; role = "user"; tenant = "dave_1" }))
register_route-login_route_example =
    register_route-login_route hashing app 2 5 10 "s" "j2" "dave_1" "long password" none "10.0.0.1"
      store ("dave_1", "user") codec-IsTokenOf refl (omega arith) dave_registers
