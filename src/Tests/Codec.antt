-- ===== src/Tests/Codec.antt =====
-- A concrete token format, for the tests: what PyJWT's documentation promises can hold of every
-- claim at once. A text is its characters with a mark before each, a number is in unary.
use Prim.Native.Char.{Char, code}
use eu_rag.Base.{ℕ, zero, suc, ◌≡◌, refl, String, Option, none, some, eqb, ltb, if◌then◌else◌}
use eu_rag.Auth.Tokens.{Claims, access, refresh_claims, expiry, Jwt, IsTokenOf}

unfoldable pub text_code : String → String → String
text_code String.[] rest = String.◌∷◌ "e" rest
text_code (String.◌∷◌ c s) rest = String.◌∷◌ "c" (String.◌∷◌ c (text_code s rest))

unfoldable pub number_code : ℕ → String → String
number_code zero rest = String.◌∷◌ "e" rest
number_code (suc n) rest = String.◌∷◌ "c" (number_code n rest)

unfoldable pub encode_claims : Claims → String
unfolding text_code number_code
encode_claims (access p exp) =
    String.◌∷◌ "a"
      (text_code p.username (text_code p.role (text_code p.tenant (number_code exp ""))))
encode_claims (refresh_claims sub jti exp) =
    String.◌∷◌ "r" (text_code sub (text_code jti (number_code exp "")))

with_char : Char → Option (String × String) → Option (String × String)
with_char c none = none
with_char c (some (s, rest)) = some (String.◌∷◌ c s, rest)

text_of : String → Option (String × String)
unfolding with_char
text_of String.[] = none
text_of (String.◌∷◌ m String.[]) = if eqb (code m) b'e' then some ("", "") else none
text_of (String.◌∷◌ m (String.◌∷◌ c rest)) =
    let tail = text_of rest in
    if eqb (code m) b'e' then some ("", String.◌∷◌ c rest) else with_char c tail

number_of : String → ℕ
number_of String.[] = zero
number_of (String.◌∷◌ m rest) = let n = number_of rest in if eqb (code m) b'e' then zero else suc n

text_of-text_code : (s rest : String) → text_of (text_code s rest) ≡ some (s, rest)
unfolding text_of text_code
text_of-text_code String.[] String.[] = refl
text_of-text_code String.[] (String.◌∷◌ c rest) = refl
text_of-text_code (String.◌∷◌ c s) rest = rw (text_of-text_code s rest) refl

number_of-number_code : (n : ℕ) (rest : String) → number_of (number_code n rest) ≡ n
unfolding number_of number_code
number_of-number_code zero rest = refl
number_of-number_code (suc n) rest = rw (number_of-number_code n rest) refl

with_tenant : String → String → Option (String × String) → Option Claims
unfolding number_of
with_tenant username role none = none
with_tenant username role (some (tenant, rest)) =
    some (access (record { username = username; role = role; tenant = tenant }) (number_of rest))

with_role : String → Option (String × String) → Option Claims
unfolding with_tenant text_of
with_role username none = none
with_role username (some (role, rest)) = with_tenant username role (text_of rest)

with_username : Option (String × String) → Option Claims
unfolding with_role text_of
with_username none = none
with_username (some (username, rest)) = with_role username (text_of rest)

with_jti : String → Option (String × String) → Option Claims
unfolding number_of
with_jti sub none = none
with_jti sub (some (jti, rest)) = some (refresh_claims sub jti (number_of rest))

with_sub : Option (String × String) → Option Claims
unfolding with_jti text_of
with_sub none = none
with_sub (some (sub, rest)) = with_jti sub (text_of rest)

pub claims_of : String → Option Claims
unfolding with_username with_sub text_of
claims_of String.[] = none
claims_of (String.◌∷◌ m rest) =
    if eqb (code m) b'a' then with_username (text_of rest) else with_sub (text_of rest)

claims_of-encode_claims : (c : Claims) → claims_of (encode_claims c) ≡ some c
unfolding claims_of encode_claims with_username with_role with_tenant with_sub with_jti
claims_of-encode_claims (access p exp) =
    rw
      (
        text_of-text_code p.username (text_code p.role (text_code p.tenant (number_code exp ""))),
        text_of-text_code p.role (text_code p.tenant (number_code exp "")),
        text_of-text_code p.tenant (number_code exp ""),
        number_of-number_code exp "",
      )
      refl
claims_of-encode_claims (refresh_claims sub jti exp) =
    rw
      (
        text_of-text_code sub (text_code jti (number_code exp "")),
        text_of-text_code jti (number_code exp ""),
        number_of-number_code exp "",
      )
      refl

pub unexpired : ℕ → Option Claims → Option Claims
unexpired now none = none
unexpired now (some c) = if ltb now (expiry c) then some c else none

abbrev pub codec : Jwt
codec = record { encode = encode_claims; decode = λ now token. unexpired now (claims_of token) }

pub codec-IsTokenOf : (c : Claims) → IsTokenOf codec c (codec.encode c)
unfolding unexpired
codec-IsTokenOf c now = rw (claims_of-encode_claims c) refl
