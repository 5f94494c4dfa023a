-- ===== src/Api/Deps.antt =====
-- api/deps.py: who asks, what they may read, and what a question costs them.
use Prim.Native.Char.{code}
use eu_rag.Base.{
  ℕ, String, Bool, true, false, ◌&&◌, ◌||◌, not, Option, none, some, List, [], ◌∷◌, ◌==◌, eqb,
  if◌then◌else◌,
}
use eu_rag.Base.Text.{Unicode, is_empty, has_prefix, strip}
use eu_rag.Registry.{public_tenant}
use eu_rag.Auth.{
  Principal, AuthStore, Result, done, auth_error, local_principal, is_admin, user_exists, get_byok,
}
use eu_rag.Auth.Tokens.{verify_access}
use eu_rag.Quota.User
use eu_rag.Quota.User.{UserTable}
use eu_rag.Api.{ApiSettings, App, Reply, response, http_error, llm_error, server_error}

-- authorization.split(" ", 1)[1], for a header with a blank
unfoldable pub after_blank : String → String
after_blank String.[] = ""
after_blank (String.◌∷◌ c s) = let rest = after_blank s in if eqb (code c) b' ' then s else rest

unfoldable pub still_exists : AuthStore → Result Principal → Reply Principal
still_exists store (auth_error e) = http_error 401 "invalid token"
still_exists store (done p) =
    if user_exists p.username store then response p else http_error 401 "account no longer exists"

module _ (u : Unicode) {F V : Type 0} (app : App F V) where
  unfoldable pub bearer : ℕ → String → AuthStore → Reply Principal
  unfolding after_blank still_exists
  bearer now header store =
      still_exists store (verify_access app.jwt now (strip u (after_blank header)))

  unfoldable pub is_bearer : String → Bool
  is_bearer header = has_prefix "bearer " (u.lower header)

  unfoldable pub current_principal : ℕ → Option String → AuthStore → Reply Principal
  unfolding bearer is_bearer
  current_principal now none store =
      if app.auth_enabled then http_error 401 "missing bearer token" else response local_principal
  current_principal now (some header) store =
      if not app.auth_enabled
      then response local_principal
      else if is_empty header || not (is_bearer header)
      then http_error 401 "missing bearer token"
      else bearer now header store

  identified : Reply Principal → Reply (Option Principal)
  identified (response p) = response (some p)
  identified (http_error status code) = http_error status code
  identified (llm_error kind) = llm_error kind
  identified server_error = server_error

  -- none is an anonymous request
  unfoldable pub optional_principal : ℕ → Option String → AuthStore → Reply (Option Principal)
  unfolding bearer is_bearer identified
  optional_principal now none store =
      if app.auth_enabled then response none else response (some local_principal)
  optional_principal now (some header) store =
      if not app.auth_enabled
      then response (some local_principal)
      else if is_empty header
      then response none
      else if not (is_bearer header)
      then http_error 401 "malformed authorization header"
      else identified (bearer now header store)

unfoldable pub require_admin : Principal → Reply Principal
require_admin p = if is_admin p then response p else http_error 403 "admin role required"

-- xff.split(",")[0]
before_comma : String → String
before_comma String.[] = ""
before_comma (String.◌∷◌ c s) =
    let rest = before_comma s in if eqb (code c) b',' then "" else String.◌∷◌ c rest

peer : Option String → String
peer none = "unknown"
peer (some host) = host

-- of the header X-Forwarded-For and the address of the peer
unfoldable pub peer_ip : Unicode → Bool → Option String → Option String → String
unfolding before_comma peer
peer_ip u trust_proxy none host = peer host
peer_ip u trust_proxy (some xff) host =
    if trust_proxy && not (is_empty xff) then strip u (before_comma xff) else peer host

pub data Tier : Type 0 where
  local byok free : Tier

pub record Plan : Type 0 where
  pub tier : Tier
  pub answer_model : Option String
  pub escalation_model : Option String
  pub api_key : Option String

abbrev pub is_free : Tier → Bool
is_free free = true
is_free local = false
is_free byok = false

abbrev pub free_plan : ApiSettings → Plan
free_plan settings = record {
  tier = free;
  answer_model = some settings.free_model;
  escalation_model = some "none";
  api_key = none;
}

-- the plan of a stored key, where there is a cipher: a key that does not decrypt is no key
unfoldable pub byok_plan : ApiSettings → Option String → Option (String → Option String) → Plan
byok_plan settings none decrypt = free_plan settings
byok_plan settings (some enc) none = free_plan settings
byok_plan settings (some enc) (some decrypt) =
    if is_empty enc then free_plan settings else elim (decrypt enc) [
      | none ↦ free_plan settings
      | some key ↦ record {
        tier = byok;
        answer_model = some settings.llm_model;
        escalation_model = some settings.escalation_model;
        api_key = some key;
      }
    ]

module _ {F V : Type 0} (app : App F V) where
  unfoldable pub paid_tier : Principal → AuthStore → Plan
  unfolding byok_plan
  paid_tier p store =
      if app.auth_enabled
      then byok_plan app.settings (get_byok p.username store) app.decrypt
      else record { tier = local; answer_model = none; escalation_model = none; api_key = none }

  -- The count that is left, where a gate applies; a refusal is a 402. The quota is there whenever
  -- the free tier is.
  unfoldable pub spend_free_question : Principal → Plan → UserTable → Reply (Option ℕ) × UserTable
  spend_free_question p plan t =
      if is_free plan.tier
      then (let ((allowed, left), t') =
            User.consume p.username app.settings.free_user_questions t in
          if allowed then (response (some left), t') else (http_error 402 "free_limit_reached", t'))
      else (response none, t)

  unfoldable pub allowed_tenants : Principal → Option (List String)
  allowed_tenants p =
      if not app.auth_enabled
      then none
      else if p.tenant == public_tenant
      then some (public_tenant ∷ [])
      else some (p.tenant ∷ public_tenant ∷ [])

  unfoldable pub ingest_tenant : Principal → String
  ingest_tenant p = if app.auth_enabled then p.tenant else public_tenant

unfoldable pub refund_free_question : Principal → Plan → UserTable → UserTable
refund_free_question p plan t = if is_free plan.tier then User.refund p.username t else t
