-- ===== src/Api/Main.antt =====
-- Of api/main.py the handler of an unavailable model and the view of the server's health, and
-- api/middleware/headers.py. A header's name is in lower case, as Starlette compares names.
use eu_rag.Base.{ℕ, ◌≡◌, ap, ◌∙◌, String, Bool, Option, none, some, List, [], ◌∷◌, length}
use eu_rag.Base.Dict.{get}
use eu_rag.Base.Dict.Defaults.{or_else, set_default, get-set_default, or_else-get, or_else-none}
use eu_rag.Llm.{Kind, auth}
use eu_rag.Registry.{Registry}
use eu_rag.Registry.Listing.{list_documents}

-- the status, the code of the detail and Retry-After
unfoldable pub llm_unavailable : Kind → ℕ × (String × Option String)
llm_unavailable auth = (400, ("byok_key_rejected", none))
llm_unavailable k = (503, ("llm_unavailable", some "10"))

pub record Health : Type 0 where
  pub status : String
  pub embedder : String
  pub llm : String
  pub documents : ℕ
  pub auth_enabled : Bool
  pub encryption : Bool
  pub turnstile_sitekey : Option String
  pub google_client_id : Option String

unfoldable pub healthz :
    String → String → Registry → Bool → Bool → Option String → Option String → Health
healthz embedder llm registry auth_enabled has_cipher sitekey client_id = record {
  status = "ok";
  embedder = embedder;
  llm = llm;
  documents = length (list_documents registry none);
  auth_enabled = auth_enabled;
  encryption = has_cipher;
  turnstile_sitekey = sitekey;
  google_client_id = client_id;
}

abbrev pub Headers : Type 0
Headers = List (String × String)

abbrev pub baseline : Headers
baseline =
    ("x-content-type-options", "nosniff")
    ∷ ("x-frame-options", "DENY")
    ∷ ("referrer-policy", "no-referrer")
    ∷ (
      "content-security-policy",
      "default-src 'self'; style-src 'self' 'unsafe-inline' https://fonts.googleapis.com; font-src https://fonts.gstatic.com; img-src 'self' data:; connect-src 'self'; frame-ancestors 'none'",
    )
    ∷ []

-- the loop of `headers.setdefault`
unfoldable pub with_defaults : Headers → Headers → Headers
with_defaults [] headers = headers
with_defaults ((key, value) ∷ defaults) headers =
    with_defaults defaults (set_default key value headers)

-- `SecurityHeaders.dispatch`, of the headers of the response
unfoldable pub secured : Headers → Headers
unfolding with_defaults
secured headers = with_defaults baseline headers

with_defaults-get :
    (defaults headers : Headers) (key : String)
    → get key (with_defaults defaults headers) ≡ or_else (get key headers) (get key defaults)
unfolding with_defaults get
with_defaults-get [] headers key = or_else-none (get key headers)
with_defaults-get ((name, value) ∷ defaults) headers key =
    with_defaults-get defaults (set_default name value headers) key
    ∙ ap (λ o. or_else o (get key defaults)) (get-set_default name value headers key)
    ∙ or_else-get (name, value) defaults key (get key headers)

-- Every response has the security headers, with the values that it has set itself where it has, and
-- its other headers as they were.
pub secured-get :
    (headers : Headers) (key : String)
    → get key (secured headers) ≡ or_else (get key headers) (get key baseline)
unfolding secured
secured-get headers key = with_defaults-get baseline headers key
