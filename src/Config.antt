-- ===== src/Config.antt =====
-- core/config.py, and of core/db.py the choice of a database: the settings, read from the
-- environment, and what start-up refuses. `os.environ` is a dictionary of texts.
pub mod Dotenv
use Prim.Native.Char.{Char, code}
use Prim.Native.String
use eu_rag.Base.{
  ℕ, String, Bool, true, false, not, ◌&&◌, ◌||◌, Option, none, some, List, [], ◌∷◌, ◌==◌, eqb,
  if◌then◌else◌,
}
use eu_rag.Base.Dict.{get}
use eu_rag.Base.Int.{ℤ, pos, int_of}
use eu_rag.Base.Text.{Unicode, is_empty, has_prefix, strip}

abbrev pub Environ : Type 0
Environ = List (String × String)

pub record Settings : Type 0 where
  pub data_dir : String
  pub embedder : String
  pub embed_model : String
  pub llm_model : String
  pub escalation_model : String
  pub escalation_top_k : ℤ
  pub hyde_model : String
  pub decompose_model : String
  pub contextualize_model : String
  pub reranker : String
  pub rerank_batch : ℤ
  pub qdrant_url : Option String
  pub top_k : ℤ
  pub auth_enabled : Bool
  pub jwt_secret : Option String
  pub encryption_key : Option String
  pub pii_backend : String
  pub strict_boot : Bool
  pub free_anon_questions : ℤ
  pub free_model : String
  pub free_user_questions : ℤ
  pub google_client_id : Option String
  pub turnstile_secret : Option String
  pub turnstile_sitekey : Option String
  pub rate_limit_per_min : ℤ
  pub rate_limit_burst : ℤ
  pub trust_proxy : Bool
  pub redis_url : Option String
  pub cors_origins : List String

abbrev pub or_default : String → Option String → String
or_default default none = default
or_default default (some value) = value

-- `os.environ.get(…) or None`
abbrev pub or_unset : Option String → Option String
or_unset none = none
or_unset (some value) = if is_empty value then none else some value

-- value.split(",")
split_commas : String → List String
split_commas String.[] = "" ∷ []
split_commas (String.◌∷◌ c s) = elim (split_commas s) [
  | [] ↦ []
  | part ∷ parts ↦ if eqb (code c) b',' then "" ∷ part ∷ parts else String.◌∷◌ c part ∷ parts
]

module _ (u : Unicode) (env : Environ) where
  text_of : String → String → String
  text_of key default = or_default default (get key env)

  unset_of : String → Option String
  unset_of key = or_unset (get key env)

  -- in ("1", "true", "yes")
  flag_of : String → Bool
  unfolding text_of
  flag_of key =
      let value = u.lower (text_of key "") in value == "1" || value == "true" || value == "yes"

  number_of : String → String → Option ℤ
  unfolding text_of
  number_of key default = int_of u (text_of key default)

  stripped : List String → List String
  stripped [] = []
  stripped (part ∷ parts) =
      let rest = stripped parts in
      let origin = strip u part in if is_empty origin then rest else origin ∷ rest

  with_numbers : ℤ → ℤ → ℤ → ℤ → ℤ → ℤ → ℤ → Settings
  unfolding text_of unset_of flag_of stripped split_commas
  with_numbers escalation_top_k rerank_batch top_k free_anon free_user per_min burst = record {
    data_dir = text_of "EURAG_DATA_DIR" "var";
    embedder = text_of "EURAG_EMBEDDER" "fastembed";
    embed_model =
        text_of "EURAG_EMBED_MODEL" "sentence-transformers/paraphrase-multilingual-MiniLM-L12-v2";
    llm_model = text_of "EURAG_LLM_MODEL" "claude-sonnet-5";
    escalation_model = text_of "EURAG_ESCALATION_MODEL" "claude-opus-4-8";
    escalation_top_k = escalation_top_k;
    hyde_model = text_of "EURAG_HYDE_MODEL" "claude-haiku-4-5";
    decompose_model = text_of "EURAG_DECOMPOSE_MODEL" "none";
    contextualize_model = text_of "EURAG_CONTEXTUALIZE_MODEL" "claude-haiku-4-5";
    reranker = text_of "EURAG_RERANKER" "Xenova/ms-marco-MiniLM-L-6-v2";
    rerank_batch = rerank_batch;
    qdrant_url = unset_of "QDRANT_URL";
    top_k = top_k;
    auth_enabled = flag_of "EURAG_AUTH_ENABLED";
    jwt_secret = unset_of "EURAG_JWT_SECRET";
    encryption_key = unset_of "EURAG_ENCRYPTION_KEY";
    pii_backend = text_of "EURAG_PII_BACKEND" "regex";
    strict_boot = flag_of "EURAG_STRICT_BOOT";
    free_anon_questions = free_anon;
    free_model = text_of "EURAG_FREE_MODEL" "claude-haiku-4-5";
    free_user_questions = free_user;
    google_client_id = unset_of "EURAG_GOOGLE_CLIENT_ID";
    turnstile_secret = unset_of "EURAG_TURNSTILE_SECRET";
    turnstile_sitekey = unset_of "EURAG_TURNSTILE_SITEKEY";
    rate_limit_per_min = per_min;
    rate_limit_burst = burst;
    trust_proxy = flag_of "EURAG_TRUST_PROXY";
    redis_url = unset_of "EURAG_REDIS_URL";
    cors_origins = stripped (split_commas (text_of "EURAG_CORS_ORIGINS" ""));
  }

  and_then : {A B : Type 0} → Option A → (A → Option B) → Option B
  and_then none f = none
  and_then (some a) f = f a

  -- none is the ValueError of an `int`
  unfoldable pub get_settings : Option Settings
  unfolding number_of and_then with_numbers
  get_settings = and_then (number_of "EURAG_ESCALATION_TOP_K" "12") (λ escalation_top_k.
      and_then (number_of "EURAG_RERANK_BATCH" "8") (λ rerank_batch.
        and_then (number_of "EURAG_TOP_K" "6") (λ top_k.
          and_then (number_of "EURAG_FREE_ANON_QUESTIONS" "2") (λ free_anon.
            and_then (number_of "EURAG_FREE_USER_QUESTIONS" "10") (λ free_user.
              and_then (number_of "EURAG_RATE_LIMIT_PER_MIN" "30") (λ per_min.
                and_then (number_of "EURAG_RATE_LIMIT_BURST" "10") (λ burst. some (
                  with_numbers escalation_top_k rerank_batch top_k free_anon free_user per_min
                    burst))))))))

  -- `database_url` of core/db.py
  unfoldable pub database_url : Option String
  unfolding text_of
  database_url = or_unset (some (strip u (text_of "EURAG_DATABASE_URL" "")))

abbrev pub is_postgres : Option String → Bool
is_postgres none = false
is_postgres (some url) = has_prefix "postgres://" url || has_prefix "postgresql://" url

-- `validate_startup` returns, returns with a warning, or raises
pub data Startup : Type 0 where
  quiet warned refused : Startup

unfoldable pub validate_startup : Settings → Option String → Startup
validate_startup s db_url =
    if not s.auth_enabled
    then quiet
    else if is_postgres db_url && is_unset s.jwt_secret
    then refused
    else if is_unset s.encryption_key
    then warned
    else quiet
  where
    is_unset : Option String → Bool
    is_unset none = true
    is_unset (some value) = false
