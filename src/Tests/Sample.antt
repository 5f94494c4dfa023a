-- ===== src/Tests/Sample.antt =====
-- The sample data of the tests.
use Prim.Native.Char.{Char, code}
use eu_rag.Base.{
  ℕ, ◌+◌, ◌-◌, ◌*◌, ◌/◌, String, Bool, true, false, ◌||◌, ◌&&◌, none, some, [], ◌∷◌, ltb, leb, eqb,
  if◌then◌else◌,
}
use eu_rag.Base.Text.{Unicode}
use eu_rag.Llm.{
  Api, content, internal_server_error, World, Environment, Outcome, ok, unavailable, crash,
}
use eu_rag.Smalltalk.{Folding}
use eu_rag.Retrieval.Fusion.{FloatOps}
use eu_rag.Retrieval.Bm25.{Lexer, FloatMath, Index, add_chunk, empty_index}
use eu_rag.Registry.{Registry, no_cipher}
use eu_rag.Pipeline.{Settings, Pipeline, Request, build_clients, smalltalk_result}
use eu_rag.Auth.{Principal, AuthStore}
use eu_rag.Auth.Tokens.{Jwt}
use eu_rag.Security.Turnstile.{success}
use eu_rag.Api.{App, State, Reply, response, http_error, llm_error, server_error}
use eu_rag.Api.Query.{QueryRequest, Answered, Clock}

abbrev pub is_blank : Char → Bool
is_blank c = eqb (code c) 32 || (leb 9 (code c) && leb (code c) 13)

abbrev pub is_digit : Char → Bool
is_digit c = leb 48 (code c) && leb (code c) 57

abbrev pub is_letter : Char → Bool
is_letter c = is_digit c || (leb 97 (code c) && leb (code c) 122)

-- ASCII, without upper case
abbrev pub ascii : Unicode
ascii = record {
  is_space = is_blank;
  is_alnum = is_letter;
  digit = λ c. if is_digit c then some (code c - 48) else none;
  lower = λ s. s;
  upper = λ s. s;
}

abbrev pub folding : Folding
folding = record { unicode = ascii; fold = λ s. s; is_dropped = λ c. false; is_blank = is_blank }

abbrev pub lexer : Lexer
lexer = record { unicode = ascii; is_token = is_letter }

-- scores in thousandths
abbrev pub ops : FloatOps ℕ
ops = record { zero_score = 0; add = λ a b. a + b; reciprocal = λ n. 1000 / n; lt = ltb }

abbrev pub math : FloatMath ℕ
math = record {
  ops = ops;
  of_nat = λ n. n * 1000;
  sub = λ a b. a - b;
  mul = λ a b. a * b / 1000;
  div = λ a b. a * 1000 / b;
  log = λ a. a;
  half = 500;
  k1 = 1500;
  b = 750;
}

-- a model that gives one cited answer, and a model that is overloaded
abbrev pub helpful : Api
helpful n model key system user =
    content (record { type_name = "text"; text = "the law applies [1]." } ∷ [])

abbrev pub broken : Api
broken n model key system user = internal_server_error

abbrev pub registry : Registry
registry = record {
  documents =
      record {
        doc_id = "gdpr";
        title = "GDPR";
        source_url = "https://eur-lex";
        source_type = "regulation";
        language = "en";
        fetched_at = "2026-01-01";
        content_hash = "h1";
        n_chunks = 1;
        tenant = "public";
      }
      ∷ record {
        doc_id = "memo";
        title = "Memo";
        source_url = "";
        source_type = "upload";
        language = "en";
        fetched_at = "2026-01-01";
        content_hash = "h2";
        n_chunks = 1;
        tenant = "bob";
      }
      ∷ [];
  chunks =
      record {
        chunk_id = "gdpr:0";
        doc_id = "gdpr";
        index = 0;
        text = "the law applies";
        title = "GDPR";
        source_url = "https://eur-lex";
        tenant = "public";
      }
      ∷ record {
        chunk_id = "memo:0";
        doc_id = "memo";
        index = 0;
        text = "our law memo";
        title = "Memo";
        source_url = "";
        tenant = "bob";
      }
      ∷ [];
}

abbrev pub settings : Settings
settings = record {
  llm_model = "sonnet";
  escalation_model = "opus";
  hyde_model = "none";
  decompose_model = "none";
  contextualize_model = "none";
  top_k = 6;
  escalation_top_k = 12;
}

abbrev pub environment : Environment
environment = record { can_build = λ model key. true; server_key = true }

abbrev pub index : Index ℕ
index =
    add_chunk math lexer "memo:0" "our law memo"
      (add_chunk math lexer "gdpr:0" "the law applies" (empty_index math))

abbrev pub pipeline : Pipeline ℕ Unit
pipeline = record {
  settings = settings;
  environment = environment;
  clients = build_clients environment settings;
  registry = registry;
  cipher = no_cipher;
  bm25 = index;
  vector_search = λ v k tenants. some [];
  embed_query = λ text. some tt;
  reranker = none;
}

abbrev pub world : World
world = record { calls = 0; client_cache = [] }

abbrev pub asks : String → Request
asks question = record {
  question = question;
  profile = none;
  tenants = some ("public" ∷ []);
  answer_model = none;
  escalation_model = none;
  api_key = none;
  history = [];
}

-- what an action has returned, or else a default
abbrev pub returned : {A : Type 0} → A → Outcome A → A
returned default (ok a) = a
returned default (unavailable k) = default
returned default crash = default

-- no token decodes
abbrev pub jwt : Jwt
jwt = record { encode = λ c. ""; decode = λ now token. none }

abbrev pub app : App ℕ Unit
app = record {
  auth_enabled = true;
  settings = record {
    trust_proxy = false;
    turnstile_secret = "";
    free_anon_questions = 2;
    free_user_questions = 5;
    llm_model = "sonnet";
    free_model = "haiku";
    escalation_model = "opus";
  };
  pipeline = pipeline;
  decrypt = none;
  siteverify = λ token secret ip. success;
  jwt = jwt;
  question_hash = λ question. "h";
}

abbrev pub no_accounts : AuthStore
no_accounts = record { users = []; refresh_tokens = []; audit_rows = [] }

abbrev pub state : State
state = record { anon_quota = []; user_quota = []; auth = no_accounts; world = world }

abbrev pub spent_state : State
spent_state = record state {
  anon_quota = record { quota_key = "ip:10.0.0.1"; day = 20; used = 2 } ∷ [];
}

abbrev pub clock : Clock
clock = record { asked = 20; answered = 20; now = 1000 }

abbrev pub body : QueryRequest
body = record {
  question = "which law applies here?";
  profile = none;
  turnstile_token = none;
  history = [];
}

abbrev pub bob : Principal
bob = record { username = "bob"; role = "user"; tenant = "bob" }

abbrev pub replied : Reply (Answered ℕ) → Answered ℕ
replied (response a) = a
replied (http_error status code) = record { result = smalltalk_result; tier = none; left = none }
replied (llm_error k) = record { result = smalltalk_result; tier = none; left = none }
replied server_error = record { result = smalltalk_result; tier = none; left = none }
