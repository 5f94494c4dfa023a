-- ===== src/Pipeline.antt =====
-- core/pipeline.py: the retriever, the answerer and the registry, wired together.
pub mod Laws
pub mod Query
pub mod Cost
pub mod Failure
pub mod Erase
pub mod Ingest
use eu_rag.Base.{
  ℕ, String, Bool, true, false, ◌&&◌, ◌||◌, not, Option, none, some, List, [], ◌∷◌, if◌then◌else◌,
  ◌==◌,
}
use eu_rag.Base.Text.{Unicode, is_empty}
use eu_rag.Base.Dict.{get, put}
use eu_rag.Chunk.{Chunk}
use eu_rag.Llm.{
  Outcome, ok, unavailable, crash, Client, extractive, anthropic, is_extractive, Api, World, Io,
  pure, continue, ◌>>=◌, Environment, given, get_llm_client,
}
use eu_rag.Profile.{BusinessProfile}
use eu_rag.Smalltalk.{Folding, is_smalltalk, smalltalk_reply}
use eu_rag.Registry.{Registry, Cipher, get_chunks}
use eu_rag.Retrieval.Bm25.{Lexer, FloatMath, Index}
use eu_rag.Retrieval.Rerank.{Model}
use eu_rag.Retrieval.Expansion.{standalone}
use eu_rag.Retrieval.Hybrid.{Retriever, lift, retrieve_scored}
use eu_rag.Generation.Answerer.{
  Mode, llm, quotes, no_sources, smalltalk, AnswerResult, answer_question,
}

-- the settings that the pipeline reads
pub record Settings : Type 0 where
  pub llm_model : String
  pub escalation_model : String
  pub hyde_model : String
  pub decompose_model : String
  pub contextualize_model : String
  pub top_k : ℕ
  pub escalation_top_k : ℕ

-- The clients that `Pipeline.__init__` builds.
pub record Clients : Type 0 where
  pub primary : Client
  pub escalation : Option Client
  pub expander : Option Client
  pub decomposer : Option Client
  pub contextualizer : Option Client

-- in ("", "none")
abbrev pub is_off : String → Bool
is_off spec = is_empty spec || spec == "none"

escalation_client : Client → Option Client
escalation_client extractive = none
escalation_client (anthropic model key) = some (anthropic model key)

helper_client : Environment → String → Option Client
helper_client env spec = if is_off spec then none else some (get_llm_client env spec none)

unfoldable pub build_clients : Environment → Settings → Clients
unfolding escalation_client helper_client
build_clients env settings =
    let primary = get_llm_client env settings.llm_model none in
    if is_extractive primary
    then record {
      primary = primary;
      escalation = none;
      expander = none;
      decomposer = none;
      contextualizer = none;
    }
    else record {
      primary = primary;
      escalation =
          if is_off settings.escalation_model || settings.escalation_model == settings.llm_model
          then none
          else escalation_client (get_llm_client env settings.escalation_model none);
      expander = helper_client env settings.hyde_model;
      decomposer = helper_client env settings.decompose_model;
      contextualizer = helper_client env settings.contextualize_model;
    }

-- The fields of `Pipeline`; the client cache is part of `World`.
pub record Pipeline (F V : Type 0) : Type 0 where
  pub settings : Settings
  pub environment : Environment
  pub clients : Clients
  pub registry : Registry
  pub cipher : Cipher
  pub bm25 : Index F
  pub vector_search : V → ℕ → Option (List String) → Option (List (String × F))
  pub embed_query : String → Option V
  pub reranker : Option (Model F)

abbrev pub retriever : {F V : Type 0} → Pipeline F V → Retriever F V
retriever p = record {
  bm25 = p.bm25;
  vector_search = p.vector_search;
  embed_query = p.embed_query;
  reranker = p.reranker;
  get_chunks = some (get_chunks p.cipher p.registry);
  expander = p.clients.expander;
  decomposer = p.clients.decomposer;
}

-- a text, or another where it is missing or empty: `a or b`
abbrev pub or_text : Option String → String → String
or_text none default = default
or_text (some s) default = if is_empty s then default else s

cached : Environment → String → Option Client → Io Client
cached env model (some client) w = (ok client, w)
cached env model none w =
    let client = get_llm_client env model none in
    (ok client, record w { client_cache = put model client w.client_cache })

-- `_resolve_llm`
unfoldable pub resolve_llm : Environment → Settings → Option String → Option String → Io Client
unfolding cached
resolve_llm env settings model api_key w =
    let m = or_text model settings.llm_model in
    if given api_key
    then (ok (get_llm_client env m api_key), w)
    else cached env m (get m w.client_cache) w

-- The arguments of a call of `query`.
pub record Request : Type 0 where
  pub question : String
  pub profile : Option BusinessProfile
  pub tenants : Option (List String)
  pub answer_model : Option String
  pub escalation_model : Option String
  pub api_key : Option String
  pub history : List (String × String)

abbrev pub smalltalk_result : {F : Type 0} → AnswerResult F
smalltalk_result = record {
  answer = smalltalk_reply;
  citations = [];
  mode = smalltalk;
  insufficient = false;
  escalated = false;
  insufficient_reason = none;
  top_score = none;
}

has_sources : Mode → Bool
has_sources no_sources = false
has_sources llm = true
has_sources quotes = true
has_sources smalltalk = true

-- `except LLMUnavailableError: … else: …` around the second answer
keep_primary :
    {F : Type 0}
    → AnswerResult F
    → Outcome (AnswerResult F) × World
    → Outcome (AnswerResult F) × World
keep_primary r (ok deeper, w) = (ok (record deeper { escalated = true }), w)
keep_primary r (unavailable k, w) = (ok r, w)
keep_primary r (crash, w) = (crash, w)

unfoldable pub escalate :
    {F : Type 0}
    → AnswerResult F
    → Option Client
    → (Client → Io (AnswerResult F))
    → Io (AnswerResult F)
unfolding has_sources keep_primary
escalate r none deeper w = (ok r, w)
escalate r (some client) deeper w =
    if r.insufficient && has_sources r.mode then keep_primary r (deeper client w) else (ok r, w)

module _ (u : Unicode) (api : Api) where
  pub contextualised : Option Client → String → List (String × String) → Io String
  contextualised none question history = pure question
  contextualised (some client) question [] = pure question
  contextualised (some client) question (turn ∷ history) =
      standalone u api client question (turn ∷ history)

module _ {F V : Type 0} (p : Pipeline F V) where
  pub primary_client : Request → Io Client
  primary_client req =
      if (given req.answer_model || given req.api_key)
      then resolve_llm p.environment p.settings req.answer_model req.api_key
      else pure p.clients.primary

  -- the escalation model of a request that names one or brings its key
  named_client : Option String → Option String → Io (Option Client)
  named_client none api_key =
      resolve_llm p.environment p.settings (some p.settings.escalation_model) api_key >>= λ c.
      pure (some c)
  named_client (some model) api_key =
      if is_off model
      then pure none
      else (resolve_llm p.environment p.settings (some model) api_key >>= λ c. pure (some c))

  pub escalation_of : Option String → Option String → Io (Option Client)
  unfolding named_client
  escalation_of none api_key =
      if given api_key then named_client none api_key else pure p.clients.escalation
  escalation_of (some model) api_key = named_client (some model) api_key

module _ (u : Unicode) {F V : Type 0} (api : Api) (math : FloatMath F) (lexer : Lexer)
    (p : Pipeline F V) where
  -- `_answer`
  unfoldable pub answer : Request → String → Client → ℕ → ℕ → Io (AnswerResult F)
  answer req question client k max_per_doc =
      retrieve_scored u api math lexer (retriever p) question k max_per_doc req.tenants
      >>= λ scored. lift (get_chunks p.cipher p.registry scored.0 req.tenants) >>= λ chunks.
          answer_question u api question chunks client req.profile >>= λ r.
          pure (record r { top_score = scored.1 })

  -- `query` below its test for small talk
  pub asked : Request → Io (AnswerResult F)
  unfolding contextualised primary_client escalation_of
  asked req = contextualised u api p.clients.contextualizer req.question req.history >>= λ question.
      primary_client p req >>= λ client.
      escalation_of p req.escalation_model req.api_key >>= λ escalation.
      answer req question client p.settings.top_k 2 >>= λ r.
      escalate r escalation (λ c. answer req question c p.settings.escalation_top_k 6)

module _ (u : Unicode) (folding : Folding) {F V : Type 0} (api : Api) (math : FloatMath F)
    (lexer : Lexer) (p : Pipeline F V) where
  -- `query`
  unfoldable pub query : Request → Io (AnswerResult F)
  unfolding asked
  query req =
      if is_smalltalk folding req.question
      then pure smalltalk_result
      else asked u api math lexer p req
