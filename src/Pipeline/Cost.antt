-- ===== src/Pipeline/Cost.antt =====
-- What a question costs, and how it can fail.
use eu_rag.Base.{
  ℕ, ◌+◌, ◌≤◌, refl, ap, String, ◌≡◌, Bool, true, false, ◌&&◌, ◌||◌, Option, none, some, List, [],
  ◌∷◌, arith, if◌then◌else◌,
}
use eu_rag.Base.Text.{Unicode}
use eu_rag.Base.Dict.{get}
use eu_rag.Llm.{
  Outcome, ok, unavailable, crash, Client, Api, World, Io, pure, ◌>>=◌, given, Costs, Costs-pure,
  Costs-bind, Environment, get_llm_client,
}
use eu_rag.Smalltalk.{Folding, is_smalltalk}
use eu_rag.Retrieval.Bm25.{Lexer, FloatMath}
use eu_rag.Retrieval.Hybrid.{lift, retrieve_scored}
use eu_rag.Retrieval.Hybrid.Laws.{lift-Costs, retrieve_scored-Costs}
use eu_rag.Retrieval.Expansion.Laws.{standalone-Costs}
use eu_rag.Generation.Answerer.{AnswerResult, answer_question}
use eu_rag.Generation.Answerer.Laws.{answer_question-Costs}
use eu_rag.Registry.{get_chunks}
use eu_rag.Pipeline.{
  Settings, Pipeline, Request, retriever, answer, resolve_llm, or_text, cached, escalate,
  keep_primary, contextualised, primary_client, named_client, escalation_of, asked, query,
  has_sources, is_off, smalltalk_result,
}

-- An action that calls no model and never raises: the choice of a client.
pub record IsFree {A : Type 0} (m : Io A) : Type 0 where
  pub returns : (w : World) → (a : A) × (w' : World) × (m w ≡ (ok a, w')) × (w'.calls ≡ w.calls)

IsFree-pure : {A : Type 0} (a : A) → IsFree (pure a)
IsFree-pure a = record { returns = λ w. (a, w, refl, refl) }

IsFree-map : {A B : Type 0} (m : Io A) (f : A → B) → IsFree m → IsFree (m >>= λ a. pure (f a))
IsFree-map m f free = record {
  returns = λ w. let (a, w', e, same) = free.returns w in (f a, w', rw e refl, same);
}

IsFree-if : {A : Type 0} (b : Bool) (m n : Io A) → IsFree m → IsFree n → IsFree (if b then m else n)
IsFree-if true m n hm hn = hm
IsFree-if false m n hm hn = hn

IsFree-Costs : {A : Type 0} (m : Io A) → IsFree m → Costs 0 m
IsFree-Costs m free = record {
  at_most =
      λ w. let (a, w', e, same) = free.returns w in rw (ap (λ x. x.1.calls) e, same) (omega arith);
}

cached-IsFree :
    (env : Environment) (model : String) (o : Option Client) → IsFree (cached env model o)
unfolding cached
cached-IsFree env model none = record { returns = λ w. (_, _, refl, refl) }
cached-IsFree env model (some client) = record { returns = λ w. (client, w, refl, refl) }

resolve_llm-IsFree :
    (env : Environment) (settings : Settings) (model api_key : Option String)
    → IsFree (resolve_llm env settings model api_key)
unfolding resolve_llm
resolve_llm-IsFree env settings model api_key = record { returns = λ w. go w (given api_key) }
  where
    go :
        (w : World) (b : Bool)
        → (c : Client) × (w' : World) × ((if b
              then (ok (get_llm_client env (or_text model settings.llm_model) api_key), w)
              else cached env
                  (or_text model settings.llm_model)
                  (get (or_text model settings.llm_model) w.client_cache)
                  w)
            ≡ (ok c, w'))
          × (w'.calls ≡ w.calls)
    go w true = (_, w, refl, refl)
    go w false =
        (cached-IsFree env _ (get (or_text model settings.llm_model) w.client_cache)).returns w

module _ {F V : Type 0} (p : Pipeline F V) (req : Request) where
  pub primary_client-IsFree : IsFree (primary_client p req)
  unfolding primary_client
  primary_client-IsFree =
      IsFree-if (given req.answer_model || given req.api_key) _ _
        (resolve_llm-IsFree p.environment p.settings req.answer_model req.api_key)
        (IsFree-pure p.clients.primary)

  named_client-IsFree : (model api_key : Option String) → IsFree (named_client p model api_key)
  unfolding named_client
  named_client-IsFree none api_key =
      IsFree-map (resolve_llm p.environment p.settings (some p.settings.escalation_model) api_key)
        some (resolve_llm-IsFree p.environment p.settings _ api_key)
  named_client-IsFree (some model) api_key = IsFree-if (is_off model) _ _ (IsFree-pure none) (
      IsFree-map (resolve_llm p.environment p.settings (some model) api_key) some
        (resolve_llm-IsFree p.environment p.settings _ api_key))

  pub escalation_of-IsFree :
      (model api_key : Option String) → IsFree (escalation_of p model api_key)
  unfolding escalation_of
  escalation_of-IsFree none api_key =
      IsFree-if (given api_key) _ _ (named_client-IsFree none api_key)
        (IsFree-pure p.clients.escalation)
  escalation_of-IsFree (some model) api_key = named_client-IsFree (some model) api_key

escalate-Costs :
    {F : Type 0} {n : ℕ} (r : AnswerResult F) (client : Option Client)
    (deeper : Client → Io (AnswerResult F))
    → ((c : Client) → Costs n (deeper c))
    → Costs n (escalate r client deeper)
unfolding escalate
escalate-Costs r none deeper costs = record { at_most = λ w. omega arith }
escalate-Costs {F} {n} r (some c) deeper costs = record {
  at_most = λ w.
      go w (r.insufficient && has_sources r.mode) (deeper c w).0 (deeper c w).1
        ((costs c).at_most w);
}
  where
    go :
        (w : World) (b : Bool) (o : Outcome (AnswerResult F)) (w' : World)
        → w'.calls ≤ w.calls + n
        → (if b then keep_primary r (o, w') else (ok r, w)).1.calls ≤ w.calls + n
    go w false o w' h = omega arith
    go w true (ok a) w' h = h
    go w true (unavailable k) w' h = h
    go w true crash w' h = h

contextualised-Costs :
    (u : Unicode) (api : Api) (client : Option Client) (question : String)
    (history : List (String × String))
    → Costs 1 (contextualised u api client question history)
unfolding contextualised
contextualised-Costs u api none question history = Costs-pure 1 question
contextualised-Costs u api (some client) question [] = Costs-pure 1 question
contextualised-Costs u api (some client) question (turn ∷ history) =
    standalone-Costs u api client question (turn ∷ history)

module _ (u : Unicode) {F V : Type 0} (api : Api) (math : FloatMath F) (lexer : Lexer)
    (p : Pipeline F V) (req : Request) where
  answer-Costs :
      (question : String) (client : Client) (k max_per_doc : ℕ)
      → Costs 7 (answer u api math lexer p req question client k max_per_doc)
  unfolding answer
  answer-Costs question client k max_per_doc =
      Costs-bind 5 2
        (retrieve_scored u api math lexer (retriever p) question k max_per_doc req.tenants) _
        (omega arith)
        (retrieve_scored-Costs u api math lexer (retriever p) question k max_per_doc req.tenants)
        (λ found.
          Costs-bind 0 2 (lift (get_chunks p.cipher p.registry found.0 req.tenants)) _ (omega arith)
            (lift-Costs _)
            (λ cs.
              Costs-bind 2 0 (answer_question u api question cs client req.profile) _ (omega arith)
                (answer_question-Costs u api question cs client req.profile) (λ r. Costs-pure 0 _)))

  asked-Costs : Costs 15 (asked u api math lexer p req)
  unfolding asked
  asked-Costs =
      Costs-bind 1 14 (contextualised u api p.clients.contextualizer req.question req.history) _
        (omega arith) (contextualised-Costs u api p.clients.contextualizer req.question req.history)
        (λ question.
          Costs-bind 0 14 (primary_client p req) _ (omega arith)
            (IsFree-Costs _ (primary_client-IsFree p req))
            (λ client.
              Costs-bind 0 14 (escalation_of p req.escalation_model req.api_key) _ (omega arith)
                (IsFree-Costs _ (escalation_of-IsFree p req req.escalation_model req.api_key))
                (λ escalation.
                  Costs-bind 7 7 (answer u api math lexer p req question client p.settings.top_k 2)
                    _ (omega arith) (answer-Costs question client p.settings.top_k 2)
                    (λ r.
                      escalate-Costs r escalation _
                        (λ c. answer-Costs question c p.settings.escalation_top_k 6)))))

-- However it ends, a question makes fifteen calls to a model at most, and none where it is small
-- talk.
pub query-Costs :
    (u : Unicode) (folding : Folding) {F V : Type 0} (api : Api) (math : FloatMath F)
    (lexer : Lexer) (p : Pipeline F V) (req : Request)
    → Costs
        (if is_smalltalk folding req.question then 0 else 15)
        (query u folding api math lexer p req)
unfolding query
query-Costs u folding {F} {V} api math lexer p req = go (is_smalltalk folding req.question)
  where
    go :
        (b : Bool)
        → Costs
            (if b then 0 else 15)
            (if b then pure smalltalk_result else asked u api math lexer p req)
    go true = Costs-pure 0 _
    go false = asked-Costs u api math lexer p req
