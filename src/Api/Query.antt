-- ===== src/Api/Query.antt =====
-- api/routes/query.py: the route POST /query.
pub mod Charge
pub mod Laws
use Prim.Native.String
use eu_rag.Base.{
  ℕ, suc, ◌+◌, String, Bool, true, false, ◌&&◌, ◌||◌, not, Option, none, some, List, [], ◌∷◌, map,
  select, if◌then◌else◌,
}
use eu_rag.Base.Text
use eu_rag.Base.Text.{Unicode, ◌<>◌, is_empty, strip}
use eu_rag.Llm.{Kind, Outcome, ok, unavailable, crash, Api, World}
use eu_rag.Profile.{BusinessProfile}
use eu_rag.Smalltalk.{Folding}
use eu_rag.Retrieval.Bm25.{Lexer, FloatMath}
use eu_rag.Generation.Answerer.{AnswerResult, is_refunded}
use eu_rag.Pipeline.{Request, query}
use eu_rag.Auth.{Principal, audit}
use eu_rag.Quota.Anon
use eu_rag.Security.Turnstile.{verify}
use eu_rag.Api.{ApiSettings, App, State, Reply, response, http_error, llm_error, server_error}
use eu_rag.Api.Deps.{
  Tier, local, byok, free, Plan, paid_tier, spend_free_question, refund_free_question,
  allowed_tenants,
}

abbrev pub history_chars : ℕ
history_chars = 2000

-- `QueryRequest`, after its validation
pub record QueryRequest : Type 0 where
  pub question : String
  pub profile : Option BusinessProfile
  pub turnstile_token : Option String
  pub history : List (String × String)

-- `HistoryTurn._truncate`
truncate : String × String → String × String
truncate turn = (Text.take history_chars turn.0, Text.take history_chars turn.1)

-- `_history`
unfoldable pub history_of : Unicode → QueryRequest → List (String × String)
unfolding truncate
history_of u body = select (λ turn. not (is_empty (strip u turn.0))) (map truncate body.history)

-- The body of the response: the answer, who is charged, and how many free questions are left.
pub record Answered (F : Type 0) : Type 0 where
  pub result : AnswerResult F
  -- none is "anonymous"
  pub tier : Option Tier
  pub left : Option ℕ

-- The days on which the question is charged and on which it is answered.
pub record Clock : Type 0 where
  pub asked : ℕ
  pub answered : ℕ
  pub now : ℕ

pub raised_by_one : Option ℕ → Option ℕ
raised_by_one none = none
raised_by_one (some n) = some (n + 1)

module _ {F : Type 0} where
  -- the end of the anonymous branch, once the pipeline has come back
  settle_anonymous : ℕ → String → ℕ → Outcome (AnswerResult F) → State → Reply (Answered F) × State
  settle_anonymous day key left (ok r) s =
      if is_refunded r.mode
      then (
        response (record { result = r; tier = none; left = some (left + 1) }),
        record s { anon_quota = Anon.refund day key s.anon_quota },
      )
      else (response (record { result = r; tier = none; left = some left }), s)
  settle_anonymous day key left (unavailable k) s =
      (llm_error k, record s { anon_quota = Anon.refund day key s.anon_quota })
  settle_anonymous day key left crash s = (server_error, s)

  module _ {V : Type 0} (app : App F V) where
    audited : ℕ → Principal → QueryRequest → State → State
    audited now p body s =
        if app.auth_enabled
        then record s {
          auth = audit now p.username "query" "" (app.question_hash body.question) s.auth;
        }
        else s

    -- the end of the logged-in branch
    settle :
        ℕ
        → Principal
        → Plan
        → QueryRequest
        → Option ℕ
        → Outcome (AnswerResult F)
        → State
        → Reply (Answered F) × State
    unfolding audited raised_by_one
    settle now p plan body left (ok r) s =
        if is_refunded r.mode
        then (
          response (record { result = r; tier = some plan.tier; left = raised_by_one left }),
          audited now p body (record s { user_quota = refund_free_question p plan s.user_quota }),
        )
        else (
          response (record { result = r; tier = some plan.tier; left = left }),
          audited now p body s,
        )
    settle now p plan body left (unavailable k) s =
        (llm_error k, record s { user_quota = refund_free_question p plan s.user_quota })
    settle now p plan body left crash s = (server_error, s)

module _ (u : Unicode) (folding : Folding) {F V : Type 0} (api : Api) (math : FloatMath F)
    (lexer : Lexer) (app : App F V) where
  -- `pipeline.query(…)` on the state of the application
  run : Request → State → Outcome (AnswerResult F) × State
  run req s =
      let (o, w) = query u folding api math lexer app.pipeline req s.world in
      (o, record s { world = w })

  anonymous_request : QueryRequest → Request
  anonymous_request body = record {
    question = body.question;
    profile = body.profile;
    tenants = some ("public" ∷ []);
    answer_model = some app.settings.llm_model;
    escalation_model = some app.settings.escalation_model;
    api_key = none;
    history = history_of u body;
  }

  user_request : Principal → Plan → QueryRequest → Request
  user_request p plan body = record {
    question = body.question;
    profile = body.profile;
    tenants = allowed_tenants app p;
    answer_model = plan.answer_model;
    escalation_model = plan.escalation_model;
    api_key = plan.api_key;
    history = history_of u body;
  }

  -- a request with no principal, from an address
  unfoldable pub query_anonymous :
      Clock → String → QueryRequest → State → Reply (Answered F) × State
  unfolding settle_anonymous run anonymous_request
  query_anonymous clock ip body s =
      let key = "ip:" <> ip in
      let ((allowed, left), t) =
        Anon.consume clock.asked key app.settings.free_anon_questions s.anon_quota in
      let (o, s') = run (anonymous_request body) (record s { anon_quota = t }) in
      if not (is_empty app.settings.turnstile_secret)
        && not (verify app.siteverify body.turnstile_token app.settings.turnstile_secret ip)
      then (http_error 403 "turnstile_failed", s)
      else if allowed
      then settle_anonymous clock.answered key left o s'
      else (http_error 401 "anonymous_limit_reached", record s { anon_quota = t })

  charged :
      ℕ → Principal → Plan → QueryRequest → Reply (Option ℕ) → State → Reply (Answered F) × State
  unfolding settle run user_request
  charged now p plan body (response left) s =
      let (o, s') = run (user_request p plan body) s in settle app now p plan body left o s'
  charged now p plan body (http_error status code) s = (http_error status code, s)
  charged now p plan body (llm_error k) s = (llm_error k, s)
  charged now p plan body server_error s = (server_error, s)

  -- a request of a principal
  unfoldable pub query_user : Clock → Principal → QueryRequest → State → Reply (Answered F) × State
  unfolding charged
  query_user clock p body s =
      let plan = paid_tier app p s.auth in
      let (spent, t) = spend_free_question app p plan s.user_quota in
      charged clock.now p plan body spent (record s { user_quota = t })

  -- the route
  unfoldable pub query_route :
      Clock → Option Principal → String → QueryRequest → State → Reply (Answered F) × State
  query_route clock none ip body s = query_anonymous clock ip body s
  query_route clock (some p) ip body s = query_user clock p body s
