-- ===== src/Api/Query/Laws.antt =====
-- What POST /query refuses, and what it hands out.
use eu_rag.Base.{
  ℕ, ◌≡◌, refl, String, true, Option, none, some, List, [], ◌∷◌, arith, Bool-cases, inl, inr, ◌==◌,
  if◌then◌else◌,
}
use eu_rag.Base.Text.{Unicode, ◌<>◌}
use eu_rag.Llm.{Outcome, ok, unavailable, crash, Api}
use eu_rag.Smalltalk.{Folding}
use eu_rag.Retrieval.Bm25.{Lexer, FloatMath}
use eu_rag.Generation.Answerer.{AnswerResult}
use eu_rag.Pipeline.{query}
use eu_rag.Pipeline.Laws.{IsScoped, IsScoped-in_tenants}
use eu_rag.Registry.{in_tenants}
use eu_rag.Pipeline.Query.{query-IsScoped}
use eu_rag.Auth.{Principal}
use eu_rag.Quota.Anon
use eu_rag.Api.{App, State, Reply, response, http_error, llm_error, server_error}
use eu_rag.Api.Deps.{Plan, paid_tier, spend_free_question, allowed_tenants}
use eu_rag.Api.Query.{
  QueryRequest, Answered, Clock, settle_anonymous, settle, run, anonymous_request, user_request,
  query_anonymous, charged, query_user, query_route,
}

settle_anonymous-answers :
    {F : Type 0} (day : ℕ) (key : String) (left : ℕ) (o : Outcome (AnswerResult F)) (s : State)
    (status : ℕ) (code : String)
    → (settle_anonymous day key left o s).0 ≡ http_error status code
    → ⊥
unfolding settle_anonymous
settle_anonymous-answers day key left (ok r) s status code e = ground arith
settle_anonymous-answers day key left (unavailable k) s status code e = cc
settle_anonymous-answers day key left crash s status code e = cc

settle-answers :
    {F V : Type 0} (app : App F V) (now : ℕ) (p : Principal) (plan : Plan) (body : QueryRequest)
    (left : Option ℕ) (o : Outcome (AnswerResult F)) (s : State) (status : ℕ) (code : String)
    → (settle app now p plan body left o s).0 ≡ http_error status code
    → ⊥
unfolding settle
settle-answers app now p plan body left (ok r) s status code e = ground arith
settle-answers app now p plan body left (unavailable k) s status code e = cc
settle-answers app now p plan body left crash s status code e = cc

module _ (u : Unicode) (folding : Folding) {F V : Type 0} (api : Api) (math : FloatMath F)
    (lexer : Lexer) (app : App F V) where
  charged-refused :
      (now : ℕ) (p : Principal) (plan : Plan) (body : QueryRequest) (spent : Reply (Option ℕ))
      (s : State) (status : ℕ) (code : String)
      → (charged u folding api math lexer app now p plan body spent s).0 ≡ http_error status code
      → (charged u folding api math lexer app now p plan body spent s).1.world ≡ s.world
  unfolding charged run
  charged-refused now p plan body (response left) s status code e =
      absurd (settle-answers app now p plan body left _ _ status code e)
  charged-refused now p plan body (http_error status' code') s status code e = refl
  charged-refused now p plan body (llm_error k) s status code e = refl
  charged-refused now p plan body server_error s status code e = refl

  -- A question that is refused has reached no model: the calls made and the clients that are cached
  -- are as they were.
  pub query_route-refused :
      (clock : Clock) (principal : Option Principal) (ip : String) (body : QueryRequest) (s : State)
      (status : ℕ) (code : String)
      → (query_route u folding api math lexer app clock principal ip body s).0
        ≡ http_error status code
      → ((query_route u folding api math lexer app clock principal ip body s).1.world ≡ s.world)
  unfolding query_route query_anonymous query_user charged settle_anonymous settle run
  query_route-refused clock none ip body s status code e = ground (
    arith,
    settle_anonymous-answers clock.answered ("ip:" <> ip)
        (Anon.consume clock.asked ("ip:" <> ip) app.settings.free_anon_questions s.anon_quota).0.1
        (query u folding api math lexer app.pipeline
          (anonymous_request u folding api math lexer app body) s.world).0,
  )
  query_route-refused clock (some p) ip body s status code e =
      charged-refused clock.now p (paid_tier app p s.auth) body
        (spend_free_question app p (paid_tier app p s.auth) s.user_quota).0
        (record s { user_quota = _ }) status code e

settle_anonymous-ok :
    {F : Type 0} (day : ℕ) (key : String) (left : ℕ) (o : Outcome (AnswerResult F)) (s : State)
    (a : Answered F)
    → (settle_anonymous day key left o s).0 ≡ response a
    → o ≡ ok a.result
unfolding settle_anonymous
settle_anonymous-ok day key left (ok r) s a e = ground arith
settle_anonymous-ok day key left (unavailable k) s a e = cc
settle_anonymous-ok day key left crash s a e = cc

settle-ok :
    {F V : Type 0} (app : App F V) (now : ℕ) (p : Principal) (plan : Plan) (body : QueryRequest)
    (left : Option ℕ) (o : Outcome (AnswerResult F)) (s : State) (a : Answered F)
    → (settle app now p plan body left o s).0 ≡ response a
    → o ≡ ok a.result
unfolding settle
settle-ok app now p plan body left (ok r) s a e = ground arith
settle-ok app now p plan body left (unavailable k) s a e = cc
settle-ok app now p plan body left crash s a e = cc

-- What a request may read: the public corpus, and the tenant of its account; where there are no
-- accounts, every tenant.
abbrev pub readable : {F V : Type 0} → App F V → Option Principal → Option (List String)
readable app none = some ("public" ∷ [])
readable app (some p) = if app.auth_enabled then some (p.tenant ∷ "public" ∷ []) else none

allowed_tenants-readable :
    {F V : Type 0} (app : App F V) (p : Principal) (tenant : String)
    → in_tenants (allowed_tenants app p) tenant ≡ true
    → in_tenants (readable app (some p)) tenant ≡ true
unfolding allowed_tenants
allowed_tenants-readable app p tenant h = elim (Bool-cases app.auth_enabled) [
  | inl on ↦ elim (Bool-cases (p.tenant == "public")) [
    | inl official ↦ ground (arith, simp (on, official) at h)
    | inr own ↦ simp on (simp (on, own) at h)
  ]
  | inr off ↦ rw off refl
]

module _ (u : Unicode) (folding : Folding) {F V : Type 0} (api : Api) (math : FloatMath F)
    (lexer : Lexer) (app : App F V) where
  charged-IsScoped :
      (now : ℕ) (p : Principal) (plan : Plan) (body : QueryRequest) (spent : Reply (Option ℕ))
      (s : State) (a : Answered F)
      → (charged u folding api math lexer app now p plan body spent s).0 ≡ response a
      → IsScoped u app.pipeline.cipher app.pipeline.registry (allowed_tenants app p) a.result
  unfolding charged run user_request
  charged-IsScoped now p plan body (response left) s a e =
      query-IsScoped u folding api math lexer app.pipeline
        (user_request u folding api math lexer app p plan body) s.world a.result
        (settle-ok app now p plan body left _ _ a e)
  charged-IsScoped now p plan body (http_error status code) s a e = cc
  charged-IsScoped now p plan body (llm_error k) s a e = cc
  charged-IsScoped now p plan body server_error s a e = cc

  -- Every answer that the route gives cites only stored passages that the asker may read: of the
  -- public corpus, of the tenant of the account that asks, or where there are no accounts any. Every
  -- marker in a model's answer has such a citation.
  pub query_route-IsScoped :
      (clock : Clock) (principal : Option Principal) (ip : String) (body : QueryRequest) (s : State)
      (a : Answered F)
      → (query_route u folding api math lexer app clock principal ip body s).0 ≡ response a
      → IsScoped u app.pipeline.cipher app.pipeline.registry (readable app principal) a.result
  unfolding query_route query_anonymous query_user run anonymous_request
  query_route-IsScoped clock none ip body s a e =
      let req = anonymous_request u folding api math lexer app body in
      let asked = query u folding api math lexer app.pipeline req s.world in
      let ((_, left), t) =
        Anon.consume clock.asked ("ip:" <> ip) app.settings.free_anon_questions s.anon_quota in
      query-IsScoped u folding api math lexer app.pipeline req s.world a.result (
        ground (
          arith,
          settle_anonymous-ok clock.answered ("ip:" <> ip) left asked.0
              (record s { anon_quota = t; world = asked.1 }) a,
        ))
  query_route-IsScoped clock (some p) ip body s a e =
      IsScoped-in_tenants u app.pipeline.cipher app.pipeline.registry (allowed_tenants app p)
        (readable app (some p)) a.result (allowed_tenants-readable app p)
        (charged-IsScoped clock.now p (paid_tier app p s.auth) body
          (spend_free_question app p (paid_tier app p s.auth) s.user_quota).0
          (record s { user_quota = _ }) a e)
