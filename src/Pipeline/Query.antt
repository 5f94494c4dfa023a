-- ===== src/Pipeline/Query.antt =====
-- What `Pipeline.query` promises: where its citations come from, when it is free, what it costs.
use eu_rag.Base.{refl, subst, ◌≡◌, Bool, true, false, if◌then◌else◌}
use eu_rag.Base.Text.{Unicode}
use eu_rag.Llm.{ok, Api, World, pure}
use eu_rag.Llm.Ensures.{ok_inj}
use eu_rag.Smalltalk.{Folding, is_smalltalk}
use eu_rag.Retrieval.Bm25.{Lexer, FloatMath}
use eu_rag.Generation.Answerer.{Mode, llm, smalltalk, quotes, no_sources, AnswerResult, is_refunded}
use eu_rag.Pipeline.{Pipeline, Request, asked, query, smalltalk_result}
use eu_rag.Pipeline.Laws.{IsScoped, asked-Ensures}

refunded-eq : (m : Mode) → is_refunded m ≡ true → m ≡ smalltalk
unfolding is_refunded
refunded-eq smalltalk h = refl
refunded-eq llm h = cc
refunded-eq quotes h = cc
refunded-eq no_sources h = cc

module _ (u : Unicode) (folding : Folding) {F V : Type 0} (api : Api) (math : FloatMath F)
    (lexer : Lexer) (p : Pipeline F V) (req : Request) where
  -- Of every answer that is returned, whatever the models and the vector store say: each citation
  -- quotes a stored passage of a tenant that the request may read, and if a model wrote the answer,
  -- then each marker in its text has such a citation among those that are sent along.
  pub query-IsScoped :
      (w : World) (r : AnswerResult F)
      → (query u folding api math lexer p req w).0 ≡ ok r
      → IsScoped u p.cipher p.registry req.tenants r
  unfolding query
  query-IsScoped w r e = go (is_smalltalk folding req.question) e
    where
      go :
          (b : Bool)
          → ((if b then pure smalltalk_result else asked u api math lexer p req) w).0 ≡ ok r
          → IsScoped u p.cipher p.registry req.tenants r
      go true e =
          subst (IsScoped u p.cipher p.registry req.tenants) (ok_inj e) (λ x m. absurd m, λ h. cc)
      go false e = ((asked-Ensures u api math lexer p req).yields w r e).0

  -- An answer that is not charged has called no model and has left the pipeline as it was: its
  -- question is small talk.
  pub query-refunded :
      (w : World) (r : AnswerResult F)
      → (query u folding api math lexer p req w).0 ≡ ok r
      → is_refunded r.mode ≡ true
      → (query u folding api math lexer p req w ≡ (ok r, w))
        × (is_smalltalk folding req.question ≡ true)
  unfolding query is_refunded
  query-refunded w r e free = go (is_smalltalk folding req.question) refl e
    where
      go :
          (b : Bool)
          → is_smalltalk folding req.question ≡ b
          → ((if b then pure smalltalk_result else asked u api math lexer p req) w).0 ≡ ok r
          → ((if b then pure smalltalk_result else asked u api math lexer p req) w ≡ (ok r, w))
            × (is_smalltalk folding req.question ≡ true)
      go true canned e = ((λ i. (e i, w)), canned)
      go false question e =
          absurd (((asked-Ensures u api math lexer p req).yields w r e).1 (refunded-eq r.mode free))
