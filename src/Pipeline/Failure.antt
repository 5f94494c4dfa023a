-- ===== src/Pipeline/Failure.antt =====
-- How a question can fail.
use eu_rag.Base.{
  String, ◌≡◌, refl, ap, ◌⊎◌, inl, inr, Bool, true, false, ◌&&◌, Option, none, some, List, [], ◌∷◌,
  if◌then◌else◌,
}
use eu_rag.Base.Text.{Unicode}
use eu_rag.Llm.{
  Kind, Outcome, ok, unavailable, crash, Client, Api, World, Io, pure, continue, ◌>>=◌,
}
use eu_rag.Smalltalk.{Folding, is_smalltalk}
use eu_rag.Retrieval.Bm25.{Lexer, FloatMath}
use eu_rag.Retrieval.Expansion.Laws.{standalone-returns}
use eu_rag.Generation.Answerer.{AnswerResult}
use eu_rag.Pipeline.{
  Pipeline, Request, answer, escalate, keep_primary, contextualised, primary_client, escalation_of,
  asked, query, has_sources, smalltalk_result,
}
use eu_rag.Pipeline.Cost.{IsFree, primary_client-IsFree, escalation_of-IsFree}

>>=-eq-unavailable :
    {A B : Type 0} (m : Io A) (f : A → Io B) (w w_end : World) (k : Kind)
    → ◌>>=◌ m f w ≡ (unavailable k, w_end)
    → (m w ≡ (unavailable k, w_end))
      ⊎ ((a : A) × (w' : World) × (m w ≡ (ok a, w')) × (f a w' ≡ (unavailable k, w_end)))
>>=-eq-unavailable {A} {B} m f w w_end k e = go (m w).0 (m w).1 e
  where
    go :
        (o : Outcome A) (w' : World)
        → continue o f w' ≡ (unavailable k, w_end)
        → (◌≡◌ {A = Outcome A × World} (o, w') (unavailable k, w_end))
          ⊎ ((a : A) × (w'' : World) × (◌≡◌ {A = Outcome A × World} (o, w') (ok a, w''))
              × (f a w'' ≡ (unavailable k, w_end)))
    go (ok a) w' e = inr (a, w', refl, e)
    go (unavailable j) w' e = inl cc
    go crash w' e = cc

IsFree-available :
    {A : Type 0} (m : Io A) (w : World) (k : Kind) → IsFree m → (m w).0 ≡ unavailable k → ⊥
IsFree-available m w k free e = let (a, w', there, _) = free.returns w in cc

contextualised-available :
    (u : Unicode) (api : Api) (client : Option Client) (question : String)
    (history : List (String × String)) (w : World) (k : Kind)
    → (contextualised u api client question history w).0 ≡ unavailable k
    → ⊥
unfolding contextualised
contextualised-available u api none question history w k e = cc
contextualised-available u api (some client) question [] w k e = cc
contextualised-available u api (some client) question (turn ∷ history) w k e =
    let (q, there, _) = standalone-returns u api client question w (turn ∷ history) in cc

escalate-available :
    {F : Type 0} (r : AnswerResult F) (client : Option Client)
    (deeper : Client → Io (AnswerResult F)) (w : World) (k : Kind)
    → (escalate r client deeper w).0 ≡ unavailable k
    → ⊥
unfolding escalate
escalate-available r none deeper w k e = cc
escalate-available {F} r (some c) deeper w k e =
    go (r.insufficient && has_sources r.mode) (deeper c w).0 (deeper c w).1 e
  where
    go :
        (b : Bool) (o : Outcome (AnswerResult F)) (w' : World)
        → (if b then keep_primary r (o, w') else (ok r, w)).0 ≡ unavailable k
        → ⊥
    go false o w' e = cc
    go true (ok a) w' e = cc
    go true (unavailable j) w' e = cc
    go true crash w' e = cc

after :
    {A B : Type 0} (m : Io A) (f : A → Io B) (w w_end : World) (k : Kind)
    → ((m w).0 ≡ unavailable k → ⊥)
    → ◌>>=◌ m f w ≡ (unavailable k, w_end)
    → (a : A) × (w' : World) × (m w ≡ (ok a, w')) × (f a w' ≡ (unavailable k, w_end))
after {A} m f w w_end k available e = elim (>>=-eq-unavailable m f w w_end k e) [
  | inl failed ↦ absurd (available (ap (λ (r : Outcome A × World). r.0) failed))
  | inr later ↦ later
]

module _ (u : Unicode) (folding : Folding) {F V : Type 0} (api : Api) (math : FloatMath F)
    (lexer : Lexer) (p : Pipeline F V) (req : Request) (w : World) where
  -- the run up to the first answer: the question is no small talk, it is rewritten, the clients are
  -- chosen, and the first answer ends so
  abbrev pub FirstAnswerEnds : Outcome (AnswerResult F) × World → Type 0
  FirstAnswerEnds end =
      (question : String) × (client : Client) × (escalation : Option Client) × (w1 : World)
      × (w2 : World) × (w3 : World) × (is_smalltalk folding req.question ≡ false)
      × (contextualised u api p.clients.contextualizer req.question req.history w
          ≡ (ok question, w1))
      × (primary_client p req w1 ≡ (ok client, w2))
      × (escalation_of p req.escalation_model req.api_key w2 ≡ (ok escalation, w3))
      × (answer u api math lexer p req question client p.settings.top_k 2 w3 ≡ end)

  first_answer :
      (w_end : World) (k : Kind)
      → is_smalltalk folding req.question ≡ false
      → asked u api math lexer p req w ≡ (unavailable k, w_end)
      → FirstAnswerEnds (unavailable k, w_end)
  unfolding asked
  first_answer w_end k serious e =
      let (question, w1, rewritten, e1) =
        after (contextualised u api p.clients.contextualizer req.question req.history) _ w w_end k
          (contextualised-available u api p.clients.contextualizer req.question req.history w k)
          e in
      let (client, w2, chosen, e2) =
        after (primary_client p req) _ w1 w_end k
          (IsFree-available _ w1 k (primary_client-IsFree p req)) e1 in
      let (escalation, w3, escalates, e3) =
        after (escalation_of p req.escalation_model req.api_key) _ w2 w_end k
          (IsFree-available _ w2 k (escalation_of-IsFree p req req.escalation_model req.api_key))
          e2 in
      elim (>>=-eq-unavailable (answer u api math lexer p req question client p.settings.top_k 2) _
        w3 w_end k e3) [
          | inl failed ↦ (
            question, client, escalation, w1, w2, w3, serious, rewritten, chosen, escalates, failed,
          )
          | inr (r, w4, answered, late) ↦ absurd (
              escalate-available r escalation
                (λ c. answer u api math lexer p req question c p.settings.escalation_top_k 6) w4 k
                (ap (λ (r : Outcome (AnswerResult F) × World). r.0) late))
        ]

  -- If a question ends with an unavailable model, then so does its first answer: the question is no
  -- small talk, its rewriting, the choice of the client and the escalation's, run one after the
  -- other from the start, have given results, and the first answer, run from there on what they
  -- gave, ends with this unavailable model and leaves the state that the question leaves.
  pub query-unavailable :
      (k : Kind)
      → (query u folding api math lexer p req w).0 ≡ unavailable k
      → FirstAnswerEnds (unavailable k, (query u folding api math lexer p req w).1)
  unfolding query
  query-unavailable k e = go (is_smalltalk folding req.question) refl e
    where
      first : Io (AnswerResult F)
      first = asked u api math lexer p req

      go :
          (b : Bool)
          → is_smalltalk folding req.question ≡ b
          → ((if b then pure smalltalk_result else first) w).0 ≡ unavailable k
          → FirstAnswerEnds (unavailable k, ((if b then pure smalltalk_result else first) w).1)
      go true same e = cc
      go false same e =
          first_answer (first w).1 k same
            (ap (λ (o : Outcome (AnswerResult F)). (o, (first w).1)) e)
