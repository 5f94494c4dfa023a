-- ===== src/Generation/Answerer/Total.antt =====
-- The answerer always answers, as long as the model API does.
use eu_rag.Base.{ℕ, zero, suc, String, ◌≡◌, refl, Option, List, [], ◌∷◌, inl, inr, Option-cases}
use eu_rag.Base.Text.{Unicode}
use eu_rag.Chunk.{Chunk}
use eu_rag.Profile.{BusinessProfile}
use eu_rag.Llm.{ok, Client, extractive, anthropic, Api, World, complete, outcome}
use eu_rag.Generation.Prompts.{system_prompt}
use eu_rag.Generation.Answerer.{AnswerResult, judge, or_retry, attempts, answer_question}

-- an API that delivers a text for every call
abbrev pub Delivers : Api → Type 0
Delivers api =
    (n : ℕ) (model : String) (key : Option String) (system user : String)
    → (text : String) × (outcome (api n model key system user) ≡ ok text)

module _ (u : Unicode) {F : Type 0} (api : Api) (delivers : Delivers api) where
  attempts-returns :
      (chunks : List Chunk) (model : String) (key : Option String) (prompt : String) (n : ℕ)
      (w : World)
      → (r : AnswerResult F) × ((attempts u api (anthropic model key) chunks prompt n w).0 ≡ ok r)
  unfolding attempts or_retry complete
  attempts-returns chunks model key prompt zero w = (_, refl)
  attempts-returns chunks model key prompt (suc n) w =
      let (text, said) = delivers w.calls model key system_prompt prompt in
      let (r, rest) =
        attempts-returns chunks model key prompt n (record w { calls = suc w.calls }) in
      elim (Option-cases (judge u {F = F} text chunks)) [
        | inl retry ↦ (r, rw said (rw (retry, or_retry) rest))
        | inr (r', hit) ↦ (r', rw said (rw (hit, or_retry) refl))
      ]

  -- If every call of the model API delivers a text, then every question is answered: whatever the
  -- texts are, the answerer neither raises nor asks on for ever.
  pub answer_question-returns :
      (question : String) (chunks : List Chunk) (client : Client) (profile : Option BusinessProfile)
      (w : World)
      → (r : AnswerResult F) × ((answer_question u api question chunks client profile w).0 ≡ ok r)
  unfolding answer_question
  answer_question-returns question [] client profile w = (_, refl)
  answer_question-returns question (c ∷ chunks) extractive profile w = (_, refl)
  answer_question-returns question (c ∷ chunks) (anthropic model key) profile w =
      attempts-returns (c ∷ chunks) model key _ 2 w
