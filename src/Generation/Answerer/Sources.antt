-- ===== src/Generation/Answerer/Sources.antt =====
-- Where the citations of an answer come from.
use eu_rag.Base.{
  ℕ, suc, String, ◌≡◌, ◌≢◌, inl, inr, refl, subst, Bool, Option, some, List, [], ◌∷◌, Member,
  select-Member,
}
use eu_rag.Base.Text.{Unicode}
use eu_rag.Chunk.{Chunk}
use eu_rag.Profile.{BusinessProfile}
use eu_rag.Llm.{Client, extractive, anthropic, Api}
use eu_rag.Llm.Ensures.{Ensures, Ensures-pure}
use eu_rag.Generation.Citations.{Citation, cite, build_citations, citations_from, markers_used, mem}
use eu_rag.Generation.Answerer.{
  Cause, smalltalk, AnswerResult, kept, judge, shipped, llm_result, extractive_result,
  answer_question,
}
use eu_rag.Generation.Answerer.Laws.{attempts_induction, judge-eq-some}

-- a citation that `cite` makes of one of the passages
abbrev pub Quotes : List Chunk → Citation → Type 0
Quotes chunks x = (i : ℕ) × (c : Chunk) × Member c chunks × (x ≡ cite i c)

citations_from-Quotes :
    (i : ℕ) (chunks : List Chunk) (x : Citation)
    → Member x (citations_from i chunks)
    → Quotes chunks x
unfolding citations_from
citations_from-Quotes i [] x m = absurd m
citations_from-Quotes i (c ∷ chunks) x (inl e) = (_, c, inl refl, e)
citations_from-Quotes i (c ∷ chunks) x (inr m) =
    let (j, d, there, e) = citations_from-Quotes (suc i) chunks x m in (j, d, inr there, e)

kept-Quotes :
    (used : List ℕ) (chunks : List Chunk) (x : Citation)
    → Member x (kept used (build_citations chunks))
    → Quotes chunks x
unfolding build_citations
kept-Quotes used chunks x m =
    citations_from-Quotes 0 chunks x
      (select-Member (λ c. mem c.marker used) x (citations_from 0 chunks) m).0

-- Every citation of a result quotes a passage, and the mode is not that of a canned reply.
abbrev pub IsSourced : {F : Type 0} → List Chunk → AnswerResult F → Type 0
IsSourced chunks r =
    ((x : Citation) → Member x r.citations → Quotes chunks x) × (r.mode ≢ smalltalk)

module _ (u : Unicode) {F : Type 0} (chunks : List Chunk) where
  judge-IsSourced :
      (reply : String) (r : AnswerResult F) → judge u reply chunks ≡ some r → IsSourced chunks r
  unfolding llm_result
  judge-IsSourced reply r e =
      subst (IsSourced chunks) (judge-eq-some u chunks reply r e).1
        (λ x m. kept-Quotes (markers_used u (shipped u reply)) chunks x m, λ h. cc)

extractive_result-IsSourced :
    (F : Type 0) (u : Unicode) (chunks : List Chunk) (insufficient : Bool) (reason : Option Cause)
    → IsSourced chunks (extractive_result u {F = F} insufficient reason chunks)
unfolding extractive_result
extractive_result-IsSourced F u chunks insufficient reason =
    (λ x m. kept-Quotes _ chunks x m, λ h. cc)

module _ (u : Unicode) {F : Type 0} (api : Api) where
  pub answer_question-Ensures :
      (question : String) (chunks : List Chunk) (client : Client) (profile : Option BusinessProfile)
      → Ensures (IsSourced chunks) (answer_question u {F = F} api question chunks client profile)
  unfolding answer_question
  answer_question-Ensures question [] client profile = Ensures-pure _ (λ x m. absurd m, λ h. cc)
  answer_question-Ensures question (c ∷ chunks) extractive profile =
      Ensures-pure _ (extractive_result-IsSourced F u (c ∷ chunks) _ _)
  answer_question-Ensures question (c ∷ chunks) (anthropic model key) profile = record {
    yields =
        attempts_induction u api (IsSourced (c ∷ chunks)) (anthropic model key) (c ∷ chunks) _
          (judge-IsSourced u (c ∷ chunks)) (extractive_result-IsSourced F u (c ∷ chunks) _ _) 2;
  }
