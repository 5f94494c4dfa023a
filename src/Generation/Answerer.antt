-- ===== src/Generation/Answerer.antt =====
-- core/generation/answerer.py: prompt, generate, validate the citations, and fall back to quotes.
-- `F` is the type of the cross-encoder's scores, which the answerer never sets.
pub mod Laws
pub mod Total
pub mod Sources
use Prim.Native.String
use eu_rag.Base.{
  ℕ, zero, suc, ◌+◌, String, Bool, true, false, ◌&&◌, ◌||◌, not, Option, none, some, List, [], ◌∷◌,
  ◌++◌, leb, if◌then◌else◌, length, select, take, ◌==◌, any,
}
use eu_rag.Base.Text
use eu_rag.Base.Text.{Unicode, ◌<>◌, count, contains, remove_from, rstrip, strip, join, decimal}
use eu_rag.Chunk.{Chunk}
use eu_rag.Profile.{BusinessProfile, describe}
use eu_rag.Llm.{
  Outcome, ok, unavailable, crash, Client, extractive, anthropic, Api, World, Io, pure, continue,
  ◌>>=◌, complete, is_extractive,
}
use eu_rag.Generation.Citations.{
  Citation, build_citations, build_context, markers_used, validate_answer, mem,
}
use eu_rag.Generation.Prompts.{
  system_prompt, insufficient_marker, no_sources_message, extractive_lead, sources_begin,
  sources_end,
}

-- The source's `extractive` is `quotes` here.
pub data Mode : Type 0 where
  llm quotes no_sources smalltalk : Mode

-- `insufficient_reason`
pub data Cause : Type 0 where
  marker uncited nothing_retrieved : Cause

pub record AnswerResult (F : Type 0) : Type 0 where
  pub answer : String
  pub citations : List Citation
  pub mode : Mode
  pub insufficient : Bool
  pub escalated : Bool
  pub insufficient_reason : Option Cause
  pub top_score : Option F

abbrev pub max_uncited_refusal_chars : ℕ
max_uncited_refusal_chars = 600

-- `mode in MODES_REFUNDED`
unfoldable pub is_refunded : Mode → Bool
is_refunded smalltalk = true
is_refunded llm = false
is_refunded quotes = false
is_refunded no_sources = false

module _ (u : Unicode) where
  -- the lines of the loop over `enumerate(chunks[:3])`, from index i
  pub quote_lines : ℕ → List Chunk → List String
  quote_lines i [] = []
  quote_lines i (c ∷ chunks) =
      ("> "
        <> (strip u (Text.take 500 c.text)
            <> ("\n— " <> (c.title <> (" [" <> (decimal (i + 1) <> "]"))))))
      ∷ ""
      ∷ quote_lines (suc i) chunks

  unfoldable pub extractive_answer : List Chunk → String
  unfolding quote_lines
  extractive_answer chunks =
      strip u (join "\n" (extractive_lead ∷ "" ∷ quote_lines 0 (take 3 chunks)))

-- `[c for c in citations if c.marker in used]`
abbrev pub kept : List ℕ → List Citation → List Citation
kept used cs = select (λ c. mem c.marker used) cs

profile_line : Option BusinessProfile → String
profile_line none = ""
profile_line (some p) = describe p

unfoldable pub user_prompt : String → List Chunk → Option BusinessProfile → String
unfolding profile_line
user_prompt question chunks profile =
    sources_begin
    <> build_context chunks
    <> sources_end
    <> profile_line profile
    <> "Question: "
    <> question
    <> "\n\n"
    <> "Answer with [N] citations."

no_markers : List ℕ → Bool
no_markers [] = true
no_markers (m ∷ used) = false

module _ (u : Unicode) where
  -- the reply without the model's low-confidence signal
  unfoldable pub shipped : String → String
  shipped reply =
      if contains insufficient_marker reply
      then rstrip u (remove_from insufficient_marker 0 reply)
      else reply

  -- whether an attempt is shipped: its citations are valid, or it is a short uncited refusal
  unfoldable pub is_acceptable : Bool → String → ℕ → Bool
  unfolding no_markers
  is_acceptable insufficient text n_sources =
      (validate_answer u text n_sources).0
      || (insufficient
          && no_markers (markers_used u text)
          && leb (count text) max_uncited_refusal_chars)

or_retry : {F : Type 0} → Option (AnswerResult F) → Io (AnswerResult F) → Io (AnswerResult F)
or_retry (some r) again = pure r
or_retry none again = again

module _ (u : Unicode) {F : Type 0} where
  unfoldable pub extractive_result : Bool → Option Cause → List Chunk → AnswerResult F
  extractive_result insufficient reason chunks =
      let text = extractive_answer u chunks in
      record {
        answer = text;
        citations = kept (markers_used u text) (build_citations chunks);
        mode = quotes;
        insufficient = insufficient;
        escalated = false;
        insufficient_reason = reason;
        top_score = none;
      }

  pub llm_result : Bool → String → List Chunk → AnswerResult F
  llm_result insufficient text chunks = record {
    answer = text;
    citations = kept (markers_used u text) (build_citations chunks);
    mode = llm;
    insufficient = insufficient;
    escalated = false;
    insufficient_reason = if insufficient then some marker else none;
    top_score = none;
  }

  -- the body of the loop: what an attempt's reply ships, if anything
  unfoldable pub judge : String → List Chunk → Option (AnswerResult F)
  unfolding shipped is_acceptable llm_result
  judge reply chunks =
      let insufficient = contains insufficient_marker reply in
      if is_acceptable u insufficient (shipped u reply) (length chunks)
      then some (llm_result insufficient (shipped u reply) chunks)
      else none

  module _ (api : Api) (client : Client) (chunks : List Chunk) (prompt : String) where
    -- `for attempt in range(n)`, and the fallback below the loop
    pub attempts : ℕ → Io (AnswerResult F)
    unfolding or_retry
    attempts zero = pure (extractive_result true (some uncited) chunks)
    attempts (suc n) = complete api client system_prompt prompt >>= λ reply.
        or_retry (judge reply chunks) (attempts n)

  unfoldable pub answer_question :
      Api → String → List Chunk → Client → Option BusinessProfile → Io (AnswerResult F)
  unfolding attempts
  answer_question api question [] client profile = pure (record {
    answer = no_sources_message;
    citations = [];
    mode = no_sources;
    insufficient = true;
    escalated = false;
    insufficient_reason = some nothing_retrieved;
    top_score = none;
  })
  answer_question api question (c ∷ chunks) client profile =
      if is_extractive client
      then pure (extractive_result false none (c ∷ chunks))
      else attempts api client (c ∷ chunks) (user_prompt question (c ∷ chunks) profile) 2
