-- ===== src/Generation/Answerer/Laws.antt =====
-- What an answer may look like, and what it costs.
use eu_rag.Base.{
  ℕ, zero, suc, ◌≤◌, String, ◌≡◌, ◌≢◌, inl, inr, subst, Bool, true, Option, none, some, List, [],
  ◌∷◌, arith, leb→le, length, Option-cases, Bool-cases,
}
use eu_rag.Base.Text.{Unicode, count, contains}
use eu_rag.Chunk.{Chunk}
use eu_rag.Profile.{BusinessProfile}
use eu_rag.Llm.{
  ok, Client, extractive, anthropic, Api, World, Io, >>=-eq-ok, Costs, Costs-pure, Costs-bind,
  Costs-complete, complete,
}
use eu_rag.Generation.Citations.{build_citations, markers_used, mem, validate, validate_answer}
use eu_rag.Generation.Citations.Laws.{Resolves, validate-Resolves}
use eu_rag.Generation.Prompts.{insufficient_marker, system_prompt}
use eu_rag.Generation.Answerer.{
  llm, uncited, AnswerResult, max_uncited_refusal_chars, kept, or_retry, shipped, is_acceptable,
  extractive_result, llm_result, judge, attempts, answer_question, no_markers,
}

-- Every marker of an answer that a model wrote resolves to a citation that is sent along, which
-- quotes the retrieved passage of that number.
abbrev pub IsGrounded : Unicode → {F : Type 0} → List Chunk → AnswerResult F → Type 0
IsGrounded u chunks r =
    r.mode ≡ llm → (m : ℕ) → mem m (markers_used u r.answer) ≡ true → Resolves chunks r.citations m

-- What cites nothing is a declared refusal of a sentence or two.
abbrev pub IsCited : {F : Type 0} → AnswerResult F → Type 0
IsCited r =
    r.mode ≡ llm
    → r.citations ≡ []
    → (r.insufficient ≡ true) × (count r.answer ≤ max_uncited_refusal_chars)

module _ (u : Unicode) (chunks : List Chunk) (insufficient : Bool) (text : String) where
  acceptable-Resolves :
      (m : ℕ)
      → is_acceptable u insufficient text (length chunks) ≡ true
      → mem m (markers_used u text) ≡ true
      → Resolves chunks (kept (markers_used u text) (build_citations chunks)) m
  unfolding is_acceptable validate_answer
  acceptable-Resolves m accepted h =
      elim (Bool-cases (validate (markers_used u text) (length chunks)).0) [
        | inl valid ↦ validate-Resolves (markers_used u text) chunks m valid h
        | inr invalid ↦ absurd (no_markers-mem m (markers_used u text) (ground arith) h)
      ]
    where
      no_markers-mem : (m : ℕ) (used : List ℕ) → no_markers used ≡ true → mem m used ≡ true → ⊥
      no_markers-mem m [] e h = cc
      no_markers-mem m (x ∷ used) e h = cc

  -- a valid answer has a marker, and so a citation
  acceptable-IsCited :
      is_acceptable u insufficient text (length chunks) ≡ true
      → kept (markers_used u text) (build_citations chunks) ≡ []
      → (insufficient ≡ true) × (count text ≤ max_uncited_refusal_chars)
  unfolding is_acceptable validate_answer
  acceptable-IsCited accepted bare =
      elim (Bool-cases (validate (markers_used u text) (length chunks)).0) [
        | inl valid ↦ absurd (valid-cited (markers_used u text) valid bare)
        | inr invalid ↦ ground (arith, leb→le (count text) max_uncited_refusal_chars)
      ]
    where
      valid-cited :
          (used : List ℕ)
          → (validate used (length chunks)).0 ≡ true
          → kept used (build_citations chunks) ≡ []
          → ⊥
      valid-cited [] valid e = cc
      valid-cited (m ∷ used) valid e =
          let (i, c, at, found, hit) = validate-Resolves (m ∷ used) chunks m valid (ground arith) in
          cc

module _ (u : Unicode) {F : Type 0} (chunks : List Chunk) where
  pub judge-eq-some :
      (reply : String) (r : AnswerResult F)
      → judge u reply chunks ≡ some r
      → (is_acceptable u (contains insufficient_marker reply) (shipped u reply) (length chunks)
          ≡ true)
        × (llm_result u (contains insufficient_marker reply) (shipped u reply) chunks ≡ r)
  unfolding judge
  judge-eq-some reply r e = ground arith

or_retry-Costs :
    {F : Type 0} {n : ℕ} (o : Option (AnswerResult F)) {m : Io (AnswerResult F)}
    → Costs n m
    → Costs n (or_retry o m)
unfolding or_retry
or_retry-Costs none c = c
or_retry-Costs {n} (some r) c = Costs-pure n r

module _ (u : Unicode) {F : Type 0} (chunks : List Chunk) where
  abbrev pub IsShippable : AnswerResult F → Type 0
  IsShippable r = IsGrounded u chunks r × IsCited r

  not_llm-IsShippable : (r : AnswerResult F) → r.mode ≢ llm → IsShippable r
  not_llm-IsShippable r other = (λ e m h. absurd (other e), λ e bare. absurd (other e))

  judge-IsShippable :
      (reply : String) (r : AnswerResult F) → judge u reply chunks ≡ some r → IsShippable r
  unfolding llm_result
  judge-IsShippable reply r e =
      let insufficient = contains insufficient_marker reply in
      let (accepted, is_r) = judge-eq-some u chunks reply r e in
      subst IsShippable is_r (
        (λ mode m h. acceptable-Resolves u chunks insufficient (shipped u reply) m accepted h),
        (λ mode bare. acceptable-IsCited u chunks insufficient (shipped u reply) accepted bare),
      )

module _ (u : Unicode) {F : Type 0} (api : Api) where
  -- What holds of an accepted reply and of the fallback holds of the loop's result.
  pub attempts_induction :
      (P : AnswerResult F → Type 0) (client : Client) (chunks : List Chunk) (prompt : String)
      → ((reply : String) (r : AnswerResult F) → judge u reply chunks ≡ some r → P r)
      → P (extractive_result u true (some uncited) chunks)
      → (n : ℕ) (w : World) (r : AnswerResult F)
      → (attempts u api client chunks prompt n w).0 ≡ ok r
      → P r
  unfolding attempts or_retry
  attempts_induction P client chunks prompt accepted fallback zero w r e = ground arith
  attempts_induction P client chunks prompt accepted fallback (suc n) w r e =
      let (reply, w', called, rest, _) =
        >>=-eq-ok (complete api client system_prompt prompt)
          (λ reply. or_retry (judge u reply chunks) (attempts u api client chunks prompt n)) w r
          e in
      elim (Option-cases (judge u {F = F} reply chunks)) [
        | inl retry ↦
            attempts_induction P client chunks prompt accepted fallback n w' r (ground arith)
        | inr (r', hit) ↦ accepted reply r (ground arith)
      ]

  attempts-Costs :
      (client : Client) (chunks : List Chunk) (prompt : String) (n : ℕ)
      → Costs n (attempts u {F = F} api client chunks prompt n)
  unfolding attempts
  attempts-Costs client chunks prompt zero = Costs-pure 0 _
  attempts-Costs client chunks prompt (suc n) =
      Costs-bind 1 n (complete api client system_prompt prompt) _ (omega arith)
        (Costs-complete api client system_prompt prompt)
        (λ reply. or_retry-Costs (judge u reply chunks) (attempts-Costs client chunks prompt n))

  -- An answer makes two calls to a model at most.
  pub answer_question-Costs :
      (question : String) (chunks : List Chunk) (client : Client) (profile : Option BusinessProfile)
      → Costs 2 (answer_question u {F = F} api question chunks client profile)
  unfolding answer_question
  answer_question-Costs question [] client profile = Costs-pure 2 _
  answer_question-Costs question (c ∷ chunks) extractive profile = Costs-pure 2 _
  answer_question-Costs question (c ∷ chunks) (anthropic model key) profile =
      attempts-Costs (anthropic model key) (c ∷ chunks) _ 2

  -- Of every answer that is returned: if a model wrote it, each marker in its text resolves to a
  -- citation that is sent along and quotes the retrieved passage of that number, and if nothing is
  -- cited then it is flagged insufficient and no longer than a short refusal.
  pub answer_question-IsGrounded :
      (question : String) (chunks : List Chunk) (client : Client) (profile : Option BusinessProfile)
      (w : World) (r : AnswerResult F)
      → (answer_question u api question chunks client profile w).0 ≡ ok r
      → IsGrounded u chunks r × IsCited r
  unfolding answer_question extractive_result
  answer_question-IsGrounded question [] client profile w r e =
      not_llm-IsShippable u [] r (ground arith)
  answer_question-IsGrounded question (c ∷ chunks) extractive profile w r e =
      not_llm-IsShippable u (c ∷ chunks) r (ground arith)
  answer_question-IsGrounded question (c ∷ chunks) (anthropic model key) profile w r e =
      attempts_induction (IsShippable u (c ∷ chunks)) (anthropic model key) (c ∷ chunks) _
        (judge-IsShippable u (c ∷ chunks))
        (not_llm-IsShippable u (c ∷ chunks)
          (extractive_result u {F = F} true (some uncited) (c ∷ chunks)) (λ h. ground arith))
        2 w r e
