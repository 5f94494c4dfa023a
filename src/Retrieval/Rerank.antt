-- ===== src/Retrieval/Rerank.antt =====
-- core/retrieval/reranker.py. The cross-encoder model is a parameter: it gives each text a score.
use eu_rag.Base.{ℕ, suc, String, Bool, ◌||◌, Option, none, some, List, [], ◌∷◌, ◌==◌, if◌then◌else◌}
use eu_rag.Base.Text.{is_empty}
use eu_rag.Retrieval.Sort.{sort_down}

-- `TextCrossEncoder.rerank`: the scores of the texts, in their order. None is an exception.
abbrev pub Model : Type 0 → Type 0
Model F = String → List String → Option (List F)

-- the pairs of an index and its score, from index i
pub enumerate : {F : Type 0} → ℕ → List F → List (ℕ × F)
enumerate i [] = []
enumerate i (s ∷ scores) = (i, s) ∷ enumerate (suc i) scores

module _ {F : Type 0} (lt : F → F → Bool) where
  abbrev ranked : Option (List F) → Option (List (ℕ × F))
  unfolding enumerate
  ranked none = none
  ranked (some scores) = some (sort_down lt (λ e. e.1) (enumerate 0 scores))

  -- `rank_scored`: `range(len(texts))` has the indices of the scores
  unfoldable pub rank_scored : Model F → String → List String → Option (List (ℕ × F))
  unfolding ranked
  rank_scored model query texts = ranked (model query texts)

-- `get_reranker`: none where it is switched off or cannot be loaded
unfoldable pub get_reranker : {F : Type 0} → (String → Option (Model F)) → String → Option (Model F)
get_reranker load spec = if is_empty spec || spec == "none" then none else load spec
