-- ===== src/Retrieval/Hybrid/Laws.antt =====
-- What a retrieval costs.
use eu_rag.Base.{
  ℕ, suc, ◌≤◌, sym, subst, ◌∙◌, String, ◌≡◌, ◌⊎◌, inl, inr, Option, none, some, List, [], ◌∷◌,
  arith, length,
}
use eu_rag.Base.Text.{Unicode}
use eu_rag.Llm.{Client, Api, Costs, Costs-pure, Costs-bind}
use eu_rag.Llm.Ensures.{Ensures, Ensures-pure, Costs-bind_if, ok_inj}
use eu_rag.Retrieval.Bm25.{Lexer, FloatMath}
use eu_rag.Retrieval.Expansion.Laws.{expand-Costs, subqueries-Costs, subqueries-returns}
use eu_rag.Retrieval.Hybrid.{Retriever, lift, expanded, split, fused, rankings, retrieve_scored}

pub lift-Costs : {A : Type 0} (o : Option A) → Costs 0 (lift o)
lift-Costs none = record { at_most = λ w. omega arith }
lift-Costs (some a) = record { at_most = λ w. omega arith }

module _ (u : Unicode) (api : Api) where
  expanded-Costs : (client : Option Client) (query : String) → Costs 1 (expanded u api client query)
  expanded-Costs none query = Costs-pure 1 query
  expanded-Costs (some client) query = expand-Costs u api client query

  split-Costs : (client : Option Client) (query : String) → Costs 1 (split u api client query)
  split-Costs none query = Costs-pure 1 []
  split-Costs (some client) query = subqueries-Costs u api client query

  split-Ensures :
      (client : Option Client) (query : String)
      → Ensures (λ parts. length parts ≤ 3) (split u api client query)
  split-Ensures none query = Ensures-pure [] (omega arith)
  split-Ensures (some client) query = record {
    yields = λ w parts e.
        let (lines, there, few) = subqueries-returns u api client query w in
        few_lines lines parts (ok_inj (sym there ∙ e)) few;
  }
    where
      few_lines :
          (lines parts : List String)
          → lines ≡ parts
          → (lines ≡ []) ⊎ ((2 ≤ length lines) × (length lines ≤ 3))
          → length parts ≤ 3
      few_lines lines parts e (inl none_found) =
          subst (λ l. length l ≤ 3) (sym none_found ∙ e) (omega arith)
      few_lines lines parts e (inr (many, few)) = subst (λ l. length l ≤ 3) e few

module _ (u : Unicode) {F V : Type 0} (api : Api) (math : FloatMath F) (lexer : Lexer)
    (ret : Retriever F V) where
  fused-Costs :
      (query : String) (pool : ℕ) (tenants : Option (List String))
      → Costs 1 (fused u api math lexer ret query pool tenants)
  unfolding fused
  fused-Costs query pool tenants =
      Costs-bind 1 0 (expanded u api ret.expander query) _ (omega arith)
        (expanded-Costs u api ret.expander query)
        (λ text. Costs-bind 0 0 (lift _) _ (omega arith) (lift-Costs _) (λ hits. Costs-pure 0 _))

  rankings-Costs :
      (queries : List String) (pool : ℕ) (tenants : Option (List String))
      → Costs (length queries) (rankings u api math lexer ret queries pool tenants)
  unfolding rankings
  rankings-Costs [] pool tenants = Costs-pure 0 []
  rankings-Costs (q ∷ queries) pool tenants =
      Costs-bind 1 (length queries) (fused u api math lexer ret q pool tenants) _ (omega arith)
        (fused-Costs q pool tenants)
        (λ ranking.
          Costs-bind (length queries) 0 (rankings u api math lexer ret queries pool tenants) _
            (omega arith) (rankings-Costs queries pool tenants) (λ rest. Costs-pure 0 _))

  -- A retrieval makes five calls to a model at most: one splits the question, and one rewrites each
  -- of the four questions that there can then be.
  pub retrieve_scored-Costs :
      (query : String) (k max_per_doc : ℕ) (tenants : Option (List String))
      → Costs 5 (retrieve_scored u api math lexer ret query k max_per_doc tenants)
  unfolding retrieve_scored
  retrieve_scored-Costs query k max_per_doc tenants =
      Costs-bind_if (λ parts. length parts ≤ 3) 1 4 (split u api ret.decomposer query) _
        (omega arith) (split-Ensures u api ret.decomposer query)
        (split-Costs u api ret.decomposer query)
        (λ parts few.
          Costs-bind (suc (length parts)) 0
            (rankings u api math lexer ret (query ∷ parts) _ tenants) _ (omega arith)
            (rankings-Costs (query ∷ parts) _ tenants)
            (λ rs.
              Costs-bind 0 0 (lift _) _ (omega arith) (lift-Costs _) (λ scored. Costs-pure 0 _)))
