-- ===== src/Retrieval/Hybrid.antt =====
-- `HybridRetriever` of core/retrieval/hybrid_retriever.py. The embedder and the vector store are
-- parameters that answer or raise (none).
pub mod Laws
use eu_rag.Base.{
  ℕ, ◌*◌, max, String, Bool, true, false, Option, none, some, List, [], ◌∷◌, if◌then◌else◌, length,
  map, get_elem?,
}
use eu_rag.Base.Text.{Unicode}
use eu_rag.Chunk.{Chunk}
use eu_rag.Llm.{Outcome, ok, crash, Client, Api, World, Io, pure, continue, ◌>>=◌}
use eu_rag.Retrieval.Fusion.{FloatOps, rrf_k, rrf_fuse}
use eu_rag.Retrieval.Bm25.{Lexer, FloatMath, Index, search}
use eu_rag.Retrieval.Pick.{pick}
use eu_rag.Retrieval.Rerank.{Model, rank_scored}
use eu_rag.Retrieval.Expansion.{expand, subqueries}

-- The retriever's fields; `V` is the type of the embeddings.
pub record Retriever (F V : Type 0) : Type 0 where
  pub bm25 : Index F
  pub vector_search : V → ℕ → Option (List String) → Option (List (String × F))
  pub embed_query : String → Option V
  pub reranker : Option (Model F)
  pub get_chunks : Option (List String → Option (List String) → Option (List Chunk))
  pub expander : Option Client
  pub decomposer : Option Client

-- a call outside the models that returns or raises
abbrev pub lift : {A : Type 0} → Option A → Io A
lift none w = (crash, w)
lift (some a) w = (ok a, w)

-- chunks[i].chunk_id
id_at : List Chunk → ℕ → Option String
id_at chunks i = elim (get_elem? chunks i) [ none ↦ none | some c ↦ some c.chunk_id ]

prepend_id : Option String → Option (List String) → Option (List String)
prepend_id none rest = none
prepend_id (some cid) none = none
prepend_id (some cid) (some rest) = some (cid ∷ rest)

-- `[chunks[i].chunk_id for i, _ in scored]`; none is an IndexError
pub reordered : {F : Type 0} → List Chunk → List (ℕ × F) → Option (List String)
unfolding id_at prepend_id
reordered chunks [] = some []
reordered chunks ((i, s) ∷ scored) = prepend_id (id_at chunks i) (reordered chunks scored)

best : {F : Type 0} → List (ℕ × F) → Option F
best [] = none
best ((i, s) ∷ scored) = some s

module _ (u : Unicode) (api : Api) where
  abbrev pub expanded : Option Client → String → Io String
  expanded none query = pure query
  expanded (some client) query = expand u api client query

  abbrev pub split : Option Client → String → Io (List String)
  split none query = pure []
  split (some client) query = subqueries u api client query

module _ (u : Unicode) {F V : Type 0} (api : Api) (math : FloatMath F) (lexer : Lexer)
    (ret : Retriever F V) where
  names : List (String × F) → List String
  names hits = map (λ e. e.0) hits

  semantic : String → ℕ → Option (List String) → Option (List (String × F))
  semantic text pool tenants = elim (ret.embed_query text) [
    | none ↦ none
    | some v ↦ ret.vector_search v pool tenants
  ]

  -- `_fused`
  unfoldable pub fused : String → ℕ → Option (List String) → Io (List String)
  unfolding names semantic
  fused query pool tenants = expanded u api ret.expander query >>= λ text.
      lift (semantic text pool tenants) >>= λ hits. pure (
        names (
          rrf_fuse math.ops rrf_k
            (names (search math lexer ret.bm25 query pool) ∷ names hits ∷ [])))

  -- the rankings of the question and of its parts
  pub rankings : List String → ℕ → Option (List String) → Io (List (List String))
  unfolding fused
  rankings [] pool tenants = pure []
  rankings (q ∷ queries) pool tenants = fused q pool tenants >>= λ ranking.
      rankings queries pool tenants >>= λ rest. pure (ranking ∷ rest)

  merged : List (List String) → List String
  unfolding names
  merged (ranking ∷ []) = ranking
  merged rs = names (rrf_fuse math.ops rrf_k rs)

  -- `self.get_chunks(fused, tenants)`, `rank_scored`, and the ids in the new order
  rerank_chunks : Model F → String → List Chunk → Option (List String × Option F)
  unfolding reordered best
  rerank_chunks model query chunks =
      elim (rank_scored math.ops.lt model query (map (λ c. c.text) chunks)) [
        | none ↦ none
        | some scored ↦ elim (reordered chunks scored) [
          | none ↦ none
          | some order ↦ some (order, best scored)
        ]
      ]

  reranked :
      Option (Model F)
      → Option (List String → Option (List String) → Option (List Chunk))
      → String
      → Option (List String)
      → List String
      → Option (List String × Option F)
  unfolding rerank_chunks
  reranked (some model) (some get_chunks) query tenants order = elim (get_chunks order tenants) [
    | none ↦ none
    | some chunks ↦ rerank_chunks model query chunks
  ]
  reranked (some model) none query tenants order = some (order, none)
  reranked none read query tenants order = some (order, none)

  abbrev pub pool_size :
      ℕ → Option (Model F) → Option (List String → Option (List String) → Option (List Chunk)) → ℕ
  pool_size k (some model) (some get_chunks) = max (k * 5) 30
  pool_size k (some model) none = max (k * 3) 10
  pool_size k none read = max (k * 3) 10

  -- `retrieve_scored`
  unfoldable pub retrieve_scored :
      String → ℕ → ℕ → Option (List String) → Io (List String × Option F)
  unfolding rankings merged reranked
  retrieve_scored query k max_per_doc tenants = split u api ret.decomposer query >>= λ parts.
      rankings (query ∷ parts) (pool_size k ret.reranker ret.get_chunks) tenants >>= λ rs.
      lift (reranked ret.reranker ret.get_chunks query tenants (merged rs)) >>= λ scored.
      pure (pick k max_per_doc scored.0, scored.1)

  -- `retrieve`
  unfoldable pub retrieve : String → ℕ → ℕ → Option (List String) → Io (List String)
  retrieve query k max_per_doc tenants =
      retrieve_scored query k max_per_doc tenants >>= λ scored. pure scored.0
