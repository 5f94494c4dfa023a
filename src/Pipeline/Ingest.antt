-- ===== src/Pipeline/Ingest.antt =====
-- `ingest` and `_rebuild_bm25` of core/pipeline.py. The embedder, Qdrant, SHA-256 and the nonces of
-- the cipher are parameters.
pub mod Laws
use eu_rag.Base.{
  ℕ, zero, suc, String, Bool, true, false, Option, none, some, List, [], ◌∷◌, map, ◌==◌,
  if◌then◌else◌, length,
}
use eu_rag.Chunk.{Chunk, Document}
use eu_rag.Registry.{Registry, document_hash, save, all_chunks}
use eu_rag.Retrieval.Bm25.{FloatMath, Lexer, Index, add_chunk}
use eu_rag.Ingestion.Chunker.{Letters, chunk_document}
use eu_rag.Security.Pii.{Finding, Presidio, gate}
use eu_rag.Pipeline.{Pipeline}
use eu_rag.Pipeline.Erase.{VectorSearch, Forget}

-- what ingestion takes from elsewhere; none is an exception
pub record Ingestor (F V : Type 0) : Type 0 where
  pub math : FloatMath F
  pub lexer : Lexer
  pub letters : Letters
  pub presidio : Presidio
  pub pii_backend : String
  pub sha256 : String → String
  pub nonce : ℕ → String
  pub embed_texts : List String → Option (List V)
  -- `delete_document` and `upsert` of the vector store, on the searches that it answers: whether the
  -- call returns, and what is answered afterwards
  pub forget : Forget F V
  pub upsert : List Chunk → List V → String → VectorSearch F V → Bool × VectorSearch F V

-- the number of chunks, the PIIError with its findings, or another exception
pub data Ingested : Type 0 where
  ingested : ℕ → Ingested
  rejected : List Finding → Ingested
  failed : Ingested

with_nonces : (ℕ → String) → ℕ → List Chunk → List (Chunk × String)
with_nonces nonce i [] = []
with_nonces nonce i (c ∷ cs) = (c, nonce i) ∷ with_nonces nonce (suc i) cs

abbrev pub is_unchanged : Option String → String → Bool
is_unchanged none content_hash = false
is_unchanged (some h) content_hash = h == content_hash

module _ {F V : Type 0} (g : Ingestor F V) where
  unfoldable pub add_chunks : List Chunk → Index F → Index F
  add_chunks [] index = index
  add_chunks (c ∷ cs) index = add_chunks cs (add_chunk g.math g.lexer c.chunk_id c.text index)

  stored : List Chunk → VectorSearch F V → Option Registry → Pipeline F V → Ingested × Pipeline F V
  unfolding add_chunks
  stored chunks found none p = (failed, record p { vector_search = found })
  stored chunks found (some registry) p = (
    ingested (length chunks),
    record p { vector_search = found; registry = registry; bm25 = add_chunks chunks p.bm25 },
  )

  upserted :
      Document
      → String
      → List Chunk
      → Bool × VectorSearch F V
      → Pipeline F V
      → Ingested × Pipeline F V
  unfolding stored with_nonces
  upserted doc tenant chunks (false, found) p = (failed, record p { vector_search = found })
  upserted doc tenant chunks (true, found) p =
      stored chunks found
        (save p.cipher doc (g.sha256 doc.text) (with_nonces g.nonce 0 chunks) tenant p.registry) p

  -- the passages that the store has of the document go first
  replaced :
      Document
      → String
      → List Chunk
      → List V
      → Bool × VectorSearch F V
      → Pipeline F V
      → Ingested × Pipeline F V
  unfolding upserted
  replaced doc tenant chunks vectors (false, found) p = (failed, record p { vector_search = found })
  replaced doc tenant chunks vectors (true, found) p =
      upserted doc tenant chunks (g.upsert chunks vectors tenant found) p

  embedded :
      Document → String → List Chunk → Option (List V) → Pipeline F V → Ingested × Pipeline F V
  unfolding replaced
  embedded doc tenant chunks none p = (failed, p)
  embedded doc tenant chunks (some vectors) p =
      replaced doc tenant chunks vectors (g.forget doc.doc_id p.vector_search) p

  passed : Document → String → Option (List Finding) → Pipeline F V → Ingested × Pipeline F V
  unfolding embedded
  passed doc tenant (some findings) p = (rejected findings, p)
  passed doc tenant none p =
      let chunks = chunk_document g.letters doc in
      if is_unchanged (document_hash p.registry doc.doc_id) (g.sha256 doc.text)
      then (ingested 0, p)
      else embedded doc tenant chunks (g.embed_texts (map (λ c. c.text) chunks)) p

  unfoldable pub ingest : Document → String → Pipeline F V → Ingested × Pipeline F V
  unfolding passed
  ingest doc tenant p =
      passed doc tenant (gate g.letters.unicode g.presidio doc.text doc.source_type g.pii_backend) p

  -- none where a row does not decrypt
  unfoldable pub rebuild_bm25 : Pipeline F V → Option (Pipeline F V)
  unfolding add_chunks
  rebuild_bm25 p = elim (all_chunks p.cipher p.registry) [
    | none ↦ none
    | some chunks ↦ some (record p { bm25 = add_chunks chunks p.bm25 })
  ]
