-- ===== src/Chunk.antt =====
-- The records that the parts pass to one another: `Chunk` of core/ingestion/chunker.py and
-- `Document` of core/ingestion/document_loader.py.
use eu_rag.Base.{ℕ, String}

pub record Chunk : Type 0 where
  pub chunk_id : String
  pub doc_id : String
  pub index : ℕ
  pub text : String
  pub title : String
  pub source_url : String

-- `content_hash`, a SHA-256 of the text, is a property of the class: see `Ingest`.
pub record Document : Type 0 where
  pub doc_id : String
  pub title : String
  pub text : String
  pub source_url : String
  pub source_type : String
  pub language : String
  pub fetched_at : String
