-- ===== src/Ingestion.antt =====
-- core/ingestion: how a source becomes a document with passages.
pub mod Chunker
pub mod Loader
