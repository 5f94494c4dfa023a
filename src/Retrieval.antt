-- ===== src/Retrieval.antt =====
-- core/retrieval: lexical and vector rankings, their fusion, and the choice of the passages.
pub mod Sort
pub mod Fusion
pub mod Pick
pub mod Rerank
pub mod Expansion
pub mod Bm25
pub mod Hybrid
