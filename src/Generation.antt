-- ===== src/Generation.antt =====
-- core/generation: citations, and the answerer that enforces them.
pub mod Citations
pub mod Prompts
pub mod Answerer
