-- ===== src/Retrieval/Bm25/Adding.antt =====
-- What `BM25Index.add` does to the entries of core/retrieval/bm25.py's index.
use eu_rag.Base.{
  ◌≡◌, String, some, [], arith, ◌==◌, inl, inr, if◌then◌else◌, Bool-cases, is_some, ◌∙◌,
}
use eu_rag.Base.Dict.{get, get-put}
use eu_rag.Retrieval.Bm25.{FloatMath, Index, Lexer, tokenize, counter, remove_chunk, add_chunk}
use eu_rag.Retrieval.Bm25.Erasure.{get-remove_chunk}

module _ {F : Type 0} (math : FloatMath F) (lexer : Lexer) where
  -- adding a chunk writes its entry, and no other
  pub get-add_chunk :
      (k text cid : String) (index : Index F)
      → get cid (add_chunk math lexer k text index).doc_tokens
        ≡ (if k == cid then some (counter (tokenize lexer text) []) else get cid index.doc_tokens)
  unfolding add_chunk
  get-add_chunk k text cid index = elim (Bool-cases (is_some (get k index.doc_tokens))) [
    | inl old ↦ rw old (
        get-put k cid (counter (tokenize lexer text) []) (remove_chunk math k index).doc_tokens
        ∙ rw (get-remove_chunk math k cid index) (ground arith))
    | inr new ↦ rw new (get-put k cid (counter (tokenize lexer text) []) index.doc_tokens)
  ]
