-- ===== src/Retrieval/Bm25/Erasure.antt =====
-- What `BM25Index.remove` does to the entries of core/retrieval/bm25.py's index.
use eu_rag.Base.{◌≡◌, String, none, arith, ◌==◌, eq_iff, inl, inr, if◌then◌else◌, Option-cases}
use eu_rag.Base.Dict.{get, get-remove}
use eu_rag.Retrieval.Bm25.{FloatMath, Index, remove_chunk}

module _ {F : Type 0} (math : FloatMath F) where
  -- removing a chunk takes its entry, if there is one, and no other
  pub get-remove_chunk :
      (k cid : String) (index : Index F)
      → get cid (remove_chunk math k index).doc_tokens
        ≡ (if k == cid then none else get cid index.doc_tokens)
  unfolding remove_chunk
  get-remove_chunk k cid index = elim (Option-cases (get k index.doc_tokens)) [
    | inl missing ↦ rw missing (ground (arith, eq_iff k cid))
    | inr (tokens, there) ↦ rw there (get-remove k cid index.doc_tokens)
  ]
