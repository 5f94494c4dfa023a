-- ===== src/Retrieval/Bm25/Built.antt =====
-- What the counts of core/retrieval/bm25.py's index say of its chunks, however it was built.
use eu_rag.Base.{
  ◌≡◌, ◌≢◌, refl, sym, ap, subst, ◌∙◌, String, true, false, Option, none, some, List, [], arith,
  ◌==◌, eq_refl, inl, inr, if◌then◌else◌, is_some, some_inj, Bool-cases, Option-cases,
}
use eu_rag.Base.Dict.{get, remove, get-put, get-remove}
use eu_rag.Base.Dict.Distinct.{IsDistinct, put-IsDistinct, remove-IsDistinct}
use eu_rag.Retrieval.Bm25.{
  FloatMath, Index, Lexer, tokenize, counter, count_of, total, empty_index, remove_chunk, add_chunk,
}
use eu_rag.Retrieval.Bm25.Counts.{
  Tokens, holders, length_of, counter-IsDistinct, get-count_terms, get-uncount_terms,
  count_terms-HasNoZero, uncount_terms-HasNoZero, holders-put, holders-remove,
}
use eu_rag.Retrieval.Bm25.Erasure.{get-remove_chunk}

abbrev pub IsConsistent : {F : Type 0} → Index F → Type 0
IsConsistent index =
    IsDistinct index.doc_tokens
    × ((cid : String) (tokens : Tokens)
        → get cid index.doc_tokens ≡ some tokens
        → IsDistinct tokens)
    × ((term : String) → count_of (get term index.df) ≡ holders term index.doc_tokens)
    × ((term : String) → get term index.df ≢ some 0)
    × ((cid : String) → get cid index.doc_len ≡ length_of (get cid index.doc_tokens))

is_some-none : (o : Option Tokens) → is_some o ≡ false → o ≡ none
is_some-none none e = refl
is_some-none (some tokens) e = cc

module _ {F : Type 0} (math : FloatMath F) where
  remove_chunk-IsConsistent :
      (k : String) (index : Index F) → IsConsistent index → IsConsistent (remove_chunk math k index)
  unfolding remove_chunk
  remove_chunk-IsConsistent k index (distinct, values, counts, no_zero, lengths) =
      elim (Option-cases (get k index.doc_tokens)) [
        | inl missing ↦ rw missing (distinct, values, counts, no_zero, lengths)
        | inr (tokens, there) ↦ rw there (
          remove-IsDistinct k index.doc_tokens distinct,
          λ cid old e.
              let left = get-remove k cid index.doc_tokens in
              let own = values cid old in ground arith,
          λ term.
              let uncounted = get-uncount_terms term tokens index.df (values k tokens there) in
              let counted = counts term in
              let held = holders-remove term k tokens index.doc_tokens distinct there in
              omega (arith, uncounted, counted, held),
          uncount_terms-HasNoZero tokens index.df no_zero,
          λ cid.
              get-remove k cid index.doc_len
              ∙ ap (λ o. if k == cid then none else o) (lengths cid)
              ∙ pushed k cid index.doc_tokens,
        )
      ]
    where
      pushed :
          (k cid : String) (docs : List (String × Tokens))
          → (if k == cid then none else length_of (get cid docs))
            ≡ length_of (get cid (remove k docs))
      pushed k cid docs = let left = get-remove k cid docs in ground arith

  -- of a chunk that is not there
  add_fresh-IsConsistent :
      (lexer : Lexer) (k text : String) (index : Index F)
      → get k index.doc_tokens ≡ none
      → IsConsistent index
      → IsConsistent (add_chunk math lexer k text index)
  unfolding add_chunk
  add_fresh-IsConsistent lexer k text index missing (distinct, values, counts, no_zero, lengths) =
      let tokens = counter (tokenize lexer text) [] in
      let once = counter-IsDistinct (tokenize lexer text) [] tt in
      rw missing (
        put-IsDistinct k tokens index.doc_tokens distinct,
        λ cid old e.
            let written = get-put k cid tokens index.doc_tokens in
            elim (Bool-cases (k == cid)) [
              | inl same ↦
                  let it : tokens ≡ old = some_inj (sym (written ∙ rw same refl) ∙ e) in
                  subst (λ x. IsDistinct x) it once
              | inr other ↦ values cid old (sym (written ∙ rw other refl) ∙ e)
            ],
        λ term.
            let counted = get-count_terms term tokens index.df once in
            let before = counts term in
            let held = holders-put term k tokens index.doc_tokens missing in
            omega (arith, counted, before, held),
        count_terms-HasNoZero tokens index.df no_zero,
        λ cid.
            let written = get-put k cid tokens index.doc_tokens in
            let len = get-put k cid (total tokens) index.doc_len in
            let old = lengths cid in ground arith,
      )

  add_chunk-cleared :
      (lexer : Lexer) (k text : String) (index : Index F)
      → is_some (get k index.doc_tokens) ≡ true
      → get k (remove_chunk math k index).doc_tokens ≡ none
      → add_chunk math lexer k text index ≡ add_chunk math lexer k text (remove_chunk math k index)
  unfolding add_chunk
  add_chunk-cleared lexer k text index old gone = rw (old, gone) refl

  add_chunk-IsConsistent :
      (lexer : Lexer) (k text : String) (index : Index F)
      → IsConsistent index
      → IsConsistent (add_chunk math lexer k text index)
  add_chunk-IsConsistent lexer k text index h =
      elim (Bool-cases (is_some (get k index.doc_tokens))) [
        | inl old ↦
            let gone = get-remove_chunk math k k index ∙ rw (eq_refl k) refl in
            subst (λ x. IsConsistent x) (sym (add_chunk-cleared lexer k text index old gone))
              (add_fresh-IsConsistent lexer k text (remove_chunk math k index) gone
                (remove_chunk-IsConsistent k index h))
        | inr new ↦
            add_fresh-IsConsistent lexer k text index (is_some-none (get k index.doc_tokens) new) h
      ]

  -- the indexes that additions and removals make
  pub data Built : Index F → Type 0 where
    created : Built (empty_index math)
    added :
        (index : Index F) (lexer : Lexer) (chunk_id text : String)
        → Built index
        → Built (add_chunk math lexer chunk_id text index)
    removed :
        (index : Index F) (chunk_id : String)
        → Built index
        → Built (remove_chunk math chunk_id index)

  -- An index that additions and removals have made from the empty one is consistent: no chunk has two
  -- entries and no chunk counts a term twice; the document frequency of a term is the number of the
  -- chunks that have it, and is never a stored zero; and the length of each chunk is the sum of its
  -- counts, while a chunk that is not there has no length.
  pub Built-IsConsistent : (index : Index F) → Built index → IsConsistent index
  unfolding get
  Built-IsConsistent _ created = (tt, λ cid tokens e. cc, λ term. refl, λ term e. cc, λ cid. refl)
  Built-IsConsistent _ (added index lexer chunk_id text b) =
      add_chunk-IsConsistent lexer chunk_id text index (Built-IsConsistent index b)
  Built-IsConsistent _ (removed index chunk_id b) =
      remove_chunk-IsConsistent chunk_id index (Built-IsConsistent index b)
