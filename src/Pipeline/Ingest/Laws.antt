-- ===== src/Pipeline/Ingest/Laws.antt =====
-- What an ingestion (core/pipeline.py) writes, and what it leaves.
use eu_rag.Base.{
  ℕ, suc, ◌≡◌, ◌≢◌, ◌⊎◌, inl, inr, refl, sym, ap, ◌∙◌, String, Bool, true, false, Option, none,
  some, List, [], ◌∷◌, ◌++◌, map, arith, eq_iff, ◌==◌, length, find, Member, is_some, Bool-cases,
  select, eq_refl,
}
use eu_rag.Base.Dict.{get}
use eu_rag.Chunk.{Chunk, Document}
use eu_rag.Sql.{delete, find-delete_miss}
use eu_rag.Registry.{ChunkRow, chunk_row, document_hash, document_tenant, of_document, save}
use eu_rag.Registry.Erasure.{save-document}
use eu_rag.Registry.Keys.{IsKeyed, AreNumbered, doc_of-chunk_id, rows_of, find-rows_of, save-total}
use eu_rag.Retrieval.Bm25.{Index, add_chunk}
use eu_rag.Retrieval.Bm25.Adding.{get-add_chunk}
use eu_rag.Retrieval.Pick.{doc_of}
use eu_rag.Ingestion.Chunker.{chunk_document}
use eu_rag.Ingestion.Chunker.Ids.{Numbered, chunk_document-Numbered}
use eu_rag.Security.Pii.{Finding, gate}
use eu_rag.Pipeline.{Pipeline}
use eu_rag.Pipeline.Erase.{VectorSearch}
use eu_rag.Pipeline.Erase.Laws.{IsKept}
use eu_rag.Pipeline.Ingest.{
  Ingestor, Ingested, ingested, rejected, failed, with_nonces, is_unchanged, add_chunks, stored,
  upserted, replaced, embedded, passed, ingest,
}

with_nonces-AreNumbered :
    (doc : Document) (nonce : ℕ → String) (i j : ℕ) (cs : List Chunk)
    → Numbered doc i cs
    → AreNumbered doc.doc_id i (with_nonces nonce j cs)
unfolding with_nonces
with_nonces-AreNumbered doc nonce i j [] h = tt
with_nonces-AreNumbered doc nonce i j (c ∷ cs) (index, id, of, h) =
    (id, of, with_nonces-AreNumbered doc nonce (suc i) (suc j) cs h)

abbrev pub ids_of : List Chunk → List String
ids_of cs = map (λ (c : Chunk). c.chunk_id) cs

-- the ids are of the document
ids_of-Member :
    (doc : Document) (i : ℕ) (cs : List Chunk) (cid : String)
    → Numbered doc i cs
    → Member cid (ids_of cs)
    → doc_of cid ≡ doc.doc_id
ids_of-Member doc i (c ∷ cs) cid (index, id, of, h) (inl e) =
    ap doc_of (e ∙ id) ∙ doc_of-chunk_id doc.doc_id i
ids_of-Member doc i (c ∷ cs) cid (index, id, of, h) (inr m) = ids_of-Member doc (suc i) cs cid h m
ids_of-Member doc i [] cid h m = absurd m

module _ {F V : Type 0} (g : Ingestor F V) where
  -- the new passages have their entries in the index, and no other entry is touched
  get-add_chunks :
      (cs : List Chunk) (cid : String) (index : Index F)
      → (is_some (get cid index.doc_tokens) ≡ true
          → is_some (get cid (add_chunks g cs index).doc_tokens) ≡ true)
        × (Member cid (ids_of cs) → is_some (get cid (add_chunks g cs index).doc_tokens) ≡ true)
        × ((Member cid (ids_of cs) → ⊥)
            → get cid (add_chunks g cs index).doc_tokens ≡ get cid index.doc_tokens)
  unfolding add_chunks
  get-add_chunks [] cid index = (λ h. h, λ m. absurd m, λ other. refl)
  get-add_chunks (c ∷ cs) cid index =
      let step = get-add_chunk g.math g.lexer c.chunk_id c.text cid index in
      let (stays, goes, keeps) =
        get-add_chunks cs cid (add_chunk g.math g.lexer c.chunk_id c.text index) in
      elim (Bool-cases (c.chunk_id == cid)) [
        | inl hit ↦
            let there : is_some
                  (get cid (add_chunk g.math g.lexer c.chunk_id c.text index).doc_tokens)
                ≡ true =
              ap is_some (rw hit at step) in
            (
              λ h. stays there,
              λ m. stays there,
              λ other. absurd (other (inl (sym ((eq_iff c.chunk_id cid).0 hit)))),
            )
        | inr miss ↦
            let kept = rw miss at step in
            (
              λ h. stays (ap is_some kept ∙ h),
              λ m. elim m [ inl e ↦ ground (arith, eq_iff c.chunk_id cid) | inr m ↦ goes m ],
              λ other. keeps (λ m. other (inr m)) ∙ kept,
            )
      ]

find-append_miss :
    {R : Type 0} (q : R → Bool) (xs ys : List R) → find q ys ≡ none → find q (xs ++ ys) ≡ find q xs
find-append_miss q [] ys h = h
find-append_miss q (x ∷ xs) ys h = ground (arith, find-append_miss q xs ys h)

unchanged : (o : Option String) (h : String) → is_unchanged o h ≡ true → o ≡ some h
unchanged none h e = cc
unchanged (some x) h e = ap some ((eq_iff x h).0 e)

module _ {F V : Type 0} (g : Ingestor F V) (doc : Document) (tenant : String)
    (p : Pipeline F V) where
  abbrev pub chunks_of : List Chunk
  chunks_of = chunk_document g.letters doc

  -- the rows of passages from a number on, each with its text encrypted
  abbrev pub tenant_rows : ℕ → List Chunk → List ChunkRow
  tenant_rows i [] = []
  tenant_rows i (c ∷ cs) =
      record {
        chunk_id = c.chunk_id;
        doc_id = doc.doc_id;
        index = c.index;
        text = p.cipher.encrypt (g.nonce i) c.text;
        title = c.title;
        source_url = c.source_url;
        tenant = tenant;
      }
      ∷ tenant_rows (suc i) cs

  select-rows_of :
      (i j : ℕ) (cs : List Chunk)
      → Numbered doc i cs
      → select (of_document doc.doc_id) (rows_of p.cipher tenant (with_nonces g.nonce j cs))
        ≡ tenant_rows j cs
  unfolding rows_of chunk_row with_nonces
  select-rows_of i j [] h = refl
  select-rows_of i j (c ∷ cs) (index, id, of, h) =
      let row : ChunkRow = record {
        chunk_id = c.chunk_id;
        doc_id = doc.doc_id;
        index = c.index;
        text = p.cipher.encrypt (g.nonce j) c.text;
        title = c.title;
        source_url = c.source_url;
        tenant = tenant;
      } in
      rw (of, eq_refl doc.doc_id) (ap (λ l. row ∷ l) (select-rows_of (suc i) (suc j) cs h))

  select-written :
      (rows : List ChunkRow)
      → select (of_document doc.doc_id) (
          delete (of_document doc.doc_id) rows
          ++ rows_of p.cipher tenant (with_nonces g.nonce 0 chunks_of))
        ≡ tenant_rows 0 chunks_of
  select-written [] = select-rows_of 0 0 chunks_of (chunk_document-Numbered g.letters doc)
  select-written (r ∷ rows) = elim (Bool-cases (r.doc_id == doc.doc_id)) [
    | inl own ↦ rw own (select-written rows)
    | inr other ↦ rw (other, other) (select-written rows)
  ]

  -- the document is stored for the tenant with all of its passages, and nothing else is touched
  abbrev pub IsWritten : Pipeline F V → Type 0
  IsWritten p' =
      (document_hash p'.registry doc.doc_id ≡ some (g.sha256 doc.text))
      × (document_tenant p'.registry doc.doc_id ≡ some tenant)
      × (select (of_document doc.doc_id) p'.registry.chunks ≡ tenant_rows 0 chunks_of)
      × ((cid : String)
          → Member cid (ids_of chunks_of)
          → is_some (get cid p'.bm25.doc_tokens) ≡ true)
      × ((cid : String)
          → (Member cid (ids_of chunks_of) → ⊥)
          → get cid p'.bm25.doc_tokens ≡ get cid p.bm25.doc_tokens)
      × ((d : String) → d ≢ doc.doc_id → IsKept d p p')

  abbrev pub Ends : Ingested → Pipeline F V → Type 0
  Ends (rejected findings) p' = p' ≡ p
  Ends failed p' = (p'.registry ≡ p.registry) × (p'.bm25 ≡ p.bm25)
  Ends (ingested n) p' =
      ((n ≡ 0) × (p' ≡ p) × (document_hash p.registry doc.doc_id ≡ some (g.sha256 doc.text)))
      ⊎ ((n ≡ length chunks_of) × IsWritten p')

  abbrev EndsWell : Ingested × Pipeline F V → Type 0
  EndsWell (r, p') = IsKeyed p'.registry × Ends r p'

  stored-EndsWell :
      (found : VectorSearch F V)
      → IsKeyed p.registry
      → EndsWell (
          stored g chunks_of found
            (save p.cipher doc
              (g.sha256 doc.text)
              (with_nonces g.nonce 0 chunks_of)
              tenant
              p.registry)
            p)
  unfolding stored
  stored-EndsWell found keyed =
      let cs = with_nonces g.nonce 0 chunks_of in
      let hash = g.sha256 doc.text in
      let ids = chunk_document-Numbered g.letters doc in
      let numbered = with_nonces-AreNumbered doc g.nonce 0 0 chunks_of ids in
      let (reg', e, rows, keyed') =
        save-total p.cipher tenant doc hash cs p.registry keyed numbered in
      let (is_hash, is_tenant, _) =
        save-document p.cipher doc hash cs tenant p.registry reg' doc.doc_id e in
      rw e (
        keyed',
        inr (
          refl,
          (
            is_hash,
            is_tenant,
            ap (select (of_document doc.doc_id)) rows ∙ select-written p.registry.chunks,
            λ cid m. let (_, goes, _) = get-add_chunks g chunks_of cid p.bm25 in goes m,
            λ cid m. let (_, _, keeps) = get-add_chunks g chunks_of cid p.bm25 in keeps m,
            λ d other.
                let (_, _, others) =
                  save-document p.cipher doc hash cs tenant p.registry reg' d e in
                (
                  (others other).0,
                  ap (find (of_document d)) rows
                      ∙ find-append_miss (of_document d)
                          (delete (of_document doc.doc_id) p.registry.chunks)
                          (rows_of p.cipher tenant cs)
                          (find-rows_of p.cipher tenant d doc.doc_id 0 cs other numbered)
                      ∙ find-delete_miss (of_document d) (of_document doc.doc_id) p.registry.chunks
                          (λ r h. ground (arith, eq_iff r.doc_id doc.doc_id, eq_iff r.doc_id d)),
                  λ cid of.
                      let (_, _, keeps) = get-add_chunks g chunks_of cid p.bm25 in
                      keeps (λ m. other (sym of ∙ ids_of-Member doc 0 chunks_of cid ids m)),
                ),
          ),
        ),
      )

  upserted-EndsWell :
      (o : Bool × VectorSearch F V)
      → IsKeyed p.registry
      → EndsWell (upserted g doc tenant chunks_of o p)
  unfolding upserted
  upserted-EndsWell (false, found) keyed = (keyed, (refl, refl))
  upserted-EndsWell (true, found) keyed = stored-EndsWell found keyed

  replaced-EndsWell :
      (vectors : List V) (o : Bool × VectorSearch F V)
      → IsKeyed p.registry
      → EndsWell (replaced g doc tenant chunks_of vectors o p)
  unfolding replaced
  replaced-EndsWell vectors (false, found) keyed = (keyed, (refl, refl))
  replaced-EndsWell vectors (true, found) keyed =
      upserted-EndsWell (g.upsert chunks_of vectors tenant found) keyed

  embedded-EndsWell :
      (o : Option (List V)) → IsKeyed p.registry → EndsWell (embedded g doc tenant chunks_of o p)
  unfolding embedded
  embedded-EndsWell none keyed = (keyed, (refl, refl))
  embedded-EndsWell (some vectors) keyed =
      replaced-EndsWell vectors (g.forget doc.doc_id p.vector_search) keyed

  passed-EndsWell :
      (o : Option (List Finding)) → IsKeyed p.registry → EndsWell (passed g doc tenant o p)
  unfolding passed
  passed-EndsWell (some findings) keyed = (keyed, refl)
  passed-EndsWell none keyed =
      let hash = g.sha256 doc.text in
      let known = document_hash p.registry doc.doc_id in
      elim (Bool-cases (is_unchanged known hash)) [
        | inl same ↦ rw same (keyed, inl (refl, refl, unchanged known hash same))
        | inr new ↦
            rw new (embedded-EndsWell (g.embed_texts (map (λ (c : Chunk). c.text) chunks_of)) keyed)
      ]

  -- Of an ingestion into a registry whose rows have their documents' ids, which stays so: a document
  -- that the gate rejects changes nothing at all; one that fails, in the embedder or in the vector
  -- store, changes neither the registry nor the live index; one that is there already with this
  -- text is counted as nothing and changes nothing; and any other is stored for the tenant with its
  -- text's hash, the registry's rows of it are exactly its passages in their order, each with its
  -- encrypted text and the tenant, all of them are in the live index, no other entry of the index is
  -- touched, and every other document is kept.
  pub ingest-Ends :
      IsKeyed p.registry → let (r, p') = ingest g doc tenant p in IsKeyed p'.registry × Ends r p'
  unfolding ingest
  ingest-Ends keyed =
      passed-EndsWell (gate g.letters.unicode g.presidio doc.text doc.source_type g.pii_backend)
        keyed
