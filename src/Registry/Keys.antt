-- ===== src/Registry/Keys.antt =====
-- The ids of core/ingestion/chunker.py keep the primary key of core/registry.py's table of chunks.
use mathlib.Core.List.{append-nil, append_assoc}
use eu_rag.Base.{
  ℕ, suc, ◌≤◌, String, ◌≡◌, ◌≢◌, refl, sym, ap, ◌∙◌, false, none, some, List, [], ◌∷◌, ◌++◌, arith,
  eq_iff, ◌==◌, any, find, All, All-append, length, inl, inr, Bool-cases,
}
use eu_rag.Base.Text.{◌<>◌, decimal, count}
use eu_rag.Base.Text.Laws.{drop_text, drop_text-append}
use eu_rag.Base.Text.Decimal.{decimal_inj, decimal-Lacks}
use eu_rag.Sql.{insert, delete, All-insert, All-delete}
use eu_rag.Retrieval.Pick.{doc_of}
use eu_rag.Retrieval.Pick.Ids.{doc_of-append}
use eu_rag.Chunk.{Chunk, Document}
use eu_rag.Registry.{
  Registry, ChunkRow, Cipher, of_document, chunk_row, insert_chunks, drop_document, document_row,
  save,
}

abbrev pub chunk_id_of : String → ℕ → String
chunk_id_of doc_id index = doc_id <> ":" <> decimal index

pub doc_of-chunk_id : (doc_id : String) (index : ℕ) → doc_of (chunk_id_of doc_id index) ≡ doc_id
doc_of-chunk_id doc_id index = doc_of-append doc_id (decimal index) (decimal-Lacks index)

chunk_id_of_inj : (d : String) (i j : ℕ) → chunk_id_of d i ≡ chunk_id_of d j → i ≡ j
unfolding ◌<>◌
chunk_id_of_inj d i j e = decimal_inj i j (
    ap (drop_text 1) (
      sym (drop_text-append d (":" <> decimal i))
      ∙ ap (drop_text (count d)) e
      ∙ drop_text-append d (":" <> decimal j)))

-- every row's id is made of its document's
abbrev pub IsKeyed : Registry → Type 0
IsKeyed reg = All (λ (r : ChunkRow). doc_of r.chunk_id ≡ r.doc_id) reg.chunks

-- the passages of a document, numbered from a number on
abbrev pub AreNumbered : String → ℕ → List (Chunk × String) → Type 0
AreNumbered d i [] = Unit
AreNumbered d i ((c, nonce) ∷ cs) =
    (c.chunk_id ≡ chunk_id_of d i) × (c.doc_id ≡ d) × AreNumbered d (suc i) cs

-- no row has an id of the document from a number on
abbrev IsFree : String → ℕ → ChunkRow → Type 0
IsFree d i r = (j : ℕ) → i ≤ j → r.chunk_id ≢ chunk_id_of d j

any-IsFree :
    (d : String) (i : ℕ) (id : String) (rows : List ChunkRow)
    → id ≡ chunk_id_of d i
    → All (IsFree d i) rows
    → any (λ r. r.chunk_id == id) rows ≡ false
any-IsFree d i id [] e free = refl
any-IsFree d i id (r ∷ rows) e (f, free) =
    let other : r.chunk_id ≢ id = λ same. f i (omega arith) (same ∙ e) in
    ground (arith, eq_iff r.chunk_id id, any-IsFree d i id rows e free)

All-IsFree :
    (d : String) (i : ℕ) (rows : List ChunkRow)
    → All (IsFree d i) rows
    → All (IsFree d (suc i)) rows
All-IsFree d i [] free = tt
All-IsFree d i (r ∷ rows) (f, free) = (λ j h. f j (omega arith), All-IsFree d i rows free)

-- once a document's rows are gone, its ids are free
delete-IsFree :
    (d : String) (rows : List ChunkRow)
    → All (λ (r : ChunkRow). doc_of r.chunk_id ≡ r.doc_id) rows
    → All (IsFree d 0) (delete (of_document d) rows)
delete-IsFree d [] keyed = tt
delete-IsFree d (r ∷ rows) (key, keyed) = elim (Bool-cases (r.doc_id == d)) [
  | inl own ↦ rw own (delete-IsFree d rows keyed)
  | inr other ↦ rw other (
    λ j h same.
        let id : r.doc_id ≡ d = sym key ∙ ap doc_of same ∙ doc_of-chunk_id d j in
        ground (arith, eq_iff r.doc_id d),
    delete-IsFree d rows keyed,
  )
]

module _ (cipher : Cipher) (tenant : String) where
  unfoldable pub rows_of : List (Chunk × String) → List ChunkRow
  rows_of [] = []
  rows_of ((c, nonce) ∷ cs) = chunk_row cipher nonce tenant c ∷ rows_of cs

  insert_chunks-total :
      (d : String) (i : ℕ) (cs : List (Chunk × String)) (rows : List ChunkRow)
      → AreNumbered d i cs
      → All (IsFree d i) rows
      → insert_chunks cipher tenant cs rows ≡ some (rows ++ rows_of cs)
  unfolding insert_chunks rows_of
  insert_chunks-total d i [] rows numbered free = ap some (sym (append-nil rows))
  insert_chunks-total d i ((c, nonce) ∷ cs) rows (id, of, numbered) free =
      rw (any-IsFree d i c.chunk_id rows id free) (
        insert_chunks-total d (suc i) cs (insert (chunk_row cipher nonce tenant c) rows) numbered (
          All-insert (IsFree d (suc i)) (chunk_row cipher nonce tenant c) rows
            (All-IsFree d i rows free)
            (unfold chunk_row in λ j h same. omega (arith, chunk_id_of_inj d i j (sym id ∙ same))))
        ∙ ap some (append_assoc rows (chunk_row cipher nonce tenant c ∷ []) (rows_of cs)))

  rows_of-keyed :
      (d : String) (i : ℕ) (cs : List (Chunk × String))
      → AreNumbered d i cs
      → All (λ (r : ChunkRow). doc_of r.chunk_id ≡ r.doc_id) (rows_of cs)
  unfolding rows_of chunk_row
  rows_of-keyed d i [] numbered = tt
  rows_of-keyed d i ((c, nonce) ∷ cs) (id, of, numbered) =
      (ap doc_of id ∙ doc_of-chunk_id d i ∙ sym of, rows_of-keyed d (suc i) cs numbered)

  -- Numbered passages can always be saved: no key is violated, whatever is in the table, and each
  -- row's id is still made of its document's.
  pub save-total :
      (doc : Document) (content_hash : String) (cs : List (Chunk × String)) (reg : Registry)
      → IsKeyed reg
      → AreNumbered doc.doc_id 0 cs
      → (reg' : Registry) × (save cipher doc content_hash cs tenant reg ≡ some reg')
        × (reg'.chunks ≡ delete (of_document doc.doc_id) reg.chunks ++ rows_of cs)
        × IsKeyed reg'
  unfolding save
  save-total doc content_hash cs reg keyed numbered =
      let kept = delete (of_document doc.doc_id) reg.chunks in
      let goes =
        insert_chunks-total doc.doc_id 0 cs kept numbered
          (delete-IsFree doc.doc_id reg.chunks keyed) in
      (
        record {
          documents =
              insert (document_row doc content_hash (length cs) tenant)
                (drop_document doc.doc_id reg).documents;
          chunks = kept ++ rows_of cs;
        },
        rw (goes, save) refl,
        refl,
        All-append (λ (r : ChunkRow). doc_of r.chunk_id ≡ r.doc_id) kept (rows_of cs)
            (All-delete (λ (r : ChunkRow). doc_of r.chunk_id ≡ r.doc_id) (of_document doc.doc_id)
              reg.chunks keyed)
            (rows_of-keyed doc.doc_id 0 cs numbered),
      )

pub find-rows_of :
    (cipher : Cipher) (tenant d doc_id : String) (i : ℕ) (cs : List (Chunk × String))
    → d ≢ doc_id
    → AreNumbered doc_id i cs
    → find (of_document d) (rows_of cipher tenant cs) ≡ none
unfolding rows_of chunk_row
find-rows_of cipher tenant d doc_id i [] other h = refl
find-rows_of cipher tenant d doc_id i ((c, nonce) ∷ cs) other (id, of, h) =
    ground (arith, eq_iff c.doc_id d, find-rows_of cipher tenant d doc_id (suc i) cs other h)
