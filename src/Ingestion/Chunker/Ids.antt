-- ===== src/Ingestion/Chunker/Ids.antt =====
-- The ids of the passages of core/ingestion/chunker.py.
use eu_rag.Base.{ℕ, suc, String, ◌≡◌, refl, List, [], ◌∷◌}
use eu_rag.Base.Text.{◌<>◌, decimal}
use eu_rag.Chunk.{Chunk, Document}
use eu_rag.Ingestion.Chunker.{Letters, number, chunk_document, section_texts, split_articles}

-- the passages of a document in order, numbered from a number on
abbrev pub Numbered : Document → ℕ → List Chunk → Type 0
Numbered doc i [] = Unit
Numbered doc i (c ∷ cs) =
    (c.index ≡ i)
    × (c.chunk_id ≡ doc.doc_id <> ":" <> decimal i)
    × (c.doc_id ≡ doc.doc_id)
    × Numbered doc (suc i) cs

number-Numbered :
    (doc : Document) (i : ℕ) (texts : List String) → Numbered doc i (number doc i texts)
unfolding number
number-Numbered doc i [] = tt
number-Numbered doc i (t ∷ texts) = (refl, refl, refl, number-Numbered doc (suc i) texts)

-- The passages of a document are numbered from 0 on, and each id is the document's with its number.
pub chunk_document-Numbered : (t : Letters) (doc : Document) → Numbered doc 0 (chunk_document t doc)
unfolding chunk_document
chunk_document-Numbered t doc = number-Numbered doc 0 (section_texts t (split_articles t doc.text))
