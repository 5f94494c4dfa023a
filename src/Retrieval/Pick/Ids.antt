-- ===== src/Retrieval/Pick/Ids.antt =====
-- The ids that core/ingestion/chunker.py makes, a document's id, a colon and a number, as
-- `rsplit` reads them.
use eu_rag.Base.{String, ◌≡◌, refl, ap, none, some}
use eu_rag.Base.Text.{◌<>◌}
use eu_rag.Base.Text.Decimal.{Lacks}
use eu_rag.Retrieval.Pick.{before_colon, or_whole, doc_of}

before_colon-Lacks : (t : String) → Lacks b':' t → before_colon t ≡ none
unfolding before_colon
before_colon-Lacks String.[] h = refl
before_colon-Lacks (String.◌∷◌ c t) h = rw (before_colon-Lacks t h.1) (rw h.0 refl)

before_colon-append : (d t : String) → Lacks b':' t → before_colon (d <> ":" <> t) ≡ some d
unfolding before_colon ◌<>◌
before_colon-append String.[] t h = rw (before_colon-Lacks t h) refl
before_colon-append (String.◌∷◌ c d) t h = rw (before_colon-append d t h) refl

-- What stands in front of the last colon is read back, whatever colons the front itself holds.
pub doc_of-append : (d t : String) → Lacks b':' t → doc_of (d <> ":" <> t) ≡ d
unfolding doc_of
doc_of-append d t h = ap (or_whole (d <> ":" <> t)) (before_colon-append d t h)
