-- ===== src/Ingestion/Chunker/Covers.antt =====
-- The passages of core/ingestion/chunker.py keep every word of the text, and its order.
use Prim.Native.Char.{Char, code}
use eu_rag.Base.{ℕ, ◌≡◌, true, List, eqb}
use eu_rag.Base.Text.{Unicode}
use eu_rag.Ingestion.Chunker.Breaks.{IsBreaking}

module _ (u : Unicode) (max_words : ℕ) where
  -- spaces and line breaks are white space
  abbrev pub HasSpaces : Type 0
  HasSpaces = IsBreaking u × ((c : Char) → eqb (code c) b' ' ≡ true → u.is_space c ≡ true)
