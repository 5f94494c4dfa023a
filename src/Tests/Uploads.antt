-- ===== src/Tests/Uploads.antt =====
-- Uploads: a text is cut, scanned and stored.
use Prim.Native.Char.{code}
use eu_rag.Base.{
  ◌⊎◌, ℕ, ◌≡◌, ◌≤◌, ◌<◌, refl, String, Bool, true, false, Option, none, some, List, [], ◌∷◌, ◌++◌,
  map, leb, ◌&&◌, arith,
}
use eu_rag.Base.Text.{◌<>◌, strip}
use eu_rag.Base.Regex.{split, find_all}
use eu_rag.Chunk.{Document}
use eu_rag.Registry.Keys.{IsKeyed}
use eu_rag.Ingestion.Chunker.{
  Letters, words, is_heading, split_articles, chunk_text, paragraphs, paragraph_break,
  chunk_document,
}
use eu_rag.Security.Pii.{luhn_ok, email}
use eu_rag.Security.Pii.Luhn.{luhn_ok-swap}
use eu_rag.Pipeline.Ingest.{Ingestor, ingest}
use eu_rag.Pipeline.Ingest.Laws.{Ends, ingest-Ends}
use eu_rag.Tests.Sample.{ascii, is_digit, math, lexer, pipeline}

abbrev pub letters : Letters
letters = record {
  unicode = ascii;
  is_digit = is_digit;
  is_lower = λ c. leb 97 (code c) && leb (code c) 122;
}

a_heading : is_heading ascii "Article 37" ≡ true
unfolding is_heading eu_rag.Base.Regex.one eu_rag.Base.Regex.star eu_rag.Base.Regex.maybe
    eu_rag.Base.Regex.at_end
a_heading = refl

no_heading : is_heading ascii "Article 6 of Regulation" ≡ false
unfolding is_heading eu_rag.Base.Regex.one eu_rag.Base.Regex.star eu_rag.Base.Regex.maybe
    eu_rag.Base.Regex.at_end
no_heading = refl

abbrev pub law_text : String
law_text = "Preamble\n\nArticle 1\n\nScope\nThis law applies.\n\nIt binds."

two_articles :
    split_articles letters law_text
    ≡ ("", "Preamble\n") ∷ ("Article 1 — Scope", "This law applies.\n\nIt binds.") ∷ []
unfolding split_articles eu_rag.Ingestion.Chunker.split_char is_heading eu_rag.Base.Regex.one
    eu_rag.Base.Regex.star eu_rag.Base.Regex.maybe eu_rag.Base.Regex.at_end strip
    eu_rag.Base.Text.join ◌<>◌ eu_rag.Ingestion.Chunker.looks_like_article_title
two_articles = refl

overlapping : chunk_text ascii 3 1 "one two\n\nthree four" ≡ "one two" ∷ "two\n\nthree four" ∷ []
unfolding chunk_text split eu_rag.Base.Regex.one eu_rag.Base.Regex.star strip words
    eu_rag.Base.Text.join ◌<>◌ eu_rag.Base.Regex.behind
overlapping = refl

sentences : chunk_text ascii 3 1 "one two. three four" ≡ "one two." ∷ "two.\n\nthree four" ∷ []
unfolding chunk_text split eu_rag.Base.Regex.one eu_rag.Base.Regex.star strip words
    eu_rag.Base.Text.join ◌<>◌ eu_rag.Base.Regex.behind
sentences = refl

abbrev card_front : List ℕ
card_front = 7 ∷ 9 ∷ 9 ∷ []

abbrev card_back : List ℕ
card_back = 3 ∷ 9 ∷ 8 ∷ 7 ∷ 1 ∷ 5 ∷ []

passes : luhn_ok (card_front ++ 0 ∷ 9 ∷ card_back) ≡ true
unfolding luhn_ok
passes = refl

swapped_passes : luhn_ok (card_front ++ 9 ∷ 0 ∷ card_back) ≡ true
unfolding luhn_ok
swapped_passes = refl

luhn_ok-swap_example :
    (◌≡◌ {A = ℕ} 0 9)
    ⊎ (((◌≡◌ {A = ℕ} 0 0) × (◌≡◌ {A = ℕ} 9 9)) ⊎ ((◌≡◌ {A = ℕ} 0 9) × (◌≡◌ {A = ℕ} 9 0)))
luhn_ok-swap_example =
    luhn_ok-swap card_front card_back 0 9 (omega arith) (omega arith) passes swapped_passes

an_address : find_all (email ascii) "to ann@ex.eu." ≡ "ann@ex.eu" ∷ []
unfolding find_all email eu_rag.Base.Regex.boundary eu_rag.Base.Regex.one eu_rag.Base.Regex.star
    eu_rag.Base.Regex.times
an_address = refl

abbrev pub ingestor : Ingestor ℕ Unit
ingestor = record {
  math = math;
  lexer = lexer;
  letters = letters;
  presidio = none;
  pii_backend = "regex";
  sha256 = λ text. text <> "!";
  nonce = λ n. "";
  embed_texts = λ texts. some (map (λ t. tt) texts);
  forget = λ doc_id found. (true, found);
  upsert = λ chunks vectors tenant found. (true, found);
}

abbrev pub upload : Document
upload = record {
  doc_id = "act";
  title = "Act";
  text = law_text;
  source_url = "";
  source_type = "upload";
  language = "en";
  fetched_at = "2026-02-02";
}

pub sample-IsKeyed : IsKeyed pipeline.registry
unfolding eu_rag.Retrieval.Pick.doc_of
sample-IsKeyed = (refl, (refl, tt))

ingest-Ends_example :
    IsKeyed (ingest ingestor upload "bob" pipeline).1.registry
    × Ends ingestor upload "bob" pipeline
        (ingest ingestor upload "bob" pipeline).0
        (ingest ingestor upload "bob" pipeline).1
ingest-Ends_example = ingest-Ends ingestor upload "bob" pipeline sample-IsKeyed
