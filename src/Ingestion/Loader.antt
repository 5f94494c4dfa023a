-- ===== src/Ingestion/Loader.antt =====
-- core/ingestion/document_loader.py: `make_document`, the provenance header of the sample files and
-- the text of a web page. SHA-256, the clock and what HTMLParser reads are parameters.
use Prim.Native.Char.{Char, code}
use eu_rag.Base.{
  ℕ, suc, ◌-◌, String, Bool, ◌&&◌, ◌||◌, ◌==◌, List, [], ◌∷◌, ◌++◌, any, eqb, ltb, leb,
  if◌then◌else◌,
}
use eu_rag.Base.Text.{Unicode, ◌<>◌, take, is_empty, join, strip}
use eu_rag.Base.Regex.{one, plus, star, maybe, times, ◌then_match◌, sub}
use eu_rag.Chunk.{Document}

-- a document, or the message of the ProvenanceError
pub data Loaded : Type 0 where
  loaded : Document → Loaded
  provenance_error : String → Loaded

-- what `make_document` is called with
pub record Source : Type 0 where
  pub title : String
  pub text : String
  pub source_url : String
  pub source_type : String
  pub language : String

module _ (u : Unicode) (sha256 : String → String) where
  -- `now` is the time in ISO format
  unfoldable pub make_document : String → Source → Loaded
  make_document now s =
      let title = strip u s.title in
      let text = strip u s.text in
      if is_empty title
      then provenance_error "document has no title"
      else if is_empty text
      then provenance_error "document has no text"
      else loaded (record {
        doc_id = take 16 (sha256 (s.source_url <> "|" <> title));
        title = title;
        text = text;
        source_url = s.source_url;
        source_type = s.source_type;
        language = s.language;
        fetched_at = now;
      })

-- a call of the extractor by HTMLParser
pub data Event : Type 0 where
  start_tag : String → Event
  end_tag : String → Event
  content : String → Event

abbrev pub skip_tags : List String
skip_tags = "script" ∷ "style" ∷ "noscript" ∷ "nav" ∷ "footer" ∷ "header" ∷ []

abbrev pub block_tags : List String
block_tags = "p" ∷ "div" ∷ "li" ∷ "br" ∷ "h1" ∷ "h2" ∷ "h3" ∷ "h4" ∷ "h5" ∷ "h6" ∷ "tr" ∷ []

abbrev pub is_tag : List String → String → Bool
is_tag tags tag = any (λ t. t == tag) tags

-- `_TextExtractor`
pub record Extractor : Type 0 where
  pub parts : List String
  pub skip_depth : ℕ

abbrev pub with_part : String → Extractor → Extractor
with_part s x = record x { parts = x.parts ++ s ∷ [] }

unfoldable pub handle : Event → Extractor → Extractor
handle (start_tag tag) x =
    if is_tag skip_tags tag
    then record x { skip_depth = suc x.skip_depth }
    else if is_tag block_tags tag
    then with_part "\n" x
    else x
handle (end_tag tag) x =
    if is_tag skip_tags tag && ltb 0 x.skip_depth
    then record x { skip_depth = x.skip_depth - 1 }
    else if is_tag block_tags tag
    then with_part "\n" x
    else x
handle (content s) x = if eqb x.skip_depth 0 then with_part s x else x

unfoldable pub feed : List Event → Extractor → Extractor
feed [] x = x
feed (e ∷ es) x = feed es (handle e x)

abbrev new_extractor : Extractor
new_extractor = record { parts = []; skip_depth = 0 }

abbrev is_wide_space : Char → Bool
is_wide_space c =
    eqb (code c) 0xa0 || eqb (code c) 0x202f || leb 0x2000 (code c) && leb (code c) 0x200a

abbrev is_break : Char → Bool
is_break c = eqb (code c) b'\n'

-- the four calls of re.sub
unfoldable pub collapse : String → String
collapse text =
    let blank = one (λ c. eqb (code c) b' ') in
    let tabs = one (λ c. eqb (code c) b' ' || eqb (code c) b'\t') in
    let line = one is_break in
    sub (times 3 line then_match star line) "\n\n" (
      sub (maybe blank then_match line then_match maybe blank) "\n"
        (sub (plus tabs) " " (sub (one is_wide_space) " " text)))

unfoldable pub html_to_text : Unicode → List Event → String
html_to_text u events = strip u (collapse (join "" (feed events new_extractor).parts))
