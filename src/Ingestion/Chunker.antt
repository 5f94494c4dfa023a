-- ===== src/Ingestion/Chunker.antt =====
-- core/ingestion/chunker.py: the sections of a legal text, and its passages with their overlap.
pub mod Packing
pub mod Ids
pub mod Words
pub mod Breaks
pub mod Covers
use Prim.Native.Char.{Char, code}
use Prim.Native.String
use eu_rag.Base.{
  ℕ, zero, suc, ◌+◌, ◌-◌, String, Bool, true, false, not, ◌&&◌, ◌||◌, Option, none, some, List, [],
  ◌∷◌, ◌++◌, map, select, length, drop, ltb, leb, eqb, if◌then◌else◌, is_some,
}
use eu_rag.Base.Text.{Unicode, ◌<>◌, count, is_empty, has_prefix, join, decimal, strip}
use eu_rag.Base.Regex.{
  Matcher, one, plus, star, maybe, behind, at_end, ◌then_match◌, matches, split, push_char,
}
use eu_rag.Chunk.{Chunk, Document}

-- what Python reads off its Unicode tables here
pub record Letters : Type 0 where
  pub unicode : Unicode
  pub is_digit : Char → Bool
  pub is_lower : Char → Bool

-- s.split(c)
unfoldable pub split_char : ℕ → String → List String
split_char c String.[] = "" ∷ []
split_char c (String.◌∷◌ d s) =
    let rest = split_char c s in if eqb (code d) c then "" ∷ rest else push_char d rest

module _ (u : Unicode) where
  pub split_space : String → List String
  split_space String.[] = "" ∷ []
  split_space (String.◌∷◌ d s) =
      let rest = split_space s in if u.is_space d then "" ∷ rest else push_char d rest

  -- s.split()
  unfoldable pub words : String → List String
  unfolding split_space
  words s = select (λ w. not (is_empty w)) (split_space s)

abbrev letter : ℕ → ℕ → Char → Bool
letter small big c = eqb (code c) small || eqb (code c) big

-- [a-z] where case is ignored: four letters beyond ASCII match too
is_article_letter : Char → Bool
is_article_letter c =
    leb 97 (code c) && leb (code c) 122
    || leb 65 (code c) && leb (code c) 90
    || letter 0x130 0x131 c
    || letter 0x17f 0x212a c

module _ (u : Unicode) where
  space : Matcher
  space = one u.is_space

  digit : Matcher
  digit = one (λ c. is_some (u.digit c))

  -- ^article\s+\d+\s*[a-z]?$
  article_heading : Matcher
  unfolding space digit is_article_letter
  article_heading =
      one (letter b'a' b'A')
      then_match one (letter b'r' b'R')
      then_match one (letter b't' b'T')
      then_match one (λ c. letter b'i' b'I' c || letter 0x130 0x131 c)
      then_match one (letter b'c' b'C')
      then_match one (letter b'l' b'L')
      then_match one (letter b'e' b'E')
      then_match plus space
      then_match plus digit
      then_match star space
      then_match maybe (one is_article_letter)
      then_match at_end

  unfoldable pub is_heading : String → Bool
  unfolding article_heading
  is_heading line = matches article_heading line

  -- \n\s*\n
  unfoldable pub paragraph_break : Matcher
  unfolding space
  paragraph_break =
      one (λ c. eqb (code c) b'\n') then_match star space then_match one (λ c. eqb (code c) b'\n')

  -- (?<=[.!?])\s+
  pub sentence_break : Matcher
  unfolding space
  sentence_break =
      behind (λ c. eqb (code c) b'.' || eqb (code c) b'!' || eqb (code c) b'?')
      then_match plus space

abbrev ends_with_dot : String → Bool
ends_with_dot String.[] = false
ends_with_dot (String.◌∷◌ c String.[]) = eqb (code c) b'.'
ends_with_dot (String.◌∷◌ c (String.◌∷◌ d s)) = ends_with_dot (String.◌∷◌ d s)

abbrev starts_as : (Char → Bool) → String → Bool
starts_as p String.[] = false
starts_as p (String.◌∷◌ c s) = p c

module _ (t : Letters) where
  unfoldable pub looks_like_article_title : String → Bool
  looks_like_article_title line =
      ltb 0 (count line)
      && leb (count line) 90
      && not (starts_as t.is_digit line)
      && not (starts_as t.is_lower line)
      && not (has_prefix "(" line)
      && not (ends_with_dot line)
      && not (is_heading t.unicode line)

  -- the title line behind a heading, and how many lines it takes up with the blank ones before it
  title_after : ℕ → List String → Option (String × ℕ)
  title_after blank [] = none
  title_after blank (l ∷ lines) =
      let line = strip t.unicode l in
      let further = title_after (suc blank) lines in
      let found = if looks_like_article_title line then some (line, suc blank) else none in
      if is_empty line then further else found

  abbrev with_title : String → Option (String × ℕ) → String × ℕ
  with_title heading none = (heading, 0)
  with_title heading (some (title, n)) = (heading <> " — " <> title, n)

  -- the loop over the lines, with the lines that a title has taken up still to skip
  sections : ℕ → String → List String → List String → List (String × String)
  unfolding title_after
  sections skip heading buf [] = (heading, join "\n" buf) ∷ []
  sections (suc skip) heading buf (l ∷ lines) = sections skip heading buf lines
  sections zero heading buf (l ∷ lines) =
      let line = strip t.unicode l in
      let (heading', taken) = with_title line (title_after 0 lines) in
      elim (is_heading t.unicode line) [
        | true ↦ (heading, join "\n" buf) ∷ sections taken heading' [] lines
        | false ↦ sections zero heading (buf ++ l ∷ []) lines
      ]

  unfoldable pub split_articles : String → List (String × String)
  unfolding sections
  split_articles text =
      select (λ s. not (is_empty (strip t.unicode s.1))) (sections 0 "" [] (split_char b'\n' text))

module _ (u : Unicode) (max_words : ℕ) where
  word_count : String → ℕ
  word_count s = length (words u s)

  unfoldable pub total_words : List String → ℕ
  unfolding word_count
  total_words [] = 0
  total_words (s ∷ parts) = word_count s + total_words parts

  -- The loop of `_split_long_paragraph`, which carries nothing over to the next piece, and that of
  -- `_chunk_text`, which carries the last words.
  unfoldable pub pack :
      String → (List String → List String) → List String → ℕ → List String → List String
  unfolding word_count
  pack sep carry [] count [] = []
  pack sep carry (c ∷ current) count [] = join sep (c ∷ current) ∷ []
  pack sep carry [] count (part ∷ parts) =
      pack sep carry (part ∷ []) (count + word_count part) parts
  pack sep carry (c ∷ current) count (part ∷ parts) =
      let over = ltb max_words (count + word_count part) in
      let carried = carry (c ∷ current) in
      let flushed =
        join sep (c ∷ current)
        ∷ pack sep carry (carried ++ part ∷ []) (total_words carried + word_count part) parts in
      let grown = pack sep carry ((c ∷ current) ++ part ∷ []) (count + word_count part) parts in
      if over then flushed else grown

  unfoldable pub split_long_paragraph : String → List String
  unfolding pack sentence_break
  split_long_paragraph paragraph =
      pack " " (λ current. []) [] 0 (split (sentence_break u) paragraph)

  unfoldable pub paragraphs : List String → List String
  unfolding split_long_paragraph word_count
  paragraphs [] = []
  paragraphs (p ∷ ps) =
      let para = strip u p in
      let rest = paragraphs ps in
      if is_empty para
      then rest
      else if ltb max_words (word_count para)
      then split_long_paragraph para ++ rest
      else para ∷ rest

  -- xs[-n:], which is all of them for 0
  abbrev last_words : ℕ → List String → List String
  last_words n ws = if eqb n 0 then ws else drop (length ws - n) ws

  pub tail_of : ℕ → List String → List String
  tail_of overlap current = join " " (last_words overlap (words u (join "\n\n" current))) ∷ []

  unfoldable pub chunk_text : ℕ → String → List String
  unfolding pack paragraphs paragraph_break tail_of
  chunk_text overlap text =
      pack "\n\n" (tail_of overlap) [] 0 (paragraphs (split (paragraph_break u) text))

abbrev max_words : ℕ
max_words = 320

abbrev overlap_words : ℕ
overlap_words = 40

unfoldable pub make_chunk : Document → ℕ → String → Chunk
make_chunk doc index text = record {
  chunk_id = doc.doc_id <> ":" <> decimal index;
  doc_id = doc.doc_id;
  index = index;
  text = text;
  title = doc.title;
  source_url = doc.source_url;
}

number : Document → ℕ → List String → List Chunk
unfolding make_chunk
number doc index [] = []
number doc index (text ∷ texts) = make_chunk doc index text ∷ number doc (suc index) texts

abbrev under : String → String → String
under heading piece = if is_empty heading then piece else heading <> "\n\n" <> piece

module _ (t : Letters) where
  section_texts : List (String × String) → List String
  section_texts [] = []
  section_texts ((heading, body) ∷ sections) =
      map (under heading) (chunk_text t.unicode max_words overlap_words body)
      ++ section_texts sections

  unfoldable pub chunk_document : Document → List Chunk
  unfolding section_texts number
  chunk_document doc = number doc 0 (section_texts (split_articles t doc.text))
