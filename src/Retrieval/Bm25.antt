-- ===== src/Retrieval/Bm25.antt =====
-- core/retrieval/bm25.py: the lexical index. Scores are the floats of an abstract type, and what
-- Python's `re` and `str.lower` do with a text is the parameter `Lexer`.
pub mod Erasure
pub mod Adding
pub mod Counts
pub mod Built
use Prim.Native.Char.{Char, code}
use eu_rag.Base.{
  ℕ, ◌+◌, ◌-◌, String, Bool, ◌||◌, not, Option, none, some, List, [], ◌∷◌, leb, eqb, map, select,
  take, if◌then◌else◌, length, is_some,
}
use eu_rag.Base.Text.{Unicode, strip, is_empty}
use eu_rag.Base.Dict.{get, put, remove}
use eu_rag.Retrieval.Fusion.{FloatOps}
use eu_rag.Retrieval.Sort.{sort_down}

pub record Lexer : Type 0 where
  pub unicode : Unicode
  -- the character class of `_TOKEN_RE`
  pub is_token : Char → Bool

-- The further operations of the scores: the arithmetic of `search` and of the average.
pub record FloatMath (F : Type 0) : Type 0 where
  pub ops : FloatOps F
  pub of_nat : ℕ → F
  pub sub : F → F → F
  pub mul : F → F → F
  pub div : F → F → F
  pub log : F → F
  pub half : F
  pub k1 : F
  pub b : F

extend : Char → List String → List String
extend c [] = (String.◌∷◌ c "") ∷ []
extend c (t ∷ ts) = String.◌∷◌ c t ∷ ts

-- a run of characters ends in front of a character that is not in the class
split_off : List String → List String
split_off [] = []
split_off (String.[] ∷ ts) = String.[] ∷ ts
split_off (String.◌∷◌ c t ∷ ts) = "" ∷ String.◌∷◌ c t ∷ ts

-- the maximal runs of the class: `_TOKEN_RE.findall`, with an empty run in front where the text
-- does not begin with one
runs : (Char → Bool) → String → List String
unfolding extend split_off
runs is_token String.[] = []
runs is_token (String.◌∷◌ c s) =
    let rest = runs is_token s in if is_token c then extend c rest else split_off rest

is_edge : Char → Bool
is_edge c = eqb (code c) b'.' || eqb (code c) b'-'

module _ (lexer : Lexer) where
  trimmed : String → String
  unfolding is_edge
  trimmed t = strip (record lexer.unicode { is_space = is_edge }) t

  unfoldable pub tokenize : String → List String
  unfolding runs trimmed
  tokenize text =
      select (λ t. not (is_empty t)) (map trimmed (runs lexer.is_token (lexer.unicode.lower text)))

-- a `Counter`, from a table on
abbrev pub count_of : Option ℕ → ℕ
count_of none = 0
count_of (some n) = n

unfoldable pub counter : List String → List (String × ℕ) → List (String × ℕ)
counter [] table = table
counter (t ∷ ts) table = counter ts (put t (count_of (get t table) + 1) table)

unfoldable pub total : List (String × ℕ) → ℕ
total [] = 0
total ((t, n) ∷ table) = n + total table

-- `_doc_tokens`, `_doc_len`, `_df` and `_avg_len`
pub record Index (F : Type 0) : Type 0 where
  pub doc_tokens : List (String × List (String × ℕ))
  pub doc_len : List (String × ℕ)
  pub df : List (String × ℕ)
  pub avg_len : F

-- `self._df[term] += 1` for the keys of a counter
unfoldable pub count_terms : List (String × ℕ) → List (String × ℕ) → List (String × ℕ)
count_terms [] df = df
count_terms ((t, n) ∷ tokens) df = count_terms tokens (put t (count_of (get t df) + 1) df)

-- `self._df[term] -= 1`, and `del` where nothing is left; the entry that goes below 0 goes too
unfoldable pub uncount_terms : List (String × ℕ) → List (String × ℕ) → List (String × ℕ)
uncount_terms [] df = df
uncount_terms ((t, n) ∷ tokens) df =
    let left = count_of (get t df) in
    uncount_terms tokens (if leb left 1 then remove t df else put t (left - 1) df)

module _ {F : Type 0} (math : FloatMath F) where
  mean : List (String × ℕ) → F
  mean doc_len = math.div (math.of_nat (total doc_len)) (math.of_nat (length doc_len))

  abbrev pub empty_index : Index F
  empty_index = record { doc_tokens = []; doc_len = []; df = []; avg_len = math.ops.zero_score }

  average_left : List (String × ℕ) → F → F
  unfolding mean
  average_left [] avg = avg
  average_left (e ∷ doc_len) avg = mean (e ∷ doc_len)

  drop_entry : String → Option (List (String × ℕ)) → Index F → Index F
  unfolding average_left
  drop_entry chunk_id none index = index
  drop_entry chunk_id (some tokens) index =
      let doc_len = remove chunk_id index.doc_len in
      record {
        doc_tokens = remove chunk_id index.doc_tokens;
        doc_len = doc_len;
        df = uncount_terms tokens index.df;
        avg_len = average_left doc_len index.avg_len;
      }

  -- `BM25Index.remove`
  unfoldable pub remove_chunk : String → Index F → Index F
  unfolding drop_entry
  remove_chunk chunk_id index = drop_entry chunk_id (get chunk_id index.doc_tokens) index

  -- `BM25Index.add`
  unfoldable pub add_chunk : Lexer → String → String → Index F → Index F
  unfolding mean
  add_chunk lexer chunk_id text index =
      let tokens = counter (tokenize lexer text) [] in
      let cleared =
        if is_some (get chunk_id index.doc_tokens) then remove_chunk chunk_id index else index in
      let doc_len = put chunk_id (total tokens) cleared.doc_len in
      record {
        doc_tokens = put chunk_id tokens cleared.doc_tokens;
        doc_len = doc_len;
        df = count_terms tokens cleared.df;
        avg_len = mean doc_len;
      }

  -- `BM25Index.ids`
  abbrev pub ids : Index F → List String
  ids index = map (λ e. e.0) index.doc_tokens

  -- math.log(1 + (n - df + 0.5) / (df + 0.5))
  idf : ℕ → ℕ → F
  idf n df = math.log (
      math.ops.add (math.of_nat 1) (
        math.div (math.ops.add (math.sub (math.of_nat n) (math.of_nat df)) math.half)
          (math.ops.add (math.of_nat df) math.half)))

  -- what one term adds to the score of a chunk with its number of occurrences
  gain : F → ℕ → ℕ → F → F
  gain idf tf len avg =
      math.div (math.mul (math.mul idf (math.of_nat tf)) (math.ops.add math.k1 (math.of_nat 1))) (
        math.ops.add (math.of_nat tf) (
          math.mul math.k1 (
            math.ops.add (math.sub (math.of_nat 1) math.b)
              (math.div (math.mul math.b (math.of_nat len)) avg))))

  raise_by : F → Option F → F
  raise_by g none = math.ops.add math.ops.zero_score g
  raise_by g (some s) = math.ops.add s g

  -- the loop over `_doc_tokens`
  score_term :
      String
      → F
      → Index F
      → List (String × List (String × ℕ))
      → List (String × F)
      → List (String × F)
  unfolding gain raise_by
  score_term term w index [] scores = scores
  score_term term w index ((chunk_id, tokens) ∷ docs) scores =
      let tf = count_of (get term tokens) in
      let g = gain w tf (count_of (get chunk_id index.doc_len)) index.avg_len in
      let scored = put chunk_id (raise_by g (get chunk_id scores)) scores in
      score_term term w index docs (if eqb tf 0 then scores else scored)

  -- the loop over the terms of the query
  score_terms : Index F → List String → List (String × F) → List (String × F)
  unfolding idf score_term
  score_terms index [] scores = scores
  score_terms index (term ∷ terms) scores =
      let df = count_of (get term index.df) in
      let w = idf (length index.doc_tokens) df in
      let scored = score_term term w index index.doc_tokens scores in
      score_terms index terms (if eqb df 0 then scores else scored)

  -- `BM25Index.search`
  unfoldable pub search : Lexer → Index F → String → ℕ → List (String × F)
  unfolding score_terms
  search lexer index query k =
      take k (sort_down math.ops.lt (λ e. e.1) (score_terms index (tokenize lexer query) []))
