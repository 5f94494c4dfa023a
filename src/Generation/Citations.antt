-- ===== src/Generation/Citations.antt =====
-- core/generation/citations.py: markers, the citations that they resolve to, and validation.
pub mod Laws
use Prim.Native.Char.{Char, code}
use Prim.Native.String
use eu_rag.Base.{
  ℕ, suc, ◌+◌, ◌*◌, String, Bool, true, false, ◌||◌, not, Option, none, some, List, [], ◌∷◌, ltb,
  eqb, if◌then◌else◌, length, select, any,
}
use eu_rag.Base.Text.{Unicode, ◌<>◌, take, join, decimal}
use eu_rag.Chunk.{Chunk}

pub record Citation : Type 0 where
  pub marker : ℕ
  pub chunk_id : String
  pub title : String
  pub source_url : String
  pub quote : String

abbrev pub cite : ℕ → Chunk → Citation
cite marker c = record {
  marker = marker;
  chunk_id = c.chunk_id;
  title = c.title;
  source_url = c.source_url;
  quote = take 240 c.text;
}

-- the comprehension over `enumerate(chunks)`, from index i
unfoldable pub citations_from : ℕ → List Chunk → List Citation
citations_from i [] = []
citations_from i (c ∷ chunks) = cite (i + 1) c ∷ citations_from (suc i) chunks

unfoldable pub build_citations : List Chunk → List Citation
unfolding citations_from
build_citations chunks = citations_from 0 chunks

blocks_from : ℕ → List Chunk → List String
blocks_from i [] = []
blocks_from i (c ∷ chunks) =
    ("[" <> decimal (i + 1) <> "] " <> c.title <> "\n" <> c.text) ∷ blocks_from (suc i) chunks

unfoldable pub build_context : List Chunk → String
unfolding blocks_from
build_context chunks = join "\n\n---\n\n" (blocks_from 0 chunks)

-- m in used
abbrev pub mem : ℕ → List ℕ → Bool
mem m used = any (λ n. eqb n m) used

module _ (u : Unicode) where
  -- `\d\]` at the head of a text
  one_digit : String → Option ℕ
  one_digit (String.◌∷◌ c (String.◌∷◌ d s)) = if eqb (code d) b']' then u.digit c else none
  one_digit s = none

  tens : Option ℕ → Option ℕ → Option ℕ
  tens (some a) (some b) = some (10 * a + b)
  tens a b = none

  -- `\d\d\]`
  two_digits : String → Option ℕ
  two_digits (String.◌∷◌ c (String.◌∷◌ d (String.◌∷◌ e s))) =
      if eqb (code e) b']' then tens (u.digit c) (u.digit d) else none
  two_digits s = none

  first : Option ℕ → Option ℕ → Option ℕ
  first (some a) b = some a
  first none b = b

  -- `(\d{1,2})\]` after the bracket: two digits before one
  marker_at : String → Option ℕ
  marker_at s = first (two_digits s) (one_digit s)

  keep : Option ℕ → List ℕ → List ℕ
  keep none ms = ms
  keep (some m) ms = m ∷ ms

  -- `markers_used`, with repetitions: the set is asked only for its members. No match of the
  -- pattern begins inside another, so each bracket is tried.
  unfoldable pub markers_used : String → List ℕ
  unfolding one_digit tens two_digits first marker_at keep
  markers_used String.[] = []
  markers_used (String.◌∷◌ c s) =
      let rest = markers_used s in if eqb (code c) b'[' then keep (marker_at s) rest else rest

-- The reason that `validate_answer` gives, before it is put into words.
pub data Reason : Type 0 where
  fine no_citations : Reason
  unresolved : List ℕ → Reason

abbrev pub out_of_range : ℕ → ℕ → Bool
out_of_range n_sources m = ltb m 1 || ltb n_sources m

-- the tests of `validate_answer`, on the markers
unfoldable pub validate : List ℕ → ℕ → Bool × Reason
validate [] n_sources = (false, no_citations)
validate (m ∷ used) n_sources =
    if any (out_of_range n_sources) (m ∷ used)
    then (false, unresolved (select (out_of_range n_sources) (m ∷ used)))
    else (true, fine)

unfoldable pub validate_answer : Unicode → String → ℕ → Bool × Reason
unfolding validate
validate_answer u answer n_sources = validate (markers_used u answer) n_sources
