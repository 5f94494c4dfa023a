-- ===== src/Tests/Corpus.antt =====
-- Retrieval, the corpus, the profile and the cipher.
use Prim.Native.Char.{code}
use eu_rag.Base.{
  suc, zero, eqb, ap, ◌∙◌, ◌≡◌, ◌≢◌, ◌≤◌, ◌<◌, ◌↔◌, refl, subst, sym, String, ℕ, ◌+◌, min, Bool,
  true, false, Option, none, some, List, [], ◌∷◌, ◌++◌, if◌then◌else◌, find, is_some, length, ltb,
  arith, Member, inl, inr, ◌⊎◌, ◌==◌, eq_iff, Bool-cases, All,
}
use eu_rag.Base.Text.{◌<>◌}
use eu_rag.Chunk.{Chunk, Document}
use eu_rag.Profile.{
  BusinessProfile, describe, countries, sizes, sectors, ai_roles, sentence, clauses,
}
use eu_rag.Profile.Laws.{describe-IsEntry, IsEntry}
use eu_rag.Registry.{Registry, no_cipher, save}
use eu_rag.Retrieval.Fusion.{rrf_fuse, fused_score, rrf_fuse-ranks}
use eu_rag.Retrieval.Sort.{IsDescending}
use eu_rag.Retrieval.Pick.{pick, capped}
use eu_rag.Retrieval.Pick.Laws.{occurrences, pick-fills}
use eu_rag.Security.Crypto.{Aead, IsAead, Bytes}
use eu_rag.Retrieval.Bm25.{empty_index, add_chunk}
use eu_rag.Retrieval.Bm25.Built.{IsConsistent, created, added, Built-IsConsistent}
use eu_rag.Tests.Sample.{ops, math, lexer, index, registry}

abbrev rankings : List (List String)
rankings = ("a:0" ∷ "b:0" ∷ []) ∷ ("b:0" ∷ []) ∷ []

lt_asym : (a b : ℕ) → ltb a b ≡ true → ltb b a ≡ false
lt_asym a b h = ground arith

rrf_fuse-ranks_example :
    (Member ("b:0", 32) (rrf_fuse ops 60 rankings)
      ↔ (fused_score ops 60 "b:0" rankings none ≡ some 32))
    × IsDescending ltb (λ (e : String × ℕ). e.1) (rrf_fuse ops 60 rankings)
rrf_fuse-ranks_example = rrf_fuse-ranks ops 60 rankings "b:0" 32 lt_asym

abbrev order : List String
order = "a:0" ∷ "a:1" ∷ "b:0" ∷ []

-- no item stands twice
apart-once :
    (a b c y : String)
    → (a == b) ≡ false
    → (a == c) ≡ false
    → (b == c) ≡ false
    → occurrences y (a ∷ b ∷ c ∷ []) ≤ 1
unfolding occurrences
apart-once a b c y ab ac bc =
    ground (arith, eq_iff a y, eq_iff b y, eq_iff c y, eq_iff a b, eq_iff a c, eq_iff b c)

order-once : (y : String) → occurrences y order ≤ 1
order-once y = apart-once "a:0" "a:1" "b:0" y refl refl refl

pick-fills_example :
    (length (pick 2 1 order) ≡ min 2 (length order))
    × (occurrences "b:0" (pick 2 1 order) ≤ occurrences "b:0" order)
pick-fills_example = pick-fills 2 1 order "b:0" (omega arith) order-once

is_full : (capped 2 1 order [] []).1 ≡ true
unfolding capped eu_rag.Retrieval.Pick.doc_of eu_rag.Base.Dict.get eu_rag.Base.Dict.put
is_full = refl

abbrev memo : String
memo = "memo"

abbrev document : Document
document = record {
  doc_id = "gdpr";
  title = "GDPR";
  text = "the law applies";
  source_url = "https://eur-lex";
  source_type = "upload";
  language = "en";
  fetched_at = "2026-02-02";
}

abbrev part : Chunk
part = record {
  chunk_id = "gdpr:0";
  doc_id = "gdpr";
  index = 0;
  text = "the law applies";
  title = "GDPR";
  source_url = "https://eur-lex";
}

-- another tenant saves a document of that title and address
abbrev saved : Registry
saved = elim (save no_cipher document "h3" ((part, "") ∷ []) "eve" registry) [
  | none ↦ registry
  | some r ↦ r
]

is_saved : save no_cipher document "h3" ((part, "") ∷ []) "eve" registry ≡ some saved
unfolding save
is_saved = refl

abbrev profile : BusinessProfile
profile = record {
  country = some "DE";
  size = some "micro";
  sector = some "nonsense";
  ai_role = none;
}

describe-IsEntry_example :
    (size sector country ai_role : Option String) × (describe profile
      ≡ sentence (clauses size sector country ai_role))
    × IsEntry sizes size
    × IsEntry sectors sector
    × IsEntry countries country
    × IsEntry ai_roles ai_role
describe-IsEntry_example = describe-IsEntry profile

-- bytes written in strokes, each of them up to a full stop
abbrev strokes : ℕ → String → String
strokes zero s = "." <> s
strokes (suc n) s = "|" <> strokes n s

abbrev write : Bytes → String
write [] = ""
write (n ∷ bytes) = strokes n (write bytes)

abbrev read : ℕ → String → Bytes
read n String.[] = []
read n (String.◌∷◌ c s) =
    let stop = n ∷ read 0 s in let more = read (suc n) s in if eqb (code c) 46 then stop else more

read-strokes : (k n j : ℕ) (s : String) → j ≡ k + n → read k (strokes n s) ≡ j ∷ read 0 s
unfolding ◌<>◌
read-strokes k zero j s e = ap (λ m. m ∷ read 0 s) (omega arith)
read-strokes k (suc n) j s e = read-strokes (suc k) n j s (omega arith)

read-write : (bytes : Bytes) → read 0 (write bytes) ≡ bytes
read-write [] = refl
read-write (n ∷ bytes) =
    read-strokes 0 n n (write bytes) (omega arith) ∙ ap (λ bs. n ∷ bs) (read-write bytes)

-- a cipher that does not encrypt
abbrev pub aead : Aead
aead = record {
  seal = λ nonce plain. plain;
  open_sealed = λ nonce sealed. some sealed;
  encode_64 = write;
  decode_64 = read 0;
  encode_utf8 = λ text. 104 ∷ 105 ∷ [];
  decode_utf8 = λ bytes. some "hi";
}

abbrev pub nonce : Bytes
nonce = 1 ∷ 2 ∷ 3 ∷ 4 ∷ 5 ∷ 6 ∷ 7 ∷ 8 ∷ 9 ∷ 10 ∷ 11 ∷ 12 ∷ []

pub aead-IsAead : IsAead aead
aead-IsAead = record { open-seal = λ nonce plain. refl; decode-encode_64 = read-write }

Built-IsConsistent_example : IsConsistent index
Built-IsConsistent_example = Built-IsConsistent math index (
    added (add_chunk math lexer "gdpr:0" "the law applies" (empty_index math)) lexer "memo:0"
      "our law memo" (added (empty_index math) lexer "gdpr:0" "the law applies" created))
