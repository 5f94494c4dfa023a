-- ===== src/Security/Pii.antt =====
-- core/security/pii.py: the scan of an upload for personal data, and the gate in front of the
-- corpus. What Presidio finds is a parameter.
pub mod Luhn
pub mod Laws
use Prim.Native.Char.{Char, code}
use Prim.Native.Nat.{Ordering}
use Prim.Native.String
use mathlib.Core.List.{reverse}
use eu_rag.Base.{
  ℕ, zero, suc, ◌+◌, ◌-◌, ◌*◌, ◌%◌, String, Bool, true, false, not, ◌&&◌, ◌||◌, ◌==◌, Option, none,
  some, List, [], ◌∷◌, ◌++◌, map, select, any, ltb, leb, eqb, if◌then◌else◌, is_some,
}
use eu_rag.Base.Text.{Unicode, ◌<>◌, count, take, join, strip}
use eu_rag.Base.Text.Laws.{drop_text}
use eu_rag.Base.Regex.{
  Matcher, one, plus, star, maybe, times, up_to, between, boundary, not_behind, ◌then_match◌,
  find_all,
}

abbrev pub official_source_types : List String
official_source_types =
    "eur-lex" ∷ "ec-portal" ∷ "national-scheme" ∷ "funding-calls" ∷ "curated" ∷ []

pub record Finding : Type 0 where
  pub kind : String
  pub masked : String

abbrev is_char : ℕ → Char → Bool
is_char n c = eqb (code c) n

abbrev is_between : ℕ → ℕ → Char → Bool
is_between low high c = leb low (code c) && leb (code c) high

module _ (u : Unicode) where
  is_word : Char → Bool
  is_word c = u.is_alnum c || is_char b'_' c

  digit : Matcher
  digit = one (λ c. is_some (u.digit c))

  -- [ .-]?
  gap : Matcher
  gap = maybe (one (λ c. is_char b' ' c || is_char b'.' c || is_char b'-' c))

  -- \b[\w.+-]+@[\w-]+\.[\w.-]{2,}\b
  unfoldable pub email : Matcher
  unfolding is_word
  email =
      let local = one (λ c. is_word c || is_char b'.' c || is_char b'+' c || is_char b'-' c) in
      let host = one (λ c. is_word c || is_char b'-' c) in
      let domain = one (λ c. is_word c || is_char b'.' c || is_char b'-' c) in
      boundary is_word
      then_match plus local
      then_match one (is_char b'@')
      then_match plus host
      then_match one (is_char b'.')
      then_match times 2 domain
      then_match star domain
      then_match boundary is_word

  -- (?<![\w/.])\+\d{1,3}[ .-]?(?:\(?\d{1,4}\)?[ .-]?)?\d{2,4}[ .-]?\d{2,4}(?:[ .-]?\d{2,4})?\b
  unfoldable pub phone : Matcher
  unfolding is_word digit gap
  phone =
      let area =
        maybe (one (is_char b'('))
        then_match between 1 4 digit
        then_match maybe (one (is_char b')'))
        then_match gap in
      not_behind (λ c. is_word c || is_char b'/' c || is_char b'.' c)
      then_match one (is_char b'+')
      then_match between 1 3 digit
      then_match gap
      then_match maybe area
      then_match between 2 4 digit
      then_match gap
      then_match between 2 4 digit
      then_match maybe (gap then_match between 2 4 digit)
      then_match boundary is_word

  -- \b[A-Z]{2}\d{2}(?: ?[A-Z0-9]{4}){2,7}(?: ?[A-Z0-9]{1,4})?\b
  unfoldable pub iban : Matcher
  unfolding is_word digit
  iban =
      let upper = one (is_between 65 90) in
      let mark = one (λ c. is_between 65 90 c || is_between 48 57 c) in
      let blank = maybe (one (is_char b' ')) in
      boundary is_word
      then_match times 2 upper
      then_match times 2 digit
      then_match between 2 7 (blank then_match times 4 mark)
      then_match maybe (blank then_match between 1 4 mark)
      then_match boundary is_word

  -- \b(?:\d[ -]?){13,19}\b
  unfoldable pub card : Matcher
  unfolding is_word digit
  card =
      let group = digit then_match maybe (one (λ c. is_char b' ' c || is_char b'-' c)) in
      boundary is_word then_match between 13 19 group then_match boundary is_word

  unfoldable pub mask : String → String
  mask value =
      let flat = strip u value in
      if ltb 6 (count flat) then take 2 flat <> "…" <> drop_text (count flat - 2) flat else "…"

  -- re.sub(r"\D", "", s)
  unfoldable pub only_digits : String → String
  only_digits String.[] = ""
  only_digits (String.◌∷◌ c s) =
      let rest = only_digits s in if is_some (u.digit c) then String.◌∷◌ c rest else rest

-- what a digit adds, where it is doubled and where it is not
unfoldable pub weight : Bool → ℕ → ℕ
weight false d = d
weight true d = if ltb 9 (d * 2) then d * 2 - 9 else d * 2

-- the sum over the digits from the right
unfoldable pub luhn_sum : Bool → List ℕ → ℕ
unfolding weight
luhn_sum doubled [] = 0
luhn_sum doubled (d ∷ ds) = weight doubled d + luhn_sum (not doubled) ds

unfoldable pub luhn_ok : List ℕ → Bool
unfolding luhn_sum
luhn_ok digits = eqb (luhn_sum false (reverse digits) % 10) 0

module _ (u : Unicode) where
  value_of : Option ℕ → ℕ
  value_of none = 0
  value_of (some d) = d

  -- int(ch) of each character; `only_digits` has left no other
  unfoldable pub digit_values : String → List ℕ
  unfolding value_of
  digit_values String.[] = []
  digit_values (String.◌∷◌ c s) = value_of (u.digit c) ∷ digit_values s

  unfoldable pub card_findings : List String → List Finding
  card_findings [] = []
  card_findings (text ∷ texts) =
      let digits = only_digits u text in
      let rest = card_findings texts in
      if leb 13 (count digits) && leb (count digits) 19 && luhn_ok (digit_values digits)
      then record { kind = "CARD"; masked = mask u digits } ∷ rest
      else rest

  abbrev findings_of : String → List String → List Finding
  findings_of kind texts = map (λ text. record { kind = kind; masked = mask u text }) texts

  unfoldable pub regex_scan : String → List Finding
  unfolding email phone iban card card_findings
  regex_scan text =
      findings_of "EMAIL" (find_all (email u) text)
      ++ (findings_of "PHONE" (find_all (phone u) text)
          ++ (findings_of "IBAN" (find_all (iban u) text)
              ++ card_findings (find_all (card u) text)))

-- a result of Presidio: its entity type, its place, and whether its score is 0.5 or more
pub record Entity : Type 0 where
  pub entity_type : String
  pub start : ℕ
  pub end : ℕ
  pub is_likely : Bool

-- none where Presidio is not installed
abbrev pub Presidio : Type 0
Presidio = Option (String → List Entity)

module _ (u : Unicode) where
  entity_finding : String → Entity → Finding
  entity_finding text e = record {
    kind = e.entity_type;
    masked = mask u (drop_text e.start (take e.end text));
  }

  unfoldable pub presidio_scan : (String → List Entity) → String → List Finding
  unfolding entity_finding
  presidio_scan analyze text = map (entity_finding text) (select (λ e. e.is_likely) (analyze text))

  scan_with : Presidio → String → List Finding
  scan_with none text = regex_scan u text
  scan_with (some analyze) text = presidio_scan analyze text

  unfoldable pub scan : Presidio → String → String → List Finding
  unfolding scan_with
  scan presidio text backend =
      if backend == "presidio" then scan_with presidio text else regex_scan u text

  or_none : List Finding → Option (List Finding)
  or_none [] = none
  or_none (f ∷ fs) = some (f ∷ fs)

  -- `gate`: some is the PIIError with its findings
  unfoldable pub gate : Presidio → String → String → String → Option (List Finding)
  unfolding or_none
  gate presidio text source_type backend =
      if any (λ t. t == source_type) official_source_types
      then none
      else or_none (scan presidio text backend)

-- sorted({…}) of the kinds
insert_kind : String → List String → List String
insert_kind k [] = k ∷ []
insert_kind k (x ∷ ks) =
    let further = x ∷ insert_kind k ks in
    elim (Prim.Native.String.compare k x) [
      | Ordering.lt ↦ k ∷ x ∷ ks
      | Ordering.eq ↦ x ∷ ks
      | Ordering.gt ↦ further
    ]

unfoldable pub kinds : List Finding → List String
unfolding insert_kind
kinds [] = []
kinds (f ∷ fs) = insert_kind f.kind (kinds fs)

unfoldable pub rejection : List Finding → String
unfolding kinds
rejection fs =
    "document rejected — possible personal data found ("
    <> join ", " (kinds fs)
    <> "). Remove or anonymise it and ingest again."
