-- ===== src/Security/Pii/Laws.antt =====
-- What a finding of core/security/pii.py shows of the text that it was found in.
use eu_rag.Base.{
  ℕ, zero, suc, ◌+◌, ◌-◌, ◌≤◌, String, ◌≡◌, none, some, List, [], ◌∷◌, map, arith, All, All-append,
  select, ltb, ◌==◌, Bool-cases, inl, inr,
}
use eu_rag.Base.Text.{Unicode, ◌<>◌, count, take, strip}
use eu_rag.Base.Text.Laws.{drop_text, count-take-le}
use eu_rag.Base.Regex.{find_all}
use eu_rag.Security.Pii.{
  Finding, Entity, Presidio, mask, findings_of, card_findings, entity_finding, only_digits, email,
  phone, iban, card, regex_scan, presidio_scan, scan_with, scan,
}

count-append : (s t : String) → count (s <> t) ≡ count s + count t
unfolding ◌<>◌
count-append String.[] t = omega arith
count-append (String.◌∷◌ c s) t = omega (arith, count-append s t)

count-drop_text : (n : ℕ) (s : String) → count (drop_text n s) ≡ count s - n
count-drop_text zero s = omega arith
count-drop_text (suc n) String.[] = omega arith
count-drop_text (suc n) (String.◌∷◌ c s) = omega (arith, count-drop_text n s)

abbrev pub IsMasked : Finding → Type 0
IsMasked f = count f.masked ≤ 5

module _ (u : Unicode) where
  count-mask-le : (value : String) → count (mask u value) ≤ 5
  unfolding mask
  count-mask-le value =
      let flat = strip u value in
      elim (Bool-cases (ltb 6 (count flat))) [
        | inl long ↦ rw long (
            omega (
              arith,
              count-append (take 2 flat) ("…" <> drop_text (count flat - 2) flat),
              count-append "…" (drop_text (count flat - 2) flat),
              count-take-le 2 flat,
              count-drop_text (count flat - 2) flat,
            ))
        | inr short ↦ rw short (omega arith)
      ]

  findings_of-IsMasked :
      (kind : String) (texts : List String) → All IsMasked (findings_of u kind texts)
  findings_of-IsMasked kind [] = tt
  findings_of-IsMasked kind (t ∷ texts) = (count-mask-le t, findings_of-IsMasked kind texts)

  card_findings-IsMasked : (texts : List String) → All IsMasked (card_findings u texts)
  unfolding card_findings
  card_findings-IsMasked [] = tt
  card_findings-IsMasked (t ∷ texts) =
      ground (arith, card_findings-IsMasked texts, count-mask-le (only_digits u t))

  regex_scan-IsMasked : (text : String) → All IsMasked (regex_scan u text)
  unfolding regex_scan
  regex_scan-IsMasked text =
      let ibans = find_all (iban u) text in
      let cards = find_all (card u) text in
      let phones = find_all (phone u) text in
      All-append IsMasked (findings_of u "EMAIL" (find_all (email u) text)) _
        (findings_of-IsMasked "EMAIL" (find_all (email u) text))
        (All-append IsMasked (findings_of u "PHONE" phones) _ (findings_of-IsMasked "PHONE" phones)
          (All-append IsMasked (findings_of u "IBAN" ibans) _ (findings_of-IsMasked "IBAN" ibans)
            (card_findings-IsMasked cards)))

  entities-IsMasked :
      (text : String) (es : List Entity) → All IsMasked (map (entity_finding u text) es)
  unfolding entity_finding
  entities-IsMasked text [] = tt
  entities-IsMasked text (e ∷ es) =
      (count-mask-le (drop_text e.start (take e.end text)), entities-IsMasked text es)

  scan_with-IsMasked :
      (presidio : Presidio) (text : String) → All IsMasked (scan_with u presidio text)
  unfolding scan_with presidio_scan
  scan_with-IsMasked none text = regex_scan-IsMasked text
  scan_with-IsMasked (some analyze) text =
      entities-IsMasked text (select (λ e. e.is_likely) (analyze text))

  -- Whatever an upload holds, with either scanner, no finding tells more than five characters, of
  -- which one is the ellipsis.
  pub scan-IsMasked :
      (presidio : Presidio) (text backend : String) → All IsMasked (scan u presidio text backend)
  unfolding scan
  scan-IsMasked presidio text backend = elim (Bool-cases (backend == "presidio")) [
    | inl other ↦ rw other (scan_with-IsMasked presidio text)
    | inr own ↦ rw own (regex_scan-IsMasked text)
  ]
