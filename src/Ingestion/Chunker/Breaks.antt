-- ===== src/Ingestion/Chunker/Breaks.antt =====
-- The breaks at which core/ingestion/chunker.py cuts a text are white space, so that no word is lost.
use Prim.Native.Char.{Char, code}
use eu_rag.Base.{
  ℕ, zero, suc, ◌-◌, ◌≤◌, ◌≡◌, ◌⊎◌, refl, sym, ap, subst, ◌∙◌, String, Bool, true, Option, none,
  some, List, [], ◌∷◌, ◌++◌, inl, inr, Bool-cases, arith, eqb, some_inj,
}
use eu_rag.Base.Text.{Unicode, count}
use eu_rag.Base.Regex.{
  Place, Matcher, one, up_to, star, behind, assert, is_behind, ◌then_match◌, or_match, match_at,
  length_of_match, push_char, split, split_from,
}
use eu_rag.Ingestion.Chunker.{words, split_space, space, paragraph_break, sentence_break}
use eu_rag.Ingestion.Chunker.Words.{
  split_space-cons, kept, kept-append, Same, Same-kept, Same-push, blank-words, push_char-append,
  words_of,
}

module _ (u : Unicode) where
  -- the second text is what is left of the first behind white space
  abbrev pub Skips : String → String → Type 0
  Skips String.[] r = r ≡ ""
  Skips (String.◌∷◌ c s) r = (r ≡ String.◌∷◌ c s) ⊎ ((u.is_space c ≡ true) × Skips s r)

  Skips-refl : (s : String) → Skips s s
  Skips-refl String.[] = refl
  Skips-refl (String.◌∷◌ c s) = inl refl

  Skips-trans : (s r q : String) → Skips s r → Skips r q → Skips s q
  Skips-trans String.[] r q e h = subst (λ x. Skips x q) e h
  Skips-trans (String.◌∷◌ c s) r q (inl e) h = subst (λ x. Skips x q) e h
  Skips-trans (String.◌∷◌ c s) r q (inr (sp, k)) h = inr (sp, Skips-trans s r q k h)

  -- the first characters are white space
  abbrev Spaces : ℕ → String → Type 0
  Spaces zero s = Unit
  Spaces (suc n) String.[] = Unit
  Spaces (suc n) (String.◌∷◌ c s) = (u.is_space c ≡ true) × Spaces n s

  Skips-Spaces : (s r : String) → Skips s r → Spaces (count s - count r) s × (count r ≤ count s)
  Skips-Spaces String.[] r e = rw e (tt, omega arith)
  Skips-Spaces (String.◌∷◌ c s) r (inl e) =
      let none_skipped : count (String.◌∷◌ c s) - count r ≡ 0 = rw e (omega arith) in
      (rw none_skipped tt, rw e (omega arith))
  Skips-Spaces (String.◌∷◌ c s) r (inr (sp, k)) =
      let (h, le) = Skips-Spaces s r k in
      let more : count (String.◌∷◌ c s) - count r ≡ suc (count s - count r) = omega arith in
      (rw more (sp, h), omega arith)

  -- what a matcher takes is white space
  Eats : Matcher → Type 0
  Eats m =
      (k : Place → Option Place) (b : Option Char) (s : String) (p : Place)
      → m k (b, s) ≡ some p
      → (b' : Option Char) × (r : String) × Skips s r × (k (b', r) ≡ some p)

  -- and it takes a character
  EatsOne : Matcher → Type 0
  EatsOne m =
      (k : Place → Option Place) (b : Option Char) (c : Char) (s : String) (p : Place)
      → m k (b, String.◌∷◌ c s) ≡ some p
      → (b' : Option Char) × (r : String) × (u.is_space c ≡ true) × Skips s r × (k (b', r) ≡ some p)

  module _ (q : Char → Bool) (spaces : (c : Char) → q c ≡ true → u.is_space c ≡ true) where
    one-EatsOne : EatsOne (one q)
    unfolding EatsOne one
    one-EatsOne k b c s p e = elim (Bool-cases (q c)) [
      | inl hit ↦ (some c, s, spaces c hit, Skips-refl s, rw hit at e)
      | inr miss ↦ let e' = rw miss at e in cc
    ]

    one-Eats : Eats (one q)
    unfolding Eats one
    one-Eats k b String.[] p e = cc
    one-Eats k b (String.◌∷◌ c s) p e = elim (Bool-cases (q c)) [
      | inl hit ↦ (some c, s, inr (spaces c hit, Skips-refl s), rw hit at e)
      | inr miss ↦ let e' = rw miss at e in cc
    ]

  up_to-Eats : (n : ℕ) (m : Matcher) → Eats m → Eats (up_to n m)
  unfolding Eats up_to or_match
  up_to-Eats zero m eats k b s p e = (b, s, Skips-refl s, e)
  up_to-Eats (suc n) m eats k b s p e =
      go (λ b1 r1 e1. up_to-Eats n m eats k b1 r1 p e1) (m (up_to n m k) (b, s)) refl e
    where
      go :
          ((b1 : Option Char) (r1 : String)
            → up_to n m k (b1, r1) ≡ some p
            → (b' : Option Char) × (r : String) × Skips r1 r × (k (b', r) ≡ some p))
          → (o : Option Place) → m (up_to n m k) (b, s) ≡ o
          → or_match o (k (b, s)) ≡ some p
          → (b' : Option Char) × (r : String) × Skips s r × (k (b', r) ≡ some p)
      go later none missed e = (b, s, Skips-refl s, e)
      go later (some x) hit e =
          let (b1, r1, s1, e1) = eats (up_to n m k) b s p (hit ∙ e) in
          let (b2, r2, s2, e2) = later b1 r1 e1 in (b2, r2, Skips-trans s r1 r2 s1 s2, e2)

  star-Eats : (m : Matcher) → Eats m → Eats (star m)
  unfolding Eats star
  star-Eats m eats k b s p e = up_to-Eats (count s) m eats k b s p e

  then-EatsOne : (m n : Matcher) → EatsOne m → Eats n → EatsOne (m then_match n)
  unfolding Eats EatsOne
  then-EatsOne m n first later k b c s p e =
      let (b1, r1, sp, s1, e1) = first (n k) b c s p e in
      let (b2, r2, s2, e2) = later k b1 r1 p e1 in (b2, r2, sp, Skips-trans s r1 r2 s1 s2, e2)

  then-Eats : (m n : Matcher) → Eats m → Eats n → Eats (m then_match n)
  unfolding Eats
  then-Eats m n first later k b s p e =
      let (b1, r1, s1, e1) = first (n k) b s p e in
      let (b2, r2, s2, e2) = later k b1 r1 p e1 in (b2, r2, Skips-trans s r1 r2 s1 s2, e2)

  behind-EatsOne : (q : Char → Bool) (m : Matcher) → EatsOne m → EatsOne (behind q then_match m)
  unfolding EatsOne behind assert
  behind-EatsOne q m eats k b c s p e = elim (Bool-cases (is_behind q b)) [
    | inl hit ↦ eats k b c s p (rw hit at e)
    | inr miss ↦ let e' = rw miss at e in cc
  ]

  -- line breaks are white space
  abbrev pub IsBreaking : Type 0
  IsBreaking = (c : Char) → eqb (code c) b'\n' ≡ true → u.is_space c ≡ true

  paragraph_break-EatsOne : IsBreaking → EatsOne (paragraph_break u)
  unfolding paragraph_break space
  paragraph_break-EatsOne breaking =
      then-EatsOne _ _ (one-EatsOne (λ c. eqb (code c) b'\n') breaking) (
        then-Eats _ _ (star-Eats _ (one-Eats u.is_space (λ c e. e)))
          (one-Eats (λ c. eqb (code c) b'\n') breaking))

  sentence_break-EatsOne : EatsOne (sentence_break u)
  unfolding sentence_break space
  sentence_break-EatsOne = behind-EatsOne _ _ (
      then-EatsOne _ _ (one-EatsOne u.is_space (λ c e. e))
        (star-Eats _ (one-Eats u.is_space (λ c e. e))))

  length_of_match-Spaces :
      (m : Matcher) (b : Option Char) (c : Char) (s : String) (n : ℕ)
      → EatsOne m
      → length_of_match m b c s ≡ some n
      → (u.is_space c ≡ true) × Spaces n s
  unfolding length_of_match EatsOne
  length_of_match-Spaces m b c s n eats e = go (match_at m (b, String.◌∷◌ c s)) refl e
    where
      go :
          (o : Option Place)
          → match_at m (b, String.◌∷◌ c s) ≡ o
          → (elim o [ none ↦ none | some (last, rest) ↦ some (count s - count rest) ]) ≡ some n
          → (u.is_space c ≡ true) × Spaces n s
      go none missed e = cc
      go (some (last, rest)) hit e =
          let (b', r, sp, skips, same) = eats (λ p. some p) b c s (last, rest) hit in
          let is_rest : r ≡ rest = ap (λ (p : Place). p.1) (some_inj same) in
          let (h, le) = Skips-Spaces s r skips in
          (sp, subst (λ k. Spaces k s) (ap (λ x. count s - count x) is_rest ∙ some_inj e) h)

  -- the tokens of texts, one after the other
  flat : List String → List String
  flat [] = []
  flat (p ∷ ps) = split_space u p ++ flat ps

  kept-flat : (ps : List String) → kept (flat ps) ≡ words_of u ps
  unfolding flat words
  kept-flat [] = refl
  kept-flat (p ∷ ps) =
      kept-append (split_space u p) (flat ps) ∙ ap (λ l. kept (split_space u p) ++ l) (kept-flat ps)

  push_char-Same :
      (c : Char) (s : String) (ps : List String)
      → Same (flat ps) (split_space u s)
      → Same (flat (push_char c ps)) (split_space u (String.◌∷◌ c s))
  unfolding flat split_space
  push_char-Same c s [] (h, t, t', e, e', same) = cc
  push_char-Same c s (p ∷ ps) same = elim (Bool-cases (u.is_space c)) [
    | inl blank ↦
        rw blank ("", split_space u p ++ flat ps, split_space u s, refl, refl, Same-kept _ _ same)
    | inr letter ↦
        let (h, t, e) = split_space-cons u p in
        rw letter (
          subst (λ l. Same l (push_char c (split_space u s)))
            (push_char-append c h t (split_space u p) (flat ps) e)
            (Same-push c (split_space u p ++ flat ps) (split_space u s) same))
  ]

  -- what is cut apart has the same words, also within a break
  IsCut : Matcher → ℕ → Option Char → String → Type 0
  IsCut m skip b s =
      (skip ≡ 0 → Same (flat (split_from m skip b s)) (split_space u s))
      × (kept (flat (split_from m skip b s)) ≡ kept (split_space u s))

  cut_here :
      (m : Matcher) (c : Char) (s : String) (n : ℕ)
      → u.is_space c ≡ true
      → kept (flat (split_from m n (some c) s)) ≡ kept (split_space u s)
      → Same (flat ("" ∷ split_from m n (some c) s)) (split_space u (String.◌∷◌ c s))
  unfolding flat split_space
  cut_here m c s n sp same =
      rw sp ("", flat (split_from m n (some c) s), split_space u s, refl, refl, same)

  cut_at :
      (m : Matcher) (b : Option Char) (c : Char) (s : String) (o : Option ℕ)
      → ((n : ℕ) → Spaces n s → IsCut m n (some c) s)
      → ((n : ℕ) → o ≡ some n → (u.is_space c ≡ true) × Spaces n s)
      → Same
          (flat (elim o [
            | none ↦ push_char c (split_from m zero (some c) s)
            | some n ↦ "" ∷ split_from m n (some c) s
          ]))
          (split_space u (String.◌∷◌ c s))
  unfolding IsCut
  cut_at m b c s none later spaces =
      push_char-Same c s (split_from m zero (some c) s) ((later zero tt).0 refl)
  cut_at m b c s (some n) later spaces =
      let (sp, h) = spaces n refl in cut_here m c s n sp (later n h).1

  split_from-IsCut :
      (m : Matcher) (skip : ℕ) (b : Option Char) (s : String)
      → EatsOne m
      → Spaces skip s
      → IsCut m skip b s
  unfolding IsCut split_from flat
  split_from-IsCut m zero b String.[] eats h =
      unfold split_space in (λ e. ("", [], [], refl, refl, refl), refl)
  split_from-IsCut m (suc n) b String.[] eats h = unfold split_space in (λ e. cc, refl)
  split_from-IsCut m (suc n) b (String.◌∷◌ c s) eats (sp, h) =
      (λ e. cc, (split_from-IsCut m n (some c) s eats h).1 ∙ sym (blank-words u c s sp))
  split_from-IsCut m zero b (String.◌∷◌ c s) eats h =
      let same =
        cut_at m b c s (length_of_match m b c s) (λ n k. split_from-IsCut m n (some c) s eats k)
          (λ n e. length_of_match-Spaces m b c s n eats e) in
      (λ e. same, Same-kept _ _ same)

  split-words : (m : Matcher) (s : String) → EatsOne m → words_of u (split m s) ≡ words u s
  unfolding split IsCut words
  split-words m s eats = sym (kept-flat _) ∙ (split_from-IsCut m zero none s eats tt).1

  pub paragraphs_apart :
      (s : String) → IsBreaking → words_of u (split (paragraph_break u) s) ≡ words u s
  paragraphs_apart s breaking = split-words (paragraph_break u) s (paragraph_break-EatsOne breaking)

  pub sentences_apart : (s : String) → words_of u (split (sentence_break u) s) ≡ words u s
  sentences_apart s = split-words (sentence_break u) s sentence_break-EatsOne
