-- ===== src/Ingestion/Chunker/Words.antt =====
-- The words of a text that core/ingestion/chunker.py strips, joins and cuts.
use Prim.Native.Char.{Char}
use mathlib.Core.List.{append-nil, append_assoc}
use eu_rag.Base.{
  ◌≡◌, refl, sym, ap, ◌∙◌, String, true, not, ◌&&◌, List, [], ◌∷◌, ◌++◌, inl, inr, select,
  Bool-cases, arith,
}
use eu_rag.Base.Text.{Unicode, ◌<>◌, is_empty, join, strip, lstrip, rstrip}
use eu_rag.Base.Regex.{push_char}
use eu_rag.Ingestion.Chunker.{words, split_space}

-- the tokens that are not empty
abbrev pub kept : List String → List String
kept l = select (λ w. not (is_empty w)) l

pub kept-append : (xs ys : List String) → kept (xs ++ ys) ≡ kept xs ++ kept ys
kept-append [] ys = refl
kept-append (x ∷ xs) ys = elim (Bool-cases (is_empty x)) [
  | inl empty ↦ rw empty (kept-append xs ys)
  | inr full ↦ rw full (ap (λ l. x ∷ l) (kept-append xs ys))
]

pub push_char-append :
    (c : Char) (h : String) (t xs ys : List String)
    → xs ≡ h ∷ t
    → push_char c (xs ++ ys) ≡ push_char c xs ++ ys
push_char-append c h t [] ys e = cc
push_char-append c h t (x ∷ xs) ys e = refl

-- tokens with the same first one, and the same words behind it
abbrev pub Same : List String → List String → Type 0
Same l l' =
    (h : String) × (t : List String) × (t' : List String) × (l ≡ h ∷ t)
    × (l' ≡ h ∷ t')
    × (kept t ≡ kept t')

pub Same-kept : (l l' : List String) → Same l l' → kept l ≡ kept l'
Same-kept l l' (h, t, t', e, e', same) = ap kept e ∙ heads ∙ sym (ap kept e')
  where
    heads : kept (h ∷ t) ≡ kept (h ∷ t')
    heads = elim (Bool-cases (is_empty h)) [
      | inl empty ↦ rw empty same
      | inr full ↦ rw full (ap (λ l. h ∷ l) same)
    ]

pub Same-push : (c : Char) (l l' : List String) → Same l l' → Same (push_char c l) (push_char c l')
Same-push c l l' (h, t, t', e, e', same) =
    (String.◌∷◌ c h, t, t', ap (push_char c) e, ap (push_char c) e', same)

module _ (u : Unicode) where
  pub split_space-cons : (s : String) → (h : String) × (t : List String) × (split_space u s ≡ h ∷ t)
  unfolding split_space
  split_space-cons String.[] = ("", [], refl)
  split_space-cons (String.◌∷◌ c s) = elim (Bool-cases (u.is_space c)) [
    | inl space ↦ ("", split_space u s, rw space refl)
    | inr letter ↦
        let (h, t, e) = split_space-cons s in (String.◌∷◌ c h, t, rw letter (ap (push_char c) e))
  ]

  pub cons-Same :
      (c : Char) (a b : String)
      → Same (split_space u a) (split_space u b)
      → Same (split_space u (String.◌∷◌ c a)) (split_space u (String.◌∷◌ c b))
  unfolding split_space
  cons-Same c a b same = elim (Bool-cases (u.is_space c)) [
    | inl space ↦ rw space ("", split_space u a, split_space u b, refl, refl, Same-kept _ _ same)
    | inr letter ↦ rw letter (Same-push c (split_space u a) (split_space u b) same)
  ]

  no_words : (s : String) → is_empty s ≡ true → kept (split_space u s) ≡ []
  unfolding split_space
  no_words String.[] e = refl
  no_words (String.◌∷◌ c s) e = cc

  blank-Same :
      (c : Char) (s : String)
      → u.is_space c ≡ true
      → [] ≡ kept (split_space u s)
      → Same (split_space u "") (split_space u (String.◌∷◌ c s))
  unfolding split_space
  blank-Same c s space none_left = rw space ("", [], split_space u s, refl, refl, none_left)

  rstrip-Same : (s : String) → Same (split_space u (rstrip u s)) (split_space u s)
  unfolding rstrip
  rstrip-Same String.[] = unfold split_space in ("", [], [], refl, refl, refl)
  rstrip-Same (String.◌∷◌ c s) =
      let same = rstrip-Same s in
      elim (Bool-cases (is_empty (rstrip u s) && u.is_space c)) [
        | inl gone ↦
            let empty : is_empty (rstrip u s) ≡ true = ground arith in
            let space : u.is_space c ≡ true = ground arith in
            rw gone (blank-Same c s space (sym (no_words (rstrip u s) empty) ∙ Same-kept _ _ same))
        | inr stays ↦ rw stays (cons-Same c (rstrip u s) s same)
      ]

  pub blank-words :
      (c : Char) (s : String)
      → u.is_space c ≡ true
      → kept (split_space u (String.◌∷◌ c s)) ≡ kept (split_space u s)
  unfolding split_space
  blank-words c s space = rw space refl

  lstrip-words : (s : String) → kept (split_space u (lstrip u s)) ≡ kept (split_space u s)
  unfolding lstrip
  lstrip-words String.[] = refl
  lstrip-words (String.◌∷◌ c s) = elim (Bool-cases (u.is_space c)) [
    | inl space ↦ rw space (lstrip-words s) ∙ sym (blank-words c s space)
    | inr letter ↦ ap (λ t. kept (split_space u t)) (rw letter refl)
  ]

  pub strip-words : (s : String) → words u (strip u s) ≡ words u s
  unfolding words strip
  strip-words s = Same-kept _ _ (rstrip-Same (lstrip u s)) ∙ lstrip-words s

  split_space-append :
      (a b : String) (c : Char)
      → u.is_space c ≡ true
      → split_space u (a <> String.◌∷◌ c b) ≡ split_space u a ++ split_space u b
  unfolding split_space ◌<>◌
  split_space-append String.[] b c space = rw space refl
  split_space-append (String.◌∷◌ d a) b c space = elim (Bool-cases (u.is_space d)) [
    | inl blank ↦ rw blank (ap (λ l. "" ∷ l) (split_space-append a b c space))
    | inr letter ↦
        let (h, t, e) = split_space-cons a in
        rw letter (
          ap (push_char d) (split_space-append a b c space)
          ∙ push_char-append d h t (split_space u a) (split_space u b) e)
  ]

  -- the words of texts, one after the other
  abbrev pub words_of : List String → List String
  words_of [] = []
  words_of (p ∷ ps) = words u p ++ words_of ps

  pub words_of-append : (xs ys : List String) → words_of (xs ++ ys) ≡ words_of xs ++ words_of ys
  words_of-append [] ys = refl
  words_of-append (x ∷ xs) ys =
      ap (λ l. words u x ++ l) (words_of-append xs ys)
      ∙ sym (append_assoc (words u x) (words_of xs) (words_of ys))

  abbrev pub AreSpaces : String → Type 0
  AreSpaces String.[] = Unit
  AreSpaces (String.◌∷◌ c s) = (u.is_space c ≡ true) × AreSpaces s

  spaces-words :
      (sep s : String) → AreSpaces sep → kept (split_space u (sep <> s)) ≡ kept (split_space u s)
  unfolding ◌<>◌
  spaces-words String.[] s h = refl
  spaces-words (String.◌∷◌ c sep) s (space, h) =
      blank-words c (sep <> s) space ∙ spaces-words sep s h

  -- white space between texts takes no word apart and joins none
  pub join-words :
      (c : Char) (sep : String) (l : List String)
      → AreSpaces (String.◌∷◌ c sep)
      → words u (join (String.◌∷◌ c sep) l) ≡ words_of l
  unfolding words join ◌<>◌
  join-words c sep [] h = unfold split_space in refl
  join-words c sep (s ∷ []) h = sym (append-nil (words u s))
  join-words c sep (s ∷ t ∷ rest) (space, h) =
      let r = join (String.◌∷◌ c sep) (t ∷ rest) in
      ap kept (split_space-append s (sep <> r) c space)
      ∙ kept-append (split_space u s) (split_space u (sep <> r))
      ∙ ap (λ l. kept (split_space u s) ++ l)
          (spaces-words sep r h ∙ join-words c sep (t ∷ rest) (space, h))
