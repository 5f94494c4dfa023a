-- ===== src/Retrieval/Bm25/Counts.antt =====
-- The counts of core/retrieval/bm25.py's index: what adding and removing a chunk does to each.
use eu_rag.Base.{
  ℕ, ◌+◌, ◌-◌, ◌≡◌, ◌≢◌, refl, ap, subst, ◌∙◌, String, true, Option, none, some, List, [], ◌∷◌,
  arith, ◌==◌, eq_iff, inl, inr, if◌then◌else◌, leb, is_some, some_inj, Bool-cases,
}
use eu_rag.Base.Dict.{get, put, remove, get-put, get-remove}
use eu_rag.Base.Dict.Distinct.{IsDistinct, put-IsDistinct, remove_miss}
use eu_rag.Retrieval.Bm25.{counter, count_of, total, count_terms, uncount_terms}

abbrev pub Tokens : Type 0
Tokens = List (String × ℕ)

-- 1 for a chunk that has the term
abbrev pub has_term : String → Tokens → ℕ
has_term term tokens = if is_some (get term tokens) then 1 else 0

-- how many of the chunks have it
abbrev pub holders : String → List (String × Tokens) → ℕ
holders term [] = 0
holders term ((cid, tokens) ∷ docs) = has_term term tokens + holders term docs

abbrev pub length_of : Option Tokens → Option ℕ
length_of none = none
length_of (some tokens) = some (total tokens)

pub counter-IsDistinct :
    (ts : List String) (table : Tokens) → IsDistinct table → IsDistinct (counter ts table)
unfolding counter
counter-IsDistinct [] table h = h
counter-IsDistinct (t ∷ ts) table h =
    counter-IsDistinct ts (put t (count_of (get t table) + 1) table)
      (put-IsDistinct t (count_of (get t table) + 1) table h)

has_term-cons :
    (term s : String) (n : ℕ) (tokens : Tokens)
    → has_term term ((s, n) ∷ tokens) ≡ (if s == term then 1 else has_term term tokens)
unfolding get
has_term-cons term s n tokens = ground arith

-- a term is counted where it is the one that stands in front
has_term_fresh :
    (term s : String) (tokens : Tokens)
    → get s tokens ≡ none
    → (s == term) ≡ true
    → has_term term tokens ≡ 0
has_term_fresh term s tokens fresh same =
    let here : get term tokens ≡ none =
      subst (λ k. get k tokens ≡ none) ((eq_iff s term).0 same) fresh in
    rw here refl

count_of-get :
    (term s : String) (df : Tokens)
    → (s == term) ≡ true
    → count_of (get s df) ≡ count_of (get term df)
count_of-get term s df same = ap (λ k. count_of (get k df)) ((eq_iff s term).0 same)

pub get-count_terms :
    (term : String) (tokens df : Tokens)
    → IsDistinct tokens
    → count_of (get term (count_terms tokens df)) ≡ count_of (get term df) + has_term term tokens
unfolding count_terms get
get-count_terms term [] df h = omega arith
get-count_terms term ((s, n) ∷ tokens) df (fresh, h) =
    let step = get-count_terms term tokens (put s (count_of (get s df) + 1) df) h in
    let written = ap count_of (get-put s term (count_of (get s df) + 1) df) in
    let head = has_term-cons term s n tokens in
    elim (Bool-cases (s == term)) [
      | inl same ↦
          let one : count_of (get term (put s (count_of (get s df) + 1) df))
              ≡ count_of (get s df) + 1 =
            written ∙ rw same refl in
          let first : has_term term ((s, n) ∷ tokens) ≡ 1 = head ∙ rw same refl in
          omega (
            arith,
            step,
            one,
            first,
            has_term_fresh term s tokens fresh same,
            count_of-get term s df same,
          )
      | inr other ↦
          let kept : count_of (get term (put s (count_of (get s df) + 1) df))
              ≡ count_of (get term df) =
            written ∙ rw other refl in
          let rest : has_term term ((s, n) ∷ tokens) ≡ has_term term tokens =
            head ∙ rw other refl in
          omega (arith, step, kept, rest)
    ]

get-uncount :
    (term s : String) (df : Tokens)
    → count_of (
        get term
          (if leb (count_of (get s df)) 1 then remove s df else put s (count_of (get s df) - 1) df))
      ≡ (if s == term then count_of (get term df) - 1 else count_of (get term df))
get-uncount term s df =
    ground (arith, get-remove s term df, get-put s term (count_of (get s df) - 1) df, eq_iff s term)

pub get-uncount_terms :
    (term : String) (tokens df : Tokens)
    → IsDistinct tokens
    → count_of (get term (uncount_terms tokens df)) ≡ count_of (get term df) - has_term term tokens
unfolding uncount_terms get
get-uncount_terms term [] df h = omega arith
get-uncount_terms term ((s, n) ∷ tokens) df (fresh, h) =
    let next =
      if leb (count_of (get s df)) 1 then remove s df else put s (count_of (get s df) - 1) df in
    let step = get-uncount_terms term tokens next h in
    let written = get-uncount term s df in
    let head = has_term-cons term s n tokens in
    elim (Bool-cases (s == term)) [
      | inl same ↦
          let one : count_of (get term next) ≡ count_of (get term df) - 1 =
            written ∙ rw same refl in
          let first : has_term term ((s, n) ∷ tokens) ≡ 1 = head ∙ rw same refl in
          omega (arith, step, one, first, has_term_fresh term s tokens fresh same)
      | inr other ↦
          let kept : count_of (get term next) ≡ count_of (get term df) = written ∙ rw other refl in
          let rest : has_term term ((s, n) ∷ tokens) ≡ has_term term tokens =
            head ∙ rw other refl in
          omega (arith, step, kept, rest)
    ]

-- no count is zero
abbrev pub HasNoZero : Tokens → Type 0
HasNoZero df = (term : String) → get term df ≢ some 0

pub count_terms-HasNoZero : (tokens df : Tokens) → HasNoZero df → HasNoZero (count_terms tokens df)
unfolding count_terms
count_terms-HasNoZero [] df h = h
count_terms-HasNoZero ((s, n) ∷ tokens) df h =
    let next = put s (count_of (get s df) + 1) df in
    count_terms-HasNoZero tokens next (λ term e.
      let written = get-put s term (count_of (get s df) + 1) df in let old = h term in ground arith)

pub uncount_terms-HasNoZero :
    (tokens df : Tokens) → HasNoZero df → HasNoZero (uncount_terms tokens df)
unfolding uncount_terms
uncount_terms-HasNoZero [] df h = h
uncount_terms-HasNoZero ((s, n) ∷ tokens) df h =
    uncount_terms-HasNoZero tokens
      (if leb (count_of (get s df)) 1 then remove s df else put s (count_of (get s df) - 1) df)
      (λ term e.
        let written = get-put s term (count_of (get s df) - 1) df in
        let gone = get-remove s term df in let old = h term in ground arith)

pub holders-put :
    (term cid : String) (tokens : Tokens) (docs : List (String × Tokens))
    → get cid docs ≡ none
    → holders term (put cid tokens docs) ≡ holders term docs + has_term term tokens
unfolding put get
holders-put term cid tokens [] h = omega arith
holders-put term cid tokens ((j, old) ∷ docs) h = elim (Bool-cases (j == cid)) [
  | inl same ↦ ground arith
  | inr other ↦
      let step = holders-put term cid tokens docs (rw other at h) in rw other (omega (arith, step))
]

pub holders-remove :
    (term cid : String) (tokens : Tokens) (docs : List (String × Tokens))
    → IsDistinct docs
    → get cid docs ≡ some tokens
    → holders term (remove cid docs) + has_term term tokens ≡ holders term docs
unfolding remove get
holders-remove term cid tokens [] h e = cc
holders-remove term cid tokens ((j, old) ∷ docs) (fresh, h) e = elim (Bool-cases (j == cid)) [
  | inl same ↦
      let here : get cid docs ≡ none =
        subst (λ k. get k docs ≡ none) ((eq_iff j cid).0 same) fresh in
      let kept = remove_miss cid docs here in
      let it : old ≡ tokens = some_inj (rw same at e) in rw (same, kept, it) (omega arith)
  | inr other ↦
      let step = holders-remove term cid tokens docs h (rw other at e) in
      rw other (omega (arith, step))
]
