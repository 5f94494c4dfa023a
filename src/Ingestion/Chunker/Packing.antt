-- ===== src/Ingestion/Chunker/Packing.antt =====
-- What the packing of core/ingestion/chunker.py puts into its pieces.
use mathlib.Core.List.{append-nil, append_assoc}
use eu_rag.Base.{
  ℕ, zero, suc, ◌+◌, ◌-◌, eqb, drop, length, subst, ◌≤◌, ◌≡◌, refl, sym, ap, ◌∙◌, String, List, [],
  ◌∷◌, ◌++◌, ◌⊎◌, inl, inr, map, ltb, arith, Bool-cases, All,
}
use eu_rag.Base.Text.{Unicode, join}
use eu_rag.Ingestion.Chunker.{pack, total_words, word_count, tail_of, words}

-- what a piece is joined of: what it carries over, and the parts that are its own
abbrev pub Group : Type 0
Group = List String × List String

abbrev pub own_parts : List Group → List String
own_parts [] = []
own_parts ((carried, own) ∷ groups) = own ++ own_parts groups

abbrev pub piece : String → Group → String
piece sep g = join sep (g.0 ++ g.1)

nil_own : (carried own : List String) → ◌≡◌ {A = List String} [] (carried ++ own) → own ≡ []
nil_own [] own e = sym e
nil_own (x ∷ carried) own e = cc

nil_carried : (carried own : List String) → ◌≡◌ {A = List String} [] (carried ++ own) → carried ≡ []
nil_carried [] own e = refl
nil_carried (x ∷ carried) own e = cc

module _ (u : Unicode) (max_words : ℕ) where
  total_words-append :
      (xs ys : List String)
      → total_words u max_words (xs ++ ys) ≡ total_words u max_words xs + total_words u max_words ys
  unfolding total_words
  total_words-append [] ys = omega arith
  total_words-append (x ∷ xs) ys = omega (arith, total_words-append xs ys)

  -- a piece keeps to the budget, or it has only one part of its own
  abbrev pub Fits : Group → Type 0
  Fits g =
      (total_words u max_words (g.0 ++ g.1) ≤ max_words) ⊎ ((part : String) × (g.1 ≡ part ∷ []))

  module _ (sep : String) (carry : List String → List String) where
    -- what the first group carries, and each later one from the one before it
    abbrev pub Chain : List String → List Group → Type 0
    Chain first [] = Unit
    Chain first ((carried, own) ∷ groups) =
        (carried ≡ first) × Chain (carry (carried ++ own)) groups

    abbrev pub Covers : List String → List String → List String → ℕ → List String → Type 0
    Covers current carried own count parts =
        (groups : List Group) × (pack u max_words sep carry current count parts
          ≡ map (piece sep) groups)
        × (own_parts groups ≡ own ++ parts)
        × All Fits groups
        × Chain carried groups

    pub pack-Covers :
        (parts current carried own : List String) (count : ℕ)
        → current ≡ carried ++ own
        → count ≡ total_words u max_words current
        → ((current ≡ []) ⊎ Fits (carried, own))
        → Covers current carried own count parts
    unfolding pack total_words
    pack-Covers [] [] carried own count e c h =
        ([], refl, sym (append-nil own ∙ nil_own carried own e), tt, tt)
    pack-Covers [] (x ∷ current) carried own count e c h = (
      (carried, own) ∷ [],
      ap (λ l. join sep l ∷ []) e,
      refl,
      (elim h [ inl empty ↦ cc | inr fits ↦ fits ], tt),
      (refl, tt),
    )
    pack-Covers (p ∷ parts) [] carried own count e c h =
        let (groups, same, all, fits, chain) =
          pack-Covers parts (p ∷ []) [] (p ∷ []) (count + word_count u max_words p) refl
            (omega arith) (inr (inr (p, refl))) in
        (
          groups,
          same,
          all ∙ sym (ap (λ o. o ++ (p ∷ parts)) (nil_own carried own e)),
          fits,
          subst (λ l. Chain l groups) (sym (nil_carried carried own e)) chain,
        )
    pack-Covers (p ∷ parts) (x ∷ current) carried own count e c h =
        elim (Bool-cases (ltb max_words (count + word_count u max_words p))) [
          | inl over ↦
              let carried' = carry (x ∷ current) in
              let (groups, same, all, fits, chain) =
                pack-Covers parts (carried' ++ p ∷ []) carried' (p ∷ [])
                  (total_words u max_words carried' + word_count u max_words p) refl
                  (omega (arith, total_words-append carried' (p ∷ []))) (inr (inr (p, refl))) in
              (
                (carried, own) ∷ groups,
                rw (over, pack) (λ i. join sep (e i) ∷ same i),
                ap (λ ps. own ++ ps) all,
                (elim h [ inl empty ↦ cc | inr fits ↦ fits ], fits),
                (refl, subst (λ l. Chain (carry l) groups) e chain),
              )
          | inr under ↦
              let grown = ap (λ l. l ++ p ∷ []) e ∙ append_assoc carried own (p ∷ []) in
              let total = total_words-append (x ∷ current) (p ∷ []) in
              let within : count + word_count u max_words p ≤ max_words = ground arith in
              let (groups, same, all, fits, chain) =
                pack-Covers parts ((x ∷ current) ++ p ∷ []) carried (own ++ p ∷ [])
                  (count + word_count u max_words p) grown (omega arith)
                  (inr (inl (rw (← grown) (omega arith)))) in
              (groups, rw (under, pack) same, all ∙ append_assoc own (p ∷ []) parts, fits, chain)
        ]

  -- a piece carries the last words of the one before it, so many of them or all
  abbrev pub IsTail : ℕ → Group → List String → Type 0
  IsTail overlap before carried =
      (front : List String) × (back : List String) × (words u (piece "\n\n" before) ≡ front ++ back)
      × ((length back ≡ overlap) ⊎ (front ≡ []))
      × (carried ≡ join " " back ∷ [])

  -- the first piece carries nothing, and each later one the tail of the one before it
  abbrev pub CarryFrom : ℕ → Group → List Group → Type 0
  CarryFrom overlap before [] = Unit
  CarryFrom overlap before (g ∷ groups) = IsTail overlap before g.0 × CarryFrom overlap g groups

  abbrev pub Carry : ℕ → List Group → Type 0
  Carry overlap [] = Unit
  Carry overlap (g ∷ groups) = (g.0 ≡ []) × CarryFrom overlap g groups

  cut_back :
      (n : ℕ) (ws : List String)
      → (front : List String) × (ws ≡ front ++ drop n ws)
        × (length (drop n ws) ≡ length ws - n)
        × (n ≡ 0 → front ≡ [])
  cut_back zero ws = ([], refl, omega arith, λ e. refl)
  cut_back (suc n) [] = ([], refl, omega arith, λ e. cc)
  cut_back (suc n) (w ∷ ws) =
      let (front, split, size, none_cut) = cut_back n ws in
      (w ∷ front, ap (λ l. w ∷ l) split, omega arith, λ e. cc)

  tail_of-IsTail :
      (overlap : ℕ) (g : Group) → IsTail overlap g (tail_of u max_words overlap (g.0 ++ g.1))
  unfolding tail_of
  tail_of-IsTail overlap g =
      let ws = words u (piece "\n\n" g) in
      elim (Bool-cases (eqb overlap 0)) [
        | inl all ↦ rw all ([], ws, refl, inr refl, refl)
        | inr some_only ↦
            let (front, split, size, none_cut) = cut_back (length ws - overlap) ws in
            rw some_only (
              front,
              drop (length ws - overlap) ws,
              split,
              (elim (Bool-cases (ltb overlap (length ws))) [
                | inl longer ↦ inl (ground arith)
                | inr shorter ↦ inr (none_cut (ground arith))
              ]),
              refl,
            )
      ]

  Chain-CarryFrom :
      (overlap : ℕ) (g : Group) (groups : List Group)
      → Chain "\n\n" (tail_of u max_words overlap) (tail_of u max_words overlap (g.0 ++ g.1)) groups
      → CarryFrom overlap g groups
  Chain-CarryFrom overlap g [] h = tt
  Chain-CarryFrom overlap g (x ∷ groups) (e, h) = (
    subst (IsTail overlap g) (sym e) (tail_of-IsTail overlap g),
    Chain-CarryFrom overlap x groups h,
  )

  pub Chain-Carry :
      (overlap : ℕ) (groups : List Group)
      → Chain "\n\n" (tail_of u max_words overlap) [] groups
      → Carry overlap groups
  Chain-Carry overlap [] h = tt
  Chain-Carry overlap (g ∷ groups) (e, h) = (e, Chain-CarryFrom overlap g groups h)
