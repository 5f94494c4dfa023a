-- ===== src/Generation/Citations/Laws.antt =====
-- What the markers of an answer resolve to.
use eu_rag.Base.{
  ℕ, suc, ◌+◌, ◌≤◌, ◌<◌, ◌≡◌, refl, true, false, some, List, [], ◌∷◌, arith, eqb, length, select,
  find, any, get_elem?, inl, inr, Bool-cases,
}
use eu_rag.Chunk.{Chunk}
use eu_rag.Generation.Citations.{
  Citation, cite, citations_from, build_citations, mem, out_of_range, validate,
}

-- the citations of an answer: those whose marker it uses
abbrev pub cited : List ℕ → List Citation → List Citation
cited used cs = select (λ c. mem c.marker used) cs

-- `m` is a marker of `cs`, and the first citation with it quotes the chunk that stands at its number
abbrev pub Resolves : List Chunk → List Citation → ℕ → Type 0
Resolves chunks cs m =
    (i : ℕ) × (c : Chunk) × (m ≡ i + 1)
    × (get_elem? chunks i ≡ some c)
    × (find (λ x. eqb x.marker m) cs ≡ some (cite m c))

citations_from-find :
    (i m : ℕ) (chunks : List Chunk)
    → i < m
    → m ≤ i + length chunks
    → (k : ℕ) × (c : Chunk) × (m ≡ i + k + 1)
      × (get_elem? chunks k ≡ some c)
      × (find (λ x. eqb x.marker m) (citations_from i chunks) ≡ some (cite m c))
unfolding citations_from
citations_from-find i m [] low high = absurd (omega arith)
citations_from-find i m (c ∷ chunks) low high = elim (Bool-cases (eqb (i + 1) m)) [
  | inl here ↦ (0, c, ground arith, refl, ground arith)
  | inr later ↦
      let (k, d, at, found, hit) =
        citations_from-find (suc i) m chunks (ground arith) (omega arith) in
      (suc k, d, omega arith, found, ground arith)
]

find-cited :
    (used : List ℕ) (m : ℕ) (cs : List Citation)
    → mem m used ≡ true
    → find (λ x. eqb x.marker m) (cited used cs) ≡ find (λ x. eqb x.marker m) cs
find-cited used m [] h = refl
find-cited used m (c ∷ cs) h = elim (Bool-cases (eqb c.marker m)) [
  | inl here ↦ let same : c.marker ≡ m = ground arith in rw (here, same, h) (ground arith)
  | inr other ↦ rw other (ground (arith, find-cited used m cs h))
]

mem-in_range :
    (n m : ℕ) (used : List ℕ)
    → any (out_of_range n) used ≡ false
    → mem m used ≡ true
    → (0 < m) × (m ≤ n)
mem-in_range n m [] none_out h = cc
mem-in_range n m (x ∷ used) none_out h = ground (arith, mem-in_range n m used)

-- Once the markers are valid, each of them resolves to a citation that is kept.
pub validate-Resolves :
    (used : List ℕ) (chunks : List Chunk) (m : ℕ)
    → (validate used (length chunks)).0 ≡ true
    → mem m used ≡ true
    → Resolves chunks (cited used (build_citations chunks)) m
unfolding validate build_citations
validate-Resolves [] chunks m valid h = cc
validate-Resolves (x ∷ used) chunks m valid h =
    let in_range = mem-in_range (length chunks) m (x ∷ used) (ground arith) h in
    let (i, c, at, found, hit) = citations_from-find 0 m chunks (ground arith) (ground arith) in
    (i, c, omega arith, found, rw (find-cited (x ∷ used) m (citations_from 0 chunks) h) hit)
