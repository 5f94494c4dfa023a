-- ===== src/Retrieval/Fusion.antt =====
-- `rrf_fuse` of core/retrieval/hybrid_retriever.py: reciprocal rank fusion. Scores are Python
-- floats, an abstract type `F` with the operations that the program uses.
use eu_rag.Base.{
  ℕ, suc, ◌+◌, String, ◌≡◌, ◌↔◌, refl, sym, ap, ◌∙◌, Bool, true, false, Option, none, some, List,
  [], ◌∷◌, arith, ◌==◌, eq_iff, if◌then◌else◌, Member,
}
use eu_rag.Base.Dict.{get, put, get-put, HasUniqueNames, put-HasUniqueNames, Member-get, get-Member}
use eu_rag.Retrieval.Sort.{
  place, sort_down, IsDescending, sort_down-Member, Member-sort_down, sort_down-IsDescending,
}

pub record FloatOps (F : Type 0) : Type 0 where
  pub zero_score : F
  pub add : F → F → F
  -- 1.0 / n
  pub reciprocal : ℕ → F
  pub lt : F → F → Bool

abbrev pub rrf_k : ℕ
rrf_k = 60

module _ {F : Type 0} (ops : FloatOps F) where
  -- scores.get(item, 0.0) + 1.0 / (k + rank + 1)
  pub raised : ℕ → Option F → F
  raised n none = ops.add ops.zero_score (ops.reciprocal n)
  raised n (some s) = ops.add s (ops.reciprocal n)

  -- the inner loop, from a rank on
  pub add_ranking : ℕ → ℕ → List String → List (String × F) → List (String × F)
  unfolding raised
  add_ranking k rank [] scores = scores
  add_ranking k rank (item ∷ ranking) scores =
      add_ranking k (suc rank) ranking (put item (raised (k + rank + 1) (get item scores)) scores)

  pub add_rankings : ℕ → List (List String) → List (String × F) → List (String × F)
  unfolding add_ranking
  add_rankings k [] scores = scores
  add_rankings k (ranking ∷ rankings) scores =
      add_rankings k rankings (add_ranking k 0 ranking scores)

  unfoldable pub rrf_fuse : ℕ → List (List String) → List (String × F)
  unfolding add_rankings
  rrf_fuse k rankings = sort_down ops.lt (λ e. e.1) (add_rankings k rankings [])

  -- The score of one item, read off the rankings with no table: none where none of them has it.
  pub item_score : ℕ → ℕ → String → List String → Option F → Option F
  item_score k rank item [] s = s
  item_score k rank item (x ∷ ranking) s =
      item_score k (suc rank) item ranking (if x == item then some (raised (k + rank + 1) s) else s)

  pub fused_score : ℕ → String → List (List String) → Option F → Option F
  unfolding item_score
  fused_score k item [] s = s
  fused_score k item (ranking ∷ rankings) s =
      fused_score k item rankings (item_score k 0 item ranking s)

  add_ranking-score :
      (k rank : ℕ) (item : String) (ranking : List String) (scores : List (String × F))
      → get item (add_ranking k rank ranking scores)
        ≡ item_score k rank item ranking (get item scores)
  unfolding add_ranking item_score
  add_ranking-score k rank item [] scores = refl
  add_ranking-score k rank item (x ∷ ranking) scores =
      add_ranking-score k (suc rank) item ranking
        (put x (raised (k + rank + 1) (get x scores)) scores)
      ∙ ap (item_score k (suc rank) item ranking) (
          get-put x item (raised (k + rank + 1) (get x scores)) scores
          ∙ ground (arith, eq_iff x item))

  add_rankings-score :
      (k : ℕ) (item : String) (rankings : List (List String)) (scores : List (String × F))
      → get item (add_rankings k rankings scores) ≡ fused_score k item rankings (get item scores)
  unfolding add_rankings fused_score
  add_rankings-score k item [] scores = refl
  add_rankings-score k item (r ∷ rankings) scores =
      add_rankings-score k item rankings (add_ranking k 0 r scores)
      ∙ ap (fused_score k item rankings) (add_ranking-score k 0 item r scores)

  add_ranking-HasUniqueNames :
      (k rank : ℕ) (ranking : List String) (scores : List (String × F))
      → HasUniqueNames scores
      → HasUniqueNames (add_ranking k rank ranking scores)
  unfolding add_ranking
  add_ranking-HasUniqueNames k rank [] scores h = h
  add_ranking-HasUniqueNames k rank (x ∷ ranking) scores h =
      add_ranking-HasUniqueNames k (suc rank) ranking _
        (put-HasUniqueNames x (raised (k + rank + 1) (get x scores)) scores h)

  add_rankings-HasUniqueNames :
      (k : ℕ) (rankings : List (List String)) (scores : List (String × F))
      → HasUniqueNames scores
      → HasUniqueNames (add_rankings k rankings scores)
  unfolding add_rankings
  add_rankings-HasUniqueNames k [] scores h = h
  add_rankings-HasUniqueNames k (r ∷ rankings) scores h =
      add_rankings-HasUniqueNames k rankings _ (add_ranking-HasUniqueNames k 0 r scores h)

  get-place-none :
      (k : String) (x : String × F) (ys : List (String × F))
      → (x.0 == k) ≡ false
      → get k ys ≡ none
      → get k (place ops.lt (λ e. e.1) x ys) ≡ none
  unfolding get place
  get-place-none k x [] ne h = ground arith
  get-place-none k x (y ∷ ys) ne h = ground (arith, get-place-none k x ys ne)

  place-HasUniqueNames :
      (x : String × F) (ys : List (String × F))
      → get x.0 ys ≡ none
      → HasUniqueNames ys
      → HasUniqueNames (place ops.lt (λ e. e.1) x ys)
  unfolding get place
  place-HasUniqueNames x [] new h = (refl, tt)
  place-HasUniqueNames x (y ∷ ys) new h =
      ground
        (arith, eq_iff x.0 y.0, eq_iff y.0 x.0, get-place-none y.0 x ys, place-HasUniqueNames x ys)

  get-sort_down-none :
      (k : String) (xs : List (String × F))
      → get k xs ≡ none
      → get k (sort_down ops.lt (λ e. e.1) xs) ≡ none
  unfolding get sort_down
  get-sort_down-none k [] h = h
  get-sort_down-none k (x ∷ xs) h =
      get-place-none k x _ (ground arith) (get-sort_down-none k xs (ground arith))

  sort_down-HasUniqueNames :
      (xs : List (String × F)) → HasUniqueNames xs → HasUniqueNames (sort_down ops.lt (λ e. e.1) xs)
  unfolding sort_down
  sort_down-HasUniqueNames [] h = h
  sort_down-HasUniqueNames (x ∷ xs) h =
      place-HasUniqueNames x _ (get-sort_down-none x.0 xs h.0) (sort_down-HasUniqueNames xs h.1)

  -- no item stands twice in a fusion
  pub rrf_fuse-HasUniqueNames :
      (k : ℕ) (rankings : List (List String)) → HasUniqueNames (rrf_fuse k rankings)
  unfolding rrf_fuse
  rrf_fuse-HasUniqueNames k rankings =
      sort_down-HasUniqueNames _ (add_rankings-HasUniqueNames k rankings [] tt)

  -- The fusion lists exactly the items that some ranking has, each with the score that the formula
  -- gives it, and, where the test on scores is asymmetric, in descending order of the scores.
  pub rrf_fuse-ranks :
      (k : ℕ) (rankings : List (List String)) (item : String) (s : F)
      → ((a b : F) → ops.lt a b ≡ true → ops.lt b a ≡ false)
      → (Member (item, s) (rrf_fuse k rankings) ↔ (fused_score k item rankings none ≡ some s))
        × IsDescending ops.lt (λ (e : String × F). e.1) (rrf_fuse k rankings)
  unfolding rrf_fuse get
  rrf_fuse-ranks k rankings item s asym =
      let table = add_rankings k rankings [] in
      let score = add_rankings-score k item rankings [] in
      (
        (
          λ m.
              sym score
              ∙ Member-get item s table (add_rankings-HasUniqueNames k rankings [] tt)
                  (sort_down-Member ops.lt (λ e. e.1) (item, s) table m),
          λ e.
              Member-sort_down ops.lt (λ e. e.1) (item, s) table
                (get-Member item s table (score ∙ e)),
        ),
        sort_down-IsDescending ops.lt (λ e. e.1) asym table,
      )
