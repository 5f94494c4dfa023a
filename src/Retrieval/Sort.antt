-- ===== src/Retrieval/Sort.antt =====
-- Python's `sorted(…, key=…, reverse=True)`: descending and stable. Scores are an abstract type
-- with its test `lt`, since they are floats.
use eu_rag.Base.{◌≡◌, ◌⊎◌, inl, inr, Bool, true, false, List, [], ◌∷◌, arith, if◌then◌else◌, Member}

module _ {A F : Type 0} (lt : F → F → Bool) (key : A → F) where
  -- behind the items that score higher, in front of its equals, which came later
  unfoldable pub place : A → List A → List A
  place x [] = x ∷ []
  place x (y ∷ ys) =
      let behind = place x ys in if lt (key x) (key y) then y ∷ behind else x ∷ y ∷ ys

  unfoldable pub sort_down : List A → List A
  unfolding place
  sort_down [] = []
  sort_down (x ∷ xs) = place x (sort_down xs)

  -- no item scores less than the one behind it
  abbrev pub IsDescending : List A → Type 0
  IsDescending [] = Unit
  IsDescending (x ∷ []) = Unit
  IsDescending (x ∷ y ∷ ys) = (lt (key x) (key y) ≡ false) × IsDescending (y ∷ ys)

  place-Member : (x y : A) (ys : List A) → Member x (place y ys) → (x ≡ y) ⊎ Member x ys
  unfolding place
  place-Member x y [] m = m
  place-Member x y (z ∷ zs) m = go (lt (key y) (key z)) m (place-Member x y zs)
    where
      go :
          (b : Bool)
          → Member x (if b then z ∷ place y zs else y ∷ z ∷ zs)
          → (Member x (place y zs) → (x ≡ y) ⊎ Member x zs)
          → (x ≡ y) ⊎ ((x ≡ z) ⊎ Member x zs)
      go true (inl e) ih = inr (inl e)
      go true (inr m) ih = swap (ih m)
        where
          swap : (x ≡ y) ⊎ Member x zs → (x ≡ y) ⊎ ((x ≡ z) ⊎ Member x zs)
          swap (inl e) = inl e
          swap (inr t) = inr (inr t)
      go false m ih = m

  Member-place : (x y : A) (ys : List A) → (x ≡ y) ⊎ Member x ys → Member x (place y ys)
  unfolding place
  Member-place x y [] m = m
  Member-place x y (z ∷ zs) m = go (lt (key y) (key z)) m (Member-place x y zs)
    where
      go :
          (b : Bool)
          → (x ≡ y) ⊎ ((x ≡ z) ⊎ Member x zs)
          → ((x ≡ y) ⊎ Member x zs → Member x (place y zs))
          → Member x (if b then z ∷ place y zs else y ∷ z ∷ zs)
      go true (inl e) ih = inr (ih (inl e))
      go true (inr (inl e)) ih = inl e
      go true (inr (inr t)) ih = inr (ih (inr t))
      go false m ih = m

  -- the sorted list has the items of the list
  pub sort_down-Member : (x : A) (xs : List A) → Member x (sort_down xs) → Member x xs
  unfolding sort_down
  sort_down-Member x [] m = m
  sort_down-Member x (y ∷ ys) m = go (place-Member x y (sort_down ys) m) (sort_down-Member x ys)
    where
      go :
          (x ≡ y) ⊎ Member x (sort_down ys)
          → (Member x (sort_down ys) → Member x ys)
          → Member x (y ∷ ys)
      go (inl e) ih = inl e
      go (inr m) ih = inr (ih m)

  pub Member-sort_down : (x : A) (xs : List A) → Member x xs → Member x (sort_down xs)
  unfolding sort_down
  Member-sort_down x [] m = m
  Member-sort_down x (y ∷ ys) (inl e) = Member-place x y (sort_down ys) (inl e)
  Member-sort_down x (y ∷ ys) (inr m) =
      Member-place x y (sort_down ys) (inr (Member-sort_down x ys m))

  module _ (asym : (a b : F) → lt a b ≡ true → lt b a ≡ false) where
    place-IsDescending : (x : A) (ys : List A) → IsDescending ys → IsDescending (place x ys)
    unfolding place
    place-IsDescending x [] h = tt
    place-IsDescending x (y ∷ []) h = ground (arith, asym (key x) (key y))
    place-IsDescending x (y ∷ z ∷ zs) h =
        ground
          (arith, asym (key x) (key y), asym (key x) (key z), place-IsDescending x (z ∷ zs) h.1)

    -- the sorted list descends
    pub sort_down-IsDescending : (xs : List A) → IsDescending (sort_down xs)
    unfolding sort_down
    sort_down-IsDescending [] = tt
    sort_down-IsDescending (x ∷ xs) =
        place-IsDescending x (sort_down xs) (sort_down-IsDescending xs)
