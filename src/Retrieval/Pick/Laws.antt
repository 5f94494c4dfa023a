-- ===== src/Retrieval/Pick/Laws.antt =====
-- How many passages are picked, which, and how many of one document.
use eu_rag.Base.{
  ℕ, ◌+◌, ◌≤◌, ◌<◌, min, String, ◌≡◌, refl, true, false, List, [], ◌∷◌, ◌++◌, arith, ltb, ◌==◌,
  eq_iff, eq_refl, if◌then◌else◌, length, length-append,
}
use eu_rag.Base.Dict.{get, put, get-put}
use eu_rag.Retrieval.Pick.{doc_of, tally, capped, is_picked, backfill, pick}

-- how often an id stands in a list
unfoldable pub occurrences : String → List String → ℕ
occurrences x [] = 0
occurrences x (y ∷ ys) = (if y == x then 1 else 0) + occurrences x ys

-- how many ids of a document stand in a list
unfoldable pub of_doc : String → List String → ℕ
of_doc d [] = 0
of_doc d (y ∷ ys) = (if doc_of y == d then 1 else 0) + of_doc d ys

-- the ids of a list that are not among those picked
missing : List String → List String → ℕ
missing picked [] = 0
missing picked (y ∷ ys) = (if is_picked y picked then 0 else 1) + missing picked ys

occurrences-append :
    (x : String) (xs ys : List String)
    → occurrences x (xs ++ ys) ≡ occurrences x xs + occurrences x ys
unfolding occurrences
occurrences-append x [] ys = omega arith
occurrences-append x (y ∷ xs) ys = omega (arith, occurrences-append x xs ys)

of_doc-append : (d : String) (xs ys : List String) → of_doc d (xs ++ ys) ≡ of_doc d xs + of_doc d ys
unfolding of_doc
of_doc-append d [] ys = omega arith
of_doc-append d (y ∷ xs) ys = omega (arith, of_doc-append d xs ys)

is_picked-occurrences :
    (x : String) (picked : List String) → is_picked x picked ≡ ltb 0 (occurrences x picked)
unfolding occurrences
is_picked-occurrences x [] = refl
is_picked-occurrences x (y ∷ ys) = ground (arith, is_picked-occurrences x ys)

module _ (k max_per_doc : ℕ) where
  -- the first loop picks from what is there and from the ranking
  capped-occurrences :
      (x : String) (fused picked : List String) (per_doc : List (String × ℕ))
      → let p = (capped k max_per_doc fused picked per_doc).0 in
        (occurrences x picked ≤ occurrences x p)
        × (occurrences x p ≤ occurrences x picked + occurrences x fused)
  unfolding capped occurrences
  capped-occurrences x [] picked per_doc = omega arith
  capped-occurrences x (cid ∷ fused) picked per_doc = ground (
    arith,
    capped-occurrences x fused picked per_doc,
    capped-occurrences x fused (picked ++ (cid ∷ []))
        (put (doc_of cid) (tally (get (doc_of cid) per_doc) + 1) per_doc),
    occurrences-append x picked (cid ∷ []),
  )

  capped-length :
      (fused picked : List String) (per_doc : List (String × ℕ))
      → length picked < k
      → let (p, full) = capped k max_per_doc fused picked per_doc in
        (if full then length p ≡ k else length p < k)
  unfolding capped
  capped-length [] picked per_doc h = h
  capped-length (cid ∷ fused) picked per_doc h = ground (
    arith,
    capped-length fused picked per_doc h,
    capped-length fused (picked ++ (cid ∷ []))
        (put (doc_of cid) (tally (get (doc_of cid) per_doc) + 1) per_doc),
    length-append picked (cid ∷ []),
  )

  capped-length-le :
      (fused picked : List String) (per_doc : List (String × ℕ))
      → length (capped k max_per_doc fused picked per_doc).0 ≤ length picked + length fused
  unfolding capped
  capped-length-le [] picked per_doc = omega arith
  capped-length-le (cid ∷ fused) picked per_doc = ground (
    arith,
    capped-length-le fused picked per_doc,
    capped-length-le fused (picked ++ (cid ∷ []))
        (put (doc_of cid) (tally (get (doc_of cid) per_doc) + 1) per_doc),
    length-append picked (cid ∷ []),
  )

  -- no document passes the cap while the table counts what is picked
  capped-of_doc :
      (d : String) (fused picked : List String) (per_doc : List (String × ℕ))
      → ((e : String) → tally (get e per_doc) ≡ of_doc e picked)
      → of_doc d picked ≤ max_per_doc
      → of_doc d (capped k max_per_doc fused picked per_doc).0 ≤ max_per_doc
  unfolding capped of_doc
  capped-of_doc d [] picked per_doc counts h = h
  capped-of_doc d (cid ∷ fused) picked per_doc counts h = ground (
    arith,
    counts (doc_of cid),
    eq_iff (doc_of cid) d,
    of_doc-append d picked (cid ∷ []),
    capped-of_doc d fused picked per_doc counts h,
    capped-of_doc d fused (picked ++ (cid ∷ []))
        (put (doc_of cid) (tally (get (doc_of cid) per_doc) + 1) per_doc)
        (λ e. ground (
          arith,
          counts e,
          counts (doc_of cid),
          eq_iff (doc_of cid) e,
          of_doc-append e picked (cid ∷ []),
          get-put (doc_of cid) e (tally (get (doc_of cid) per_doc) + 1) per_doc,
        )),
  )

  -- what the first loop passes over is missing from what it picks
  capped-missing :
      (fused picked : List String) (per_doc : List (String × ℕ))
      → ((x : String) → occurrences x picked + occurrences x fused ≤ 1)
      → (capped k max_per_doc fused picked per_doc).1 ≡ false
      → let p = (capped k max_per_doc fused picked per_doc).0 in
        length p + missing p fused ≡ length picked + length fused
  unfolding capped missing occurrences
  capped-missing [] picked per_doc once h = omega arith
  capped-missing (cid ∷ fused) picked per_doc once h = ground (
    arith,
    once cid,
    eq_refl cid,
    is_picked-occurrences cid (capped k max_per_doc fused picked per_doc).0,
    is_picked-occurrences cid (capped k max_per_doc fused picked' per_doc').0,
    capped-occurrences cid fused picked per_doc,
    capped-occurrences cid fused picked' per_doc',
    occurrences-append cid picked (cid ∷ []),
    length-append picked (cid ∷ []),
    capped-missing fused picked per_doc (λ x. omega (arith, once x)),
    capped-missing fused picked' per_doc'
        (λ x. omega (arith, once x, occurrences-append x picked (cid ∷ []))),
  )
    where
      picked' : List String
      picked' = picked ++ (cid ∷ [])

      per_doc' : List (String × ℕ)
      per_doc' = put (doc_of cid) (tally (get (doc_of cid) per_doc) + 1) per_doc

missing-append :
    (cid : String) (picked fused : List String)
    → occurrences cid fused ≡ 0
    → missing (picked ++ (cid ∷ [])) fused ≡ missing picked fused
unfolding missing occurrences
missing-append cid picked [] h = refl
missing-append cid picked (y ∷ ys) h = ground (
  arith,
  eq_iff y cid,
  eq_iff cid y,
  is_picked-occurrences y picked,
  is_picked-occurrences y (picked ++ (cid ∷ [])),
  occurrences-append y picked (cid ∷ []),
  missing-append cid picked ys,
)

module _ (k : ℕ) where
  backfill-length :
      (fused picked : List String)
      → ((x : String) → occurrences x fused ≤ 1)
      → length picked ≤ k
      → length (backfill k fused picked) ≡ min k (length picked + missing picked fused)
  unfolding backfill missing occurrences
  backfill-length [] picked once h = omega arith
  backfill-length (cid ∷ fused) picked once h = ground (
    arith,
    once cid,
    eq_refl cid,
    length-append picked (cid ∷ []),
    missing-append cid picked fused,
    backfill-length fused picked (λ x. omega (arith, once x)),
    backfill-length fused (picked ++ (cid ∷ [])) (λ x. omega (arith, once x)),
  )

  backfill-occurrences :
      (x : String) (fused picked : List String)
      → occurrences x picked ≤ 1
      → (occurrences x picked ≤ occurrences x (backfill k fused picked))
        × (occurrences x (backfill k fused picked) ≤ 1)
        × (occurrences x (backfill k fused picked) ≤ occurrences x picked + occurrences x fused)
  unfolding backfill occurrences
  backfill-occurrences x [] picked h = omega arith
  backfill-occurrences x (cid ∷ fused) picked h = ground (
    arith,
    eq_iff cid x,
    is_picked-occurrences cid picked,
    is_picked-occurrences x picked,
    occurrences-append x picked (cid ∷ []),
    backfill-occurrences x fused picked,
    backfill-occurrences x fused (picked ++ (cid ∷ [])),
  )

module _ (k max_per_doc : ℕ) (fused : List String) where
  -- Of a ranking without repetitions, and for at least one passage wanted: as many are picked as
  -- are wanted, or all there are; none is picked twice; and none that the ranking does not hold.
  pub pick-fills :
      (x : String)
      → 0 < k
      → ((y : String) → occurrences y fused ≤ 1)
      → (length (pick k max_per_doc fused) ≡ min k (length fused))
        × (occurrences x (pick k max_per_doc fused) ≤ occurrences x fused)
  unfolding pick occurrences
  pick-fills x pos once = ground (
    arith,
    once x,
    capped-length k max_per_doc fused [] [] pos,
    capped-length-le k max_per_doc fused [] [],
    capped-occurrences k max_per_doc x fused [] [],
    capped-missing k max_per_doc fused [] [] (λ y. omega (arith, once y)),
    backfill-length k fused (capped k max_per_doc fused [] []).0 once,
    backfill-occurrences k x fused (capped k max_per_doc fused [] []).0,
  )

  -- While the capped passages alone fill the k places, no document has more of them than the cap.
  pub pick-capped :
      (d : String)
      → (capped k max_per_doc fused [] []).1 ≡ true
      → of_doc d (pick k max_per_doc fused) ≤ max_per_doc
  unfolding pick of_doc get
  pick-capped d h = ground (arith, capped-of_doc k max_per_doc d fused [] [] (λ e. refl))
