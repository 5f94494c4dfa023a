-- ===== src/Retrieval/Pick.antt =====
-- The end of `HybridRetriever.retrieve_scored`: the choice of k passages, with a cap for each
-- document and a backfill past it.
pub mod Laws
pub mod Ids
use Prim.Native.Char.{Char, code}
use Prim.Native.String
use eu_rag.Base.{
  ℕ, suc, ◌+◌, ◌≤◌, ◌<◌, min, String, ◌≡◌, ◌⊎◌, inl, inr, refl, Bool, true, false, ◌||◌, Option,
  none, some, List, [], ◌∷◌, ◌++◌, arith, leb, ltb, eqb, ◌==◌, eq_iff, if◌then◌else◌, length, any,
  Member, Bool-cases, select,
}
use eu_rag.Base.Dict.{get, put, get-put}

front : Char → Option String → Option String
front c (some p) = some (String.◌∷◌ c p)
front c none = if eqb (code c) b':' then some "" else none

-- what stands before the last colon, if there is one
before_colon : String → Option String
unfolding front
before_colon String.[] = none
before_colon (String.◌∷◌ c s) = front c (before_colon s)

or_whole : String → Option String → String
or_whole s none = s
or_whole s (some p) = p

-- cid.rsplit(":", 1)[0]
unfoldable pub doc_of : String → String
unfolding before_colon or_whole
doc_of cid = or_whole cid (before_colon cid)

-- per_doc.get(doc_id, 0)
abbrev pub tally : Option ℕ → ℕ
tally none = 0
tally (some n) = n

-- The first loop: the passages picked, and whether there are k of them.
unfoldable pub capped : ℕ → ℕ → List String → List String → List (String × ℕ) → List String × Bool
capped k max_per_doc [] picked per_doc = (picked, false)
capped k max_per_doc (cid ∷ fused) picked per_doc =
    let doc_id = doc_of cid in
    let n = tally (get doc_id per_doc) in
    let skip = capped k max_per_doc fused picked per_doc in
    let picked' = picked ++ (cid ∷ []) in
    let go_on = capped k max_per_doc fused picked' (put doc_id (n + 1) per_doc) in
    if leb max_per_doc n then skip else (if eqb (length picked') k then (picked', true) else go_on)

-- cid in picked
abbrev pub is_picked : String → List String → Bool
is_picked cid picked = any (λ x. x == cid) picked

-- The second loop.
unfoldable pub backfill : ℕ → List String → List String → List String
backfill k [] picked = picked
backfill k (cid ∷ fused) picked =
    let go_on = backfill k fused (if is_picked cid picked then picked else picked ++ (cid ∷ [])) in
    if eqb (length picked) k then picked else go_on

unfoldable pub pick : ℕ → ℕ → List String → List String
unfolding capped backfill
pick k max_per_doc fused =
    let (picked, full) = capped k max_per_doc fused [] [] in
    if full then picked else backfill k fused picked
