-- ===== src/Pipeline/Erase/Entries.antt =====
-- The entries of the live index when `erase_document` of core/pipeline.py removes the passages of a
-- document.
use eu_rag.Base.{
  Member-select, ℕ, ◌≡◌, inl, inr, refl, sym, ap, ◌∙◌, String, Bool, Option, none, some, List, [],
  ◌∷◌, arith, ◌==◌, eq_iff, if◌then◌else◌, select, map, Member, Bool-cases, Option-cases,
  select-Member,
}
use eu_rag.Base.Dict.{get, get-Member}
use eu_rag.Retrieval.Bm25.{FloatMath, Index, remove_chunk, ids}
use eu_rag.Retrieval.Bm25.Erasure.{get-remove_chunk}
use eu_rag.Retrieval.Pick.{doc_of}
use eu_rag.Pipeline.Erase.{remove_ids}

get-Member_key :
    {V : Type 0} (k : String) (v : V) (d : List (String × V))
    → get k d ≡ some v
    → Member k (map (λ (e : String × V). e.0) d)
get-Member_key {V} k v d e = go d (get-Member k v d e)
  where
    go : (d : List (String × V)) → Member (k, v) d → Member k (map (λ (e : String × V). e.0) d)
    go (x ∷ d) (inl e) = inl (ap (λ (x : String × V). x.0) e)
    go (x ∷ d) (inr m) = inr (go d m)
    go [] m = absurd m

module _ {F : Type 0} (math : FloatMath F) where
  get-remove_ids :
      (cids : List String) (cid : String) (index : Index F)
      → (get cid index.doc_tokens ≡ none → get cid (remove_ids math cids index).doc_tokens ≡ none)
        × (Member cid cids → get cid (remove_ids math cids index).doc_tokens ≡ none)
        × ((Member cid cids → ⊥)
            → get cid (remove_ids math cids index).doc_tokens ≡ get cid index.doc_tokens)
  unfolding remove_ids
  get-remove_ids [] cid index = (λ h. h, λ m. absurd m, λ apart. refl)
  get-remove_ids (x ∷ cids) cid index =
      let (stays, goes, keeps) = get-remove_ids cids cid (remove_chunk math x index) in
      let step = get-remove_chunk math x cid index in
      let entry : Bool → Option (List (String × ℕ)) =
        λ b. if b then none else get cid index.doc_tokens in
      elim (Bool-cases (x == cid)) [
        | inl same ↦
            let gone = step ∙ ap entry same in
            (
              λ h. stays gone,
              λ m. stays gone,
              λ apart. absurd (apart (inl (sym ((eq_iff x cid).0 same)))),
            )
        | inr other ↦
            let kept = step ∙ ap entry other in
            (
              λ h. stays (kept ∙ h),
              λ m. elim m [ inl e ↦ ground (arith, eq_iff x cid) | inr m ↦ goes m ],
              λ apart. keeps (λ m. apart (inr m)) ∙ kept,
            )
      ]

  -- the passages of a document, as `rsplit` reads their ids, and no other
  pub get-remove_doc :
      (doc_id cid : String) (index : Index F)
      → get cid
          (remove_ids math (select (λ c. doc_of c == doc_id) (ids math index)) index).doc_tokens
        ≡ (if doc_of cid == doc_id then none else get cid index.doc_tokens)
  get-remove_doc doc_id cid index =
      let q : String → Bool = λ c. doc_of c == doc_id in
      let (stays, goes, keeps) = get-remove_ids (select q (ids math index)) cid index in
      elim (Bool-cases (q cid)) [
        | inl same ↦ rw same (elim (Option-cases (get cid index.doc_tokens)) [
          | inl missing ↦ stays missing
          | inr (tokens, there) ↦ goes (
              Member-select q cid (ids math index)
                (get-Member_key cid tokens index.doc_tokens there) same)
        ])
        | inr other ↦
            rw other (keeps (λ m. let (_, is_q) = select-Member q cid (ids math index) m in cc))
      ]
