-- ===== src/Pipeline/Erase/Laws.antt =====
-- What erasing a document or a tenant (core/pipeline.py) takes away, and what it leaves.
use eu_rag.Base.{
  map-Member, Member-select, Member-map, map, not, ◌&&◌, ◌||◌, ℕ, ◌≡◌, ◌≢◌, ◌⊎◌, inl, inr, refl,
  sym, ap, subst, ◌∙◌, String, Bool, true, false, none, some, List, [], ◌∷◌, arith, ◌==◌, eq_iff,
  if◌then◌else◌, find, select, length, Member, is_some, some_inj, Bool-cases, select-Member,
}
use eu_rag.Base.Dict.{get}
use eu_rag.Sql.{row_count}
use eu_rag.Registry.{
  Registry, DocumentRow, public_tenant, is_document, tenant_of, delete_document, tenant_doc_ids,
  document_tenant, of_document,
}
use eu_rag.Registry.Erasure.{delete_document-forgets}
use eu_rag.Retrieval.Bm25.{FloatMath}
use eu_rag.Retrieval.Pick.{doc_of}
use eu_rag.Pipeline.{Pipeline}
use eu_rag.Pipeline.Erase.Entries.{get-remove_doc}
use eu_rag.Pipeline.Erase.{Forget, VectorSearch, erase_document, erase_documents, erase_tenant}

-- a document with its passages in the registry and in the live index
module _ {F V : Type 0} where
  abbrev pub IsGone : String → Pipeline F V → Type 0
  IsGone d p =
      (document_tenant p.registry d ≡ none)
      × (find (of_document d) p.registry.chunks ≡ none)
      × ((cid : String) → doc_of cid ≡ d → get cid p.bm25.doc_tokens ≡ none)

  -- gone from the registry
  abbrev pub IsUnlisted : String → Pipeline F V → Type 0
  IsUnlisted d p =
      (document_tenant p.registry d ≡ none) × (find (of_document d) p.registry.chunks ≡ none)

  abbrev pub IsKept : String → Pipeline F V → Pipeline F V → Type 0
  IsKept d p p' =
      (document_tenant p'.registry d ≡ document_tenant p.registry d)
      × (find (of_document d) p'.registry.chunks ≡ find (of_document d) p.registry.chunks)
      × ((cid : String) → doc_of cid ≡ d → get cid p'.bm25.doc_tokens ≡ get cid p.bm25.doc_tokens)

  IsKept-IsGone : (d : String) (p p' : Pipeline F V) → IsKept d p p' → IsGone d p → IsGone d p'
  IsKept-IsGone d p p' (tenant, chunks, entries) (no_tenant, no_chunks, no_entries) =
      (tenant ∙ no_tenant, chunks ∙ no_chunks, λ cid e. entries cid e ∙ no_entries cid e)

  IsKept-trans : (d : String) (p q r : Pipeline F V) → IsKept d p q → IsKept d q r → IsKept d p r
  IsKept-trans d p q r (tenant, chunks, entries) (tenant', chunks', entries') =
      (tenant' ∙ tenant, chunks' ∙ chunks, λ cid e. entries' cid e ∙ entries cid e)

module _ {F V : Type 0} (math : FloatMath F) (forget : Forget F V) where
  erase_document-registry :
      (doc_id : String) (p : Pipeline F V)
      → (erase_document math forget doc_id p).1.registry ≡ (delete_document doc_id p.registry).1
  unfolding erase_document
  erase_document-registry doc_id p = elim (Bool-cases (delete_document doc_id p.registry).0) [
    | inr missing ↦ rw missing refl
    | inl existed ↦ elim (Bool-cases (forget doc_id p.vector_search).0) [
      | inl returns ↦ rw (existed, returns) refl
      | inr raises ↦ rw (existed, raises) refl
    ]
  ]

  -- the entries go when the document existed and the store has forgotten it
  erase_document-doc_tokens :
      (doc_id cid : String) (p : Pipeline F V)
      → get cid (erase_document math forget doc_id p).1.bm25.doc_tokens ≡ (
          if (delete_document doc_id p.registry).0 && (forget doc_id p.vector_search).0
          then (if doc_of cid == doc_id then none else get cid p.bm25.doc_tokens)
          else get cid p.bm25.doc_tokens)
  unfolding erase_document
  erase_document-doc_tokens doc_id cid p = elim (Bool-cases (delete_document doc_id p.registry).0) [
    | inr missing ↦ rw missing refl
    | inl existed ↦ elim (Bool-cases (forget doc_id p.vector_search).0) [
      | inl returns ↦ rw (existed, returns) (get-remove_doc math doc_id cid p.bm25)
      | inr raises ↦ rw (existed, raises) refl
    ]
  ]

  -- it raises only for a document that existed, and leaves the live index as it was
  erase_document-raises :
      (doc_id : String) (p : Pipeline F V)
      → (is_some (erase_document math forget doc_id p).0
          ≡ (not (delete_document doc_id p.registry).0 || (forget doc_id p.vector_search).0))
        × (is_some (erase_document math forget doc_id p).0 ≡ false
            → (erase_document math forget doc_id p).1.bm25 ≡ p.bm25)
  unfolding erase_document
  erase_document-raises doc_id p = elim (Bool-cases (delete_document doc_id p.registry).0) [
    | inr missing ↦ rw missing (refl, λ e. refl)
    | inl existed ↦ elim (Bool-cases (forget doc_id p.vector_search).0) [
      | inl returns ↦ rw (existed, returns) (refl, λ e. cc)
      | inr raises ↦ rw (existed, raises) (refl, λ e. refl)
    ]
  ]

  pub erase_document-IsKept :
      (doc_id d : String) (p : Pipeline F V)
      → d ≢ doc_id
      → IsKept d p (erase_document math forget doc_id p).1
  erase_document-IsKept doc_id d p other =
      let (_, _, _, others) = delete_document-forgets doc_id p.registry d in
      let (tenant, _, chunks) = others other in
      let same = erase_document-registry doc_id p in
      (
        ap (λ reg. document_tenant reg d) same ∙ tenant,
        ap (λ (reg : Registry). find (of_document d) reg.chunks) same ∙ chunks,
        λ cid e.
            let apart : (doc_of cid == doc_id) ≡ false =
              ground (arith, eq_iff (doc_of cid) doc_id) in
            let entry = erase_document-doc_tokens doc_id cid p in ground arith,
      )

  -- the rows go first, whatever the store does
  pub erase_document-IsUnlisted :
      (doc_id : String) (p : Pipeline F V)
      → IsUnlisted doc_id (erase_document math forget doc_id p).1
  erase_document-IsUnlisted doc_id p =
      let (_, no_tenant, no_chunks, _) = delete_document-forgets doc_id p.registry doc_id in
      let same = erase_document-registry doc_id p in
      (
        ap (λ reg. document_tenant reg doc_id) same ∙ no_tenant,
        ap (λ (reg : Registry). find (of_document doc_id) reg.chunks) same ∙ no_chunks,
      )

  pub erase_document-IsGone :
      (doc_id : String) (p : Pipeline F V)
      → ((is_some (document_tenant p.registry doc_id) ≡ true)
          × (is_some (erase_document math forget doc_id p).0 ≡ true))
        ⊎ IsGone doc_id p
      → IsGone doc_id (erase_document math forget doc_id p).1
  erase_document-IsGone doc_id p there =
      let (deleted, _, _, _) = delete_document-forgets doc_id p.registry doc_id in
      let (no_tenant, no_chunks) = erase_document-IsUnlisted doc_id p in
      (
        no_tenant,
        no_chunks,
        λ cid e.
            let hit : (doc_of cid == doc_id) ≡ true = (eq_iff (doc_of cid) doc_id).1 e in
            let entry = erase_document-doc_tokens doc_id cid p in
            elim there [
              | inl (alive, ends) ↦
                  let existed = deleted ∙ alive in
                  let (returns, _) = erase_document-raises doc_id p in ground arith
              | inr gone ↦ let no_entry = gone.2 cid e in ground arith
            ],
      )

  -- an exception is one of the store
  pub erase_document-failed :
      (doc_id : String) (p : Pipeline F V)
      → is_some (erase_document math forget doc_id p).0 ≡ false
      → ((forget doc_id p.vector_search).0 ≡ false)
        × ((erase_document math forget doc_id p).1.bm25 ≡ p.bm25)
  erase_document-failed doc_id p e =
      let (returns, same) = erase_document-raises doc_id p in (ground arith, same e)

  erase_documents-failed :
      (doc_ids : List String) (p : Pipeline F V)
      → (erase_documents math forget doc_ids p).0 ≡ false
      → (d : String) × (v : VectorSearch F V) × Member d doc_ids × ((forget d v).0 ≡ false)
  unfolding erase_documents
  erase_documents-failed [] p e = cc
  erase_documents-failed (x ∷ doc_ids) p e =
      elim (Bool-cases (is_some (erase_document math forget x p).0)) [
        | inl ends ↦
            let (d, v, m, raises) =
              erase_documents-failed doc_ids (erase_document math forget x p).1 (rw ends at e) in
            (d, v, inr m, raises)
        | inr raised ↦
            let (raises, _) = erase_document-failed x p raised in
            (x, p.vector_search, inl refl, raises)
      ]

  -- what the loop does to one document, whether it comes to its end or not
  erase_documents_lem :
      (doc_ids : List String) (d : String) (p : Pipeline F V)
      → (IsGone d p → IsGone d (erase_documents math forget doc_ids p).1)
        × (Member d doc_ids
            → is_some (document_tenant p.registry d) ≡ true
            → (erase_documents math forget doc_ids p).0 ≡ true
            → IsGone d (erase_documents math forget doc_ids p).1)
        × ((Member d doc_ids → ⊥) → IsKept d p (erase_documents math forget doc_ids p).1)
        × (IsKept d p (erase_documents math forget doc_ids p).1
            ⊎ IsUnlisted d (erase_documents math forget doc_ids p).1)
  unfolding erase_documents
  erase_documents_lem [] d p = (
    λ h. h,
    λ m alive ends. absurd m,
    λ apart. (refl, refl, λ cid e. refl),
    inl (refl, refl, λ cid e. refl),
  )
  erase_documents_lem (x ∷ doc_ids) d p =
      let after = (erase_document math forget x p).1 in
      let (stays, goes, keeps, parts) = erase_documents_lem doc_ids d after in
      let erased = is_some (erase_document math forget x p).0 in
      elim (Bool-cases (d == x)) [
        | inl hit ↦
            let same : d ≡ x = (eq_iff d x).0 hit in
            let gone : (((is_some (document_tenant p.registry d) ≡ true)
                    × (is_some (erase_document math forget d p).0 ≡ true))
                  ⊎ IsGone d p)
                → IsGone d after =
              subst
                (λ y.
                  (((is_some (document_tenant p.registry d) ≡ true)
                      × (is_some (erase_document math forget d p).0 ≡ true))
                    ⊎ IsGone d p)
                  → IsGone d (erase_document math forget y p).1)
                same (erase_document-IsGone d p) in
            let unlisted : IsUnlisted d after =
              subst (λ y. IsUnlisted d (erase_document math forget y p).1) same
                (erase_document-IsUnlisted d p) in
            elim (Bool-cases erased) [
              | inl ends ↦
                  let ends_d : is_some (erase_document math forget d p).0 ≡ true =
                    ap (λ y. is_some (erase_document math forget y p).0) same ∙ ends in
                  rw ends (
                    λ h. stays (gone (inr h)),
                    λ m alive all. stays (gone (inl (alive, ends_d))),
                    λ apart. absurd (apart (inl same)),
                    inr (elim parts [
                      | inl kept ↦ (kept.0 ∙ unlisted.0, kept.1 ∙ unlisted.1)
                      | inr out ↦ out
                    ]),
                  )
              | inr raises ↦ rw raises (
                λ h. gone (inr h),
                λ m alive all. cc,
                λ apart. absurd (apart (inl same)),
                inr unlisted,
              )
            ]
        | inr miss ↦
            let kept : IsKept d p after =
              erase_document-IsKept x d p (λ e. ground (arith, eq_iff d x)) in
            elim (Bool-cases erased) [
              | inl ends ↦ rw ends (
                λ h. stays (IsKept-IsGone d p after kept h),
                λ m alive all. elim m [
                  | inl e ↦ ground (arith, eq_iff d x)
                  | inr m ↦ goes m (ap is_some kept.0 ∙ alive) all
                ],
                λ apart.
                    IsKept-trans d p after (erase_documents math forget doc_ids after).1 kept
                      (keeps (λ m. apart (inr m))),
                elim parts [
                  | inl later ↦ inl (
                      IsKept-trans d p after (erase_documents math forget doc_ids after).1 kept
                        later)
                  | inr out ↦ inr out
                ],
              )
              | inr raises ↦
                  rw raises (
                    λ h. IsKept-IsGone d p after kept h,
                    λ m alive all. cc,
                    λ apart. kept,
                    inl kept,
                  )
            ]
      ]

find-some :
    (d : String) (rows : List DocumentRow) (r : DocumentRow)
    → Member r rows
    → r.doc_id ≡ d
    → is_some (tenant_of (find (is_document d) rows)) ≡ true
find-some d (x ∷ rows) r (inl e) same =
    let id = ap (λ (r : DocumentRow). r.doc_id) e in ground (arith, eq_iff x.doc_id d)
find-some d (x ∷ rows) r (inr m) same = ground (arith, find-some d rows r m same)
find-some d [] r m same = absurd m

tenant_doc_ids_alive :
    (reg : Registry) (tenant d : String)
    → Member d (tenant_doc_ids reg tenant)
    → is_some (document_tenant reg d) ≡ true
unfolding tenant_doc_ids document_tenant
tenant_doc_ids_alive reg tenant d m =
    let q : DocumentRow → Bool = λ r. r.tenant == tenant in
    let (r, there, same) =
      map-Member (λ (r : DocumentRow). r.doc_id) d (select q reg.documents) m in
    let (row, _) = select-Member q r reg.documents there in find-some d reg.documents r row same

-- a document of a tenant, by the rows of the registry
abbrev pub IsOf : {F V : Type 0} → String → String → Pipeline F V → Type 0
IsOf tenant d p =
    (r : DocumentRow) × Member r p.registry.documents × (r.doc_id ≡ d) × (r.tenant ≡ tenant)

IsOf-Member :
    {F V : Type 0} (tenant d : String) (p : Pipeline F V)
    → IsOf tenant d p
    → Member d (tenant_doc_ids p.registry tenant)
unfolding tenant_doc_ids
IsOf-Member tenant d p (r, there, same, own) =
    let q : DocumentRow → Bool = λ r. r.tenant == tenant in
    subst (λ x. Member x (tenant_doc_ids p.registry tenant)) same
      (Member-map (λ (r : DocumentRow). r.doc_id) r (select q p.registry.documents)
        (Member-select q r p.registry.documents there ((eq_iff r.tenant tenant).1 own)))

Member-IsOf :
    {F V : Type 0} (tenant d : String) (p : Pipeline F V)
    → Member d (tenant_doc_ids p.registry tenant)
    → IsOf tenant d p
unfolding tenant_doc_ids
Member-IsOf tenant d p m =
    let q : DocumentRow → Bool = λ r. r.tenant == tenant in
    let (r, there, same) =
      map-Member (λ (r : DocumentRow). r.doc_id) d (select q p.registry.documents) m in
    let (row, own) = select-Member q r p.registry.documents there in
    (r, row, same, (eq_iff r.tenant tenant).0 own)

length-select :
    {R S : Type 0} (q : R → Bool) (f : R → S) (rows : List R)
    → length (map f (select q rows)) ≡ row_count q rows
length-select q f [] = refl
length-select q f (r ∷ rows) = ground (arith, length-select q f rows)

module _ {F V : Type 0} (math : FloatMath F) (forget : Forget F V) where
  -- a tenant other than the public one
  module _ (tenant : String) (p : Pipeline F V) (own : (tenant == public_tenant) ≡ false) where
    pub erase_tenant-IsKept :
        (d : String) → (IsOf tenant d p → ⊥) → IsKept d p (erase_tenant math forget tenant p).1
    unfolding erase_tenant
    erase_tenant-IsKept d apart =
        let (_, _, keeps, _) =
          erase_documents_lem math forget (tenant_doc_ids p.registry tenant) d p in
        rw own (keeps (λ m. apart (Member-IsOf tenant d p m)))

    -- each document of the tenant is gone, and counted
    pub erase_tenant-IsGone :
        (n : ℕ)
        → (erase_tenant math forget tenant p).0 ≡ some n
        → (n ≡ row_count (λ r. r.tenant == tenant) p.registry.documents)
          × ((d : String) → IsOf tenant d p → IsGone d (erase_tenant math forget tenant p).1)
    unfolding erase_tenant tenant_doc_ids
    erase_tenant-IsGone n e =
        let doc_ids = tenant_doc_ids p.registry tenant in
        let counted =
          length-select (λ (r : DocumentRow). r.tenant == tenant) (λ r. r.doc_id)
            p.registry.documents in
        elim (Bool-cases (erase_documents math forget doc_ids p).0) [
          | inr raises ↦ let e' = rw (own, raises) at e in cc
          | inl ends ↦
              let e' = rw (own, ends) at e in
              rw own (
                sym (some_inj e') ∙ counted,
                λ d of.
                    let m = IsOf-Member tenant d p of in
                    let (_, goes, _, _) = erase_documents_lem math forget doc_ids d p in
                    goes m (tenant_doc_ids_alive p.registry tenant d m) ends,
              )
        ]

    -- it raises only where the store does, when it is to forget a document of the tenant
    pub erase_tenant-failed :
        (erase_tenant math forget tenant p).0 ≡ none
        → (d : String) × (v : VectorSearch F V) × IsOf tenant d p × ((forget d v).0 ≡ false)
    unfolding erase_tenant
    erase_tenant-failed e =
        let doc_ids = tenant_doc_ids p.registry tenant in
        elim (Bool-cases (erase_documents math forget doc_ids p).0) [
          | inl ends ↦ let e' = rw (own, ends) at e in cc
          | inr raises ↦
              let (d, v, m, raised) = erase_documents-failed math forget doc_ids p raises in
              (d, v, Member-IsOf tenant d p m, raised)
        ]

    -- where it raises, a part of them is: each is kept or gone from the registry
    pub erase_tenant-parts :
        (d : String)
        → IsKept d p (erase_tenant math forget tenant p).1
          ⊎ IsUnlisted d (erase_tenant math forget tenant p).1
    unfolding erase_tenant
    erase_tenant-parts d =
        let (_, _, _, parts) =
          erase_documents_lem math forget (tenant_doc_ids p.registry tenant) d p in
        rw own parts
