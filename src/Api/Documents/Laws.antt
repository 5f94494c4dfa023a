-- ===== src/Api/Documents/Laws.antt =====
-- Who may take a document away, by api/routes/documents.py.
use eu_rag.Base.{
  ℕ, ◌≡◌, ◌≢◌, ◌⊎◌, inl, inr, refl, sym, ap, subst, String, Bool, true, false, not, ◌&&◌, Option,
  none, some, eq_iff, arith, Bool-cases, is_some,
}
use eu_rag.Registry.{document_tenant}
use eu_rag.Retrieval.Bm25.{FloatMath}
use eu_rag.Auth.{Principal, is_admin}
use eu_rag.Pipeline.Erase.{Forget, erase_document}
use eu_rag.Pipeline.Erase.Laws.{
  IsGone, IsKept, IsUnlisted, erase_document-IsGone, erase_document-IsKept,
  erase_document-IsUnlisted, erase_document-failed,
}
use eu_rag.Api.{App, Reply, response, http_error, llm_error, server_error}
use eu_rag.Api.Documents.{Site, audited, may_erase, removed, erase_owned, erase_document_route}

module _ {F V J : Type 0} (app : App F V) where
  pub audited-pipeline :
      (now : ℕ) (actor action resource detail : String) (s : Site F V J)
      → (audited app now actor action resource detail s).pipeline ≡ s.pipeline
  unfolding audited
  audited-pipeline now actor action resource detail s = ground arith

module _ {F V J : Type 0} (app : App F V) (math : FloatMath F) (forget : Forget F V)
    (doc_id : String) (p : Principal) (s : Site F V J) where
  -- accounts are off, or the principal is an administrator or of the document's tenant
  abbrev pub IsAllowed : String → Type 0
  IsAllowed owner = (app.auth_enabled ≡ false) ⊎ ((is_admin p ≡ true) ⊎ (owner ≡ p.tenant))

  abbrev pub IsErased : Reply String → Site F V J → Type 0
  IsErased (response d) s' =
      (owner : String) × (d ≡ doc_id)
      × (document_tenant s.pipeline.registry doc_id ≡ some owner)
      × IsAllowed owner
      × IsGone doc_id s'.pipeline
      × ((x : String) → x ≢ doc_id → IsKept x s.pipeline s'.pipeline)
  IsErased (http_error status code) s' =
      (s' ≡ s)
      × (((status ≡ 404) × (document_tenant s.pipeline.registry doc_id ≡ none))
          ⊎ ((status ≡ 403)
              × (owner : String) × (document_tenant s.pipeline.registry doc_id ≡ some owner)
              × (IsAllowed owner → ⊥)))
  IsErased (llm_error k) s' = ⊥
  IsErased server_error s' =
      (owner : String) × (document_tenant s.pipeline.registry doc_id ≡ some owner)
      × IsAllowed owner
      × ((forget doc_id s.pipeline.vector_search).0 ≡ false)
      × IsUnlisted doc_id s'.pipeline
      × (s'.pipeline.bm25 ≡ s.pipeline.bm25)
      × ((x : String) → x ≢ doc_id → IsKept x s.pipeline s'.pipeline)
      × (s'.auth ≡ s.auth)
      × (s'.conversations ≡ s.conversations)

  allowed :
      (owner : String) → (app.auth_enabled && not (may_erase p owner)) ≡ false → IsAllowed owner
  allowed owner e = elim (Bool-cases app.auth_enabled) [
    | inl on ↦ elim (Bool-cases (is_admin p)) [
      | inl admin ↦ inr (inl admin)
      | inr user ↦ inr (inr (ground (arith, eq_iff owner p.tenant)))
    ]
    | inr off ↦ inl off
  ]

  forbidden :
      (owner : String) → (app.auth_enabled && not (may_erase p owner)) ≡ true → IsAllowed owner → ⊥
  forbidden owner e (inl off) = ground arith
  forbidden owner e (inr (inl admin)) = ground arith
  forbidden owner e (inr (inr own)) = ground (arith, eq_iff owner p.tenant)

  removed-IsErased :
      (now : ℕ) (owner : String)
      → document_tenant s.pipeline.registry doc_id ≡ some owner
      → IsAllowed owner
      → (o : Option Bool) → (erase_document math forget doc_id s.pipeline).0 ≡ o
      → let q = (erase_document math forget doc_id s.pipeline).1 in
        let (r, s') = removed app math forget now doc_id p owner (o, q) s in IsErased r s'
  unfolding removed
  removed-IsErased now owner e may none raised =
      let (raises, same) =
        erase_document-failed math forget doc_id s.pipeline (ap is_some raised) in
      (
        owner,
        e,
        may,
        raises,
        erase_document-IsUnlisted math forget doc_id s.pipeline,
        same,
        λ x other. erase_document-IsKept math forget doc_id x s.pipeline other,
        refl,
        refl,
      )
  removed-IsErased now owner e may (some existed) ends =
      let same =
        audited-pipeline app now p.username "document.erase" doc_id owner
          (record s { pipeline = (erase_document math forget doc_id s.pipeline).1 }) in
      (
        owner,
        refl,
        e,
        may,
        subst (IsGone doc_id) (sym same) (
            erase_document-IsGone math forget doc_id s.pipeline
              (inl (ap is_some e, ap is_some ends))),
        λ x other.
            subst (IsKept x s.pipeline) (sym same)
              (erase_document-IsKept math forget doc_id x s.pipeline other),
      )

  erase_owned-IsErased :
      (now : ℕ) (o : Option String)
      → document_tenant s.pipeline.registry doc_id ≡ o
      → let (r, s') = erase_owned app math forget now doc_id p o s in IsErased r s'
  unfolding erase_owned
  erase_owned-IsErased now none e = (refl, inl (refl, e))
  erase_owned-IsErased now (some owner) e =
      elim (Bool-cases (app.auth_enabled && not (may_erase p owner))) [
        | inl refused ↦ rw refused (refl, inr (refl, owner, e, forbidden owner refused))
        | inr granted ↦ rw granted (removed-IsErased now owner e (allowed owner granted) _ refl)
      ]

  -- The route that erases a document answers only an administrator, a principal of the document's
  -- tenant, or anyone where accounts are off: then the document is gone from the registry and from
  -- the live index, and every other document is kept. For nobody else is anything changed, and the
  -- reply is 404 for a document that is not there and 403 for one that is another tenant's. It ends
  -- in an exception only where the vector store raises: then the document is gone from the registry,
  -- the live index is as it was, nothing is logged and every other document is kept.
  pub erase_document_route-IsErased :
      (now : ℕ) → let (r, s') = erase_document_route app math forget now doc_id p s in IsErased r s'
  unfolding erase_document_route
  erase_document_route-IsErased now =
      erase_owned-IsErased now (document_tenant s.pipeline.registry doc_id) refl
