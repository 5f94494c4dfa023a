-- ===== src/Api/Documents/Uploads.antt =====
-- What an upload does to the documents, by api/routes/ingest.py.
use eu_rag.Base.{
  ℕ, ◌≡◌, ◌≢◌, ◌⊎◌, inl, inr, refl, sym, ap, eqb, subst, ◌∙◌, String, some, arith, find,
  if◌then◌else◌,
}
use eu_rag.Base.Dict.{get}
use eu_rag.Base.Text.{◌<>◌, take, strip}
use eu_rag.Chunk.{Document}
use eu_rag.Registry.{Registry, document_tenant, document_hash, of_document}
use eu_rag.Registry.Keys.{IsKeyed}
use eu_rag.Retrieval.Bm25.{Index}
use eu_rag.Ingestion.Loader.{Loaded, loaded, provenance_error, Source, make_document}
use eu_rag.Auth.{Principal}
use eu_rag.Pipeline.{Pipeline}
use eu_rag.Pipeline.Erase.Laws.{IsKept}
use eu_rag.Pipeline.Ingest.{Ingestor, ingest, Ingested, ingested, rejected, failed}
use eu_rag.Pipeline.Ingest.Laws.{Ends, ingest-Ends}
use eu_rag.Api.{App, Reply, response, http_error, llm_error, server_error}
use eu_rag.Api.Deps.{ingest_tenant}
use eu_rag.Api.Documents.Laws.{audited-pipeline}
use eu_rag.Api.Documents.{Site, Uploaded, answered, ingest_loaded, ingest_route}

ingest_tenant_lem :
    {F V : Type 0} (app : App F V) (p : Principal)
    → ingest_tenant app p ≡ (if app.auth_enabled then p.tenant else "public")
unfolding ingest_tenant
ingest_tenant_lem app p = refl

module _ {F V : Type 0} (app : App F V) (g : Ingestor F V) (p : Principal) (before : Pipeline F V)
    (doc_id text : String) where
  -- the other documents are kept, and so is the invariant of the registry
  abbrev pub LeavesOthers : Pipeline F V → Type 0
  LeavesOthers after = IsKeyed after.registry × ((d : String) → d ≢ doc_id → IsKept d before after)

  abbrev pub IsUploaded : Reply Uploaded → Pipeline F V → Type 0
  IsUploaded (response u) after =
      (u.doc_id ≡ doc_id)
      × (document_hash after.registry doc_id ≡ some (g.sha256 text))
      × (((u.chunks ≡ 0) × (after ≡ before))
          ⊎ (document_tenant after.registry doc_id
              ≡ some (if app.auth_enabled then p.tenant else "public")))
  IsUploaded (http_error status code) after = (status ≡ 422) × (after ≡ before)
  IsUploaded (llm_error k) after = ⊥
  IsUploaded server_error after = (after.registry ≡ before.registry) × (after.bm25 ≡ before.bm25)

  abbrev pub EndsWell : Reply Uploaded → Pipeline F V → Type 0
  EndsWell reply after = IsUploaded reply after × LeavesOthers after

  LeavesOthers-refl : IsKeyed before.registry → LeavesOthers before
  LeavesOthers-refl keyed = (keyed, λ d other. (refl, refl, λ cid e. refl))

module _ {F V J : Type 0} (app : App F V) (g : Ingestor F V) (p : Principal) (s : Site F V J) where
  -- what `ingest` ends in, as the route answers it
  answered-EndsWell :
      (doc : Document) (now : ℕ) (r : Ingested) (q : Pipeline F V)
      → IsKeyed s.pipeline.registry
      → IsKeyed q.registry
      → Ends g doc (ingest_tenant app p) s.pipeline r q
      → let (reply, s') = answered app now p doc (ingest_tenant app p) (r, q) s in
        EndsWell app g p s.pipeline doc.doc_id doc.text reply s'.pipeline
  unfolding answered
  answered-EndsWell doc now (rejected findings) q keyed keyed' e =
      subst (EndsWell app g p s.pipeline doc.doc_id doc.text (http_error 422 ""))
        (sym e
          ∙ sym (
              audited-pipeline app now p.username "ingest.pii_rejected" doc.doc_id ""
                (record s { pipeline = q })))
        ((refl, refl), LeavesOthers-refl app g p s.pipeline doc.doc_id doc.text keyed)
  answered-EndsWell doc now failed q keyed keyed' (registry, bm25) = (
    (registry, bm25),
    (
      keyed',
      λ d other. (
        ap (λ x. document_tenant x d) registry,
        ap (λ (x : Registry). find (of_document d) x.chunks) registry,
        λ cid e. ap (λ (x : Index F). get cid x.doc_tokens) bm25,
      ),
    ),
  )
  answered-EndsWell doc now (ingested n) q keyed keyed' (inl (none_new, same, there)) =
      subst
        (EndsWell app g p s.pipeline doc.doc_id doc.text
          (response (record { doc_id = doc.doc_id; chunks = n; skipped = eqb n 0 })))
        (sym same
          ∙ sym (
              audited-pipeline app now p.username "ingest" doc.doc_id (ingest_tenant app p)
                (record s { pipeline = q })))
        (
          (refl, there, inl (none_new, refl)),
          LeavesOthers-refl app g p s.pipeline doc.doc_id doc.text keyed,
        )
  answered-EndsWell doc now (ingested n) q keyed keyed' (inr (all_new, written)) =
      let (hash, tenant, rows, goes, keeps, others) = written in
      subst
        (EndsWell app g p s.pipeline doc.doc_id doc.text
          (response (record { doc_id = doc.doc_id; chunks = n; skipped = eqb n 0 })))
        (sym (
          audited-pipeline app now p.username "ingest" doc.doc_id (ingest_tenant app p)
            (record s { pipeline = q })))
        ((refl, hash, inr (tenant ∙ ap some (ingest_tenant_lem app p))), (keyed', others))

  ingest_loaded-EndsWell :
      (now : ℕ) (l : Loaded) (doc_id text : String)
      → IsKeyed s.pipeline.registry
      → ((doc : Document) → l ≡ loaded doc → (doc.doc_id ≡ doc_id) × (doc.text ≡ text))
      → let (reply, s') = ingest_loaded app g now p l s in
        EndsWell app g p s.pipeline doc_id text reply s'.pipeline
  unfolding ingest_loaded
  ingest_loaded-EndsWell now (provenance_error m) doc_id text keyed same =
      ((refl, refl), LeavesOthers-refl app g p s.pipeline doc_id text keyed)
  ingest_loaded-EndsWell now (loaded doc) doc_id text keyed same =
      let tenant = ingest_tenant app p in
      let (keyed', ends) = ingest-Ends g doc tenant s.pipeline keyed in
      let (r, q) = ingest g doc tenant s.pipeline in
      let (same_id, same_text) = same doc refl in
      let (reply, s') = answered app now p doc tenant (ingest g doc tenant s.pipeline) s in
      subst (λ x. EndsWell app g p s.pipeline doc_id x reply s'.pipeline) same_text
        (subst (λ x. EndsWell app g p s.pipeline x doc.text reply s'.pipeline) same_id
          (answered-EndsWell doc now r q keyed keyed' ends))

  make_document-loaded :
      (date : String) (body : Source) (doc : Document)
      → make_document g.letters.unicode g.sha256 date body ≡ loaded doc
      → (doc.doc_id
          ≡ take 16 (g.sha256 (body.source_url <> "|" <> strip g.letters.unicode body.title)))
        × (doc.text ≡ strip g.letters.unicode body.text)
  unfolding make_document
  make_document-loaded date body doc e = (ground arith, ground arith)

  -- Of an upload to a registry whose rows have their documents' ids, which stays so. The document's
  -- id is that of its source and its title. Every other document is kept. A response has this id,
  -- and afterwards the document has the text's hash: either nothing has changed, and no passage is
  -- counted, or the document is in the tenant of the account that uploads it (in the public one where
  -- there are no accounts), whoever had it before. A refusal is a 422
  -- and changes nothing of the pipeline, and an exception leaves the registry and the live index.
  pub ingest_route-EndsWell :
      (now : ℕ) (date : String) (body : Source)
      → IsKeyed s.pipeline.registry
      → let (reply, s') = ingest_route app g now date body p s in
        EndsWell app g p s.pipeline
          (take 16 (g.sha256 (body.source_url <> "|" <> strip g.letters.unicode body.title)))
          (strip g.letters.unicode body.text)
          reply
          s'.pipeline
  unfolding ingest_route
  ingest_route-EndsWell now date body keyed =
      ingest_loaded-EndsWell now (make_document g.letters.unicode g.sha256 date body) _ _ keyed
        (make_document-loaded date body)
