-- ===== src/Api/Documents.antt =====
-- api/routes/ingest.py, documents.py and admin.py: what an upload, the erasure of a document and the
-- erasure of a tenant do to the pipeline, the audit log and the chats. A request has got its
-- principal from api/deps.py.
pub mod Laws
pub mod Uploads
pub mod Tenants
use eu_rag.Base.{
  ℕ, String, Bool, true, false, not, ◌&&◌, ◌||◌, ◌==◌, eqb, Option, none, some, List, if◌then◌else◌,
}
use eu_rag.Base.Text.{◌<>◌, decimal}
use eu_rag.Registry.{public_tenant, document_tenant}
use eu_rag.Registry.Listing.{Listed, list_documents}
use eu_rag.Retrieval.Bm25.{FloatMath}
use eu_rag.Ingestion.Loader.{Loaded, loaded, provenance_error, Source, make_document}
use eu_rag.Chunk.{Document}
use eu_rag.Security.Pii.{Finding, rejection}
use eu_rag.Auth.{Principal, AuditRow, AuthStore, is_admin}
use eu_rag.Auth
use eu_rag.Base.Int.{ℤ}
use eu_rag.Auth.Log.{capped, audit_entries}
use eu_rag.Chats.{ChatStore, erase_chats}
use eu_rag.Pipeline.{Pipeline}
use eu_rag.Pipeline.Erase
use eu_rag.Pipeline.Erase.{Forget}
use eu_rag.Pipeline.Ingest
use eu_rag.Pipeline.Ingest.{Ingestor, Ingested, ingested, rejected, failed}
use eu_rag.Api.{App, Reply, response, http_error, llm_error, server_error}
use eu_rag.Api.Deps.{allowed_tenants, ingest_tenant, require_admin}

-- the parts of `app.state` that these routes use; `auth` only where it is enabled
pub record Site (F V J : Type 0) : Type 0 where
  pub pipeline : Pipeline F V
  pub auth : AuthStore
  pub conversations : Option (ChatStore J)

pub record Uploaded : Type 0 where
  pub doc_id : String
  pub chunks : ℕ
  pub skipped : Bool

pub record TenantErased : Type 0 where
  pub documents_erased : ℕ
  pub conversations_erased : ℕ

-- principal.is_admin or owner == principal.tenant
abbrev pub may_erase : Principal → String → Bool
may_erase p owner = is_admin p || owner == p.tenant

erase_chats_of : {J : Type 0} → String → Option (ChatStore J) → ℕ × Option (ChatStore J)
erase_chats_of tenant none = (0, none)
erase_chats_of tenant (some chats) =
    let (count, kept) = erase_chats tenant chats in (count, some kept)

module _ {F V J : Type 0} (app : App F V) where
  -- `if auth_enabled: auth.audit(…)`
  unfoldable pub audited : ℕ → String → String → String → String → Site F V J → Site F V J
  audited now actor action resource detail s =
      if app.auth_enabled
      then record s { auth = Auth.audit now actor action resource detail s.auth }
      else s

  answered :
      ℕ
      → Principal
      → Document
      → String
      → Ingested × Pipeline F V
      → Site F V J
      → Reply Uploaded × Site F V J
  unfolding audited
  answered now p doc tenant (ingested n, pipeline) s = (
    response (record { doc_id = doc.doc_id; chunks = n; skipped = eqb n 0 }),
    audited now p.username "ingest" doc.doc_id tenant (record s { pipeline = pipeline }),
  )
  answered now p doc tenant (rejected findings, pipeline) s = (
    http_error 422 (rejection findings),
    audited now p.username "ingest.pii_rejected" doc.doc_id "" (record s { pipeline = pipeline }),
  )
  answered now p doc tenant (failed, pipeline) s = (server_error, record s { pipeline = pipeline })

  ingest_loaded : Ingestor F V → ℕ → Principal → Loaded → Site F V J → Reply Uploaded × Site F V J
  unfolding answered
  ingest_loaded g now p (provenance_error m) s = (http_error 422 m, s)
  ingest_loaded g now p (loaded doc) s =
      let tenant = ingest_tenant app p in
      answered now p doc tenant (Ingest.ingest g doc tenant s.pipeline) s

  -- `date` is the time in ISO format
  unfoldable pub ingest_route :
      Ingestor F V → ℕ → String → Source → Principal → Site F V J → Reply Uploaded × Site F V J
  unfolding ingest_loaded
  ingest_route g now date body p s =
      ingest_loaded g now p (make_document g.letters.unicode g.sha256 date body) s

  unfoldable pub list_route : Principal → Site F V J → List Listed
  list_route p s = list_documents s.pipeline.registry (allowed_tenants app p)

module _ {F V J : Type 0} (app : App F V) (math : FloatMath F) (forget : Forget F V) where
  -- an exception of the vector store is a 500, and nothing is logged
  removed :
      ℕ
      → String
      → Principal
      → String
      → Option Bool × Pipeline F V
      → Site F V J
      → Reply String × Site F V J
  unfolding audited
  removed now doc_id p owner (none, pipeline) s = (server_error, record s { pipeline = pipeline })
  removed now doc_id p owner (some existed, pipeline) s = (
    response doc_id,
    audited app now p.username "document.erase" doc_id owner (record s { pipeline = pipeline }),
  )

  erase_owned : ℕ → String → Principal → Option String → Site F V J → Reply String × Site F V J
  unfolding removed
  erase_owned now doc_id p none s = (http_error 404 "document not found", s)
  erase_owned now doc_id p (some owner) s =
      if app.auth_enabled && not (may_erase p owner)
      then (http_error 403 "not your document", s)
      else removed now doc_id p owner (Erase.erase_document math forget doc_id s.pipeline) s

  unfoldable pub erase_document_route :
      ℕ → String → Principal → Site F V J → Reply String × Site F V J
  unfolding erase_owned
  erase_document_route now doc_id p s =
      erase_owned now doc_id p (document_tenant s.pipeline.registry doc_id) s

  -- the ValueError of `erase_tenant` is not reached, and any other exception is a 500
  erased :
      ℕ
      → String
      → Principal
      → Option ℕ × Pipeline F V
      → Site F V J
      → Reply TenantErased × Site F V J
  unfolding erase_chats_of
  erased now tenant p (none, pipeline) s = (server_error, record s { pipeline = pipeline })
  erased now tenant p (some n, pipeline) s =
      let (chats, conversations) = erase_chats_of tenant s.conversations in
      (
        response (record { documents_erased = n; conversations_erased = chats }),
        record {
          pipeline = pipeline;
          conversations = conversations;
          auth =
              Auth.audit now p.username "tenant.erase" tenant
                (decimal n <> " docs, " <> decimal chats <> " chats") s.auth;
        },
      )

  -- of a principal that `require_admin` has let through
  erase_as : ℕ → String → Reply Principal → Site F V J → Reply TenantErased × Site F V J
  unfolding erased
  erase_as now tenant (http_error status code) s = (http_error status code, s)
  erase_as now tenant (llm_error k) s = (llm_error k, s)
  erase_as now tenant server_error s = (server_error, s)
  erase_as now tenant (response p) s =
      if not app.auth_enabled
      then (http_error 404 "auth is disabled on this instance", s)
      else if tenant == public_tenant
      then (http_error 400 "refusing to erase the public corpus", s)
      else erased now tenant p (Erase.erase_tenant math forget tenant s.pipeline) s

  unfoldable pub erase_tenant_route :
      ℕ → String → Principal → Site F V J → Reply TenantErased × Site F V J
  unfolding erase_as
  erase_tenant_route now tenant p s = erase_as now tenant (require_admin p) s

module _ {F V J : Type 0} (app : App F V) where
  log_for : ℤ → Reply Principal → Site F V J → Reply (List AuditRow)
  log_for limit (http_error status code) s = http_error status code
  log_for limit (llm_error k) s = llm_error k
  log_for limit server_error s = server_error
  log_for limit (response p) s =
      if app.auth_enabled
      then response (audit_entries (capped limit) s.auth)
      else http_error 404 "auth is disabled on this instance"

  unfoldable pub audit_log : ℤ → Principal → Site F V J → Reply (List AuditRow)
  unfolding log_for
  audit_log limit p s = log_for limit (require_admin p) s
