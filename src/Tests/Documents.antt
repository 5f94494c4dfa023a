-- ===== src/Tests/Documents.antt =====
-- Documents: bob uploads an act and erases his memo, and an administrator erases what is bob's.
use eu_rag.Base.{ℕ, ◌≡◌, refl, String, true, none, some, [], ◌∷◌, Member}
use eu_rag.Base.Text.{strip}
use eu_rag.Registry.{DocumentRow, in_tenants}
use eu_rag.Registry.Listing.{Listed, listed, list_documents, list_documents-IsScoped}
use eu_rag.Ingestion.Loader.{Source}
use eu_rag.Auth.{Principal}
use eu_rag.Api.Documents.{Site, ingest_route, erase_document_route, erase_tenant_route}
use eu_rag.Api.Documents.Laws.{IsErased, erase_document_route-IsErased}
use eu_rag.Api.Documents.Uploads.{EndsWell, ingest_route-EndsWell}
use eu_rag.Api.Documents.Tenants.{IsTenantErased, erase_tenant_route-IsTenantErased}
use eu_rag.Tests.Sample.{ascii, math, app, pipeline, state, bob, registry}
use eu_rag.Tests.Erase
use eu_rag.Tests.Erase.{forget}
use eu_rag.Tests.Uploads.{ingestor, law_text, sample-IsKeyed}

abbrev site : Site ℕ Unit ℕ
site = record {
  pipeline = pipeline;
  auth = state.auth;
  conversations = Erase.holdings.conversations;
}

abbrev body : Source
body = record {
  title = "Act";
  text = law_text;
  source_url = "";
  source_type = "upload";
  language = "en";
}

ingest_route-EndsWell_example :
    EndsWell app ingestor bob pipeline "|Act!"
      (strip ascii law_text)
      (ingest_route app ingestor 9 "2026-02-02" body bob site).0
      (ingest_route app ingestor 9 "2026-02-02" body bob site).1.pipeline
unfolding strip eu_rag.Base.Text.◌<>◌
ingest_route-EndsWell_example =
    ingest_route-EndsWell app ingestor bob site 9 "2026-02-02" body sample-IsKeyed

erase_document_route-IsErased_example :
    IsErased app math forget "memo" bob site
      (erase_document_route app math forget 9 "memo" bob site).0
      (erase_document_route app math forget 9 "memo" bob site).1
erase_document_route-IsErased_example =
    erase_document_route-IsErased app math forget "memo" bob site 9

abbrev admin : Principal
admin = record { username = "ada"; role = "admin"; tenant = "ada" }

erase_tenant_route-IsTenantErased_example :
    IsTenantErased app math forget "bob" admin site
      (erase_tenant_route app math forget 9 "bob" admin site).0
      (erase_tenant_route app math forget 9 "bob" admin site).1
erase_tenant_route-IsTenantErased_example =
    erase_tenant_route-IsTenantErased app math forget "bob" admin site 9

abbrev memo : Listed
memo = record {
  doc_id = "memo";
  title = "Memo";
  source_url = "";
  source_type = "upload";
  language = "en";
  fetched_at = "2026-01-01";
  n_chunks = 1;
  tenant = "bob";
}

bobs_list :
    list_documents registry (some ("bob" ∷ "public" ∷ []))
    ≡ record memo {
      doc_id = "gdpr";
      title = "GDPR";
      source_url = "https://eur-lex";
      source_type = "regulation";
      tenant = "public";
    }
      ∷ memo
      ∷ []
unfolding list_documents eu_rag.Retrieval.Sort.sort_down
bobs_list = refl

list_documents-IsScoped_example :
    (Member memo (list_documents registry (some ("bob" ∷ [])))
      → (r : DocumentRow) × Member r registry.documents
        × (in_tenants (some ("bob" ∷ [])) r.tenant ≡ true)
        × (memo ≡ listed r))
    × ((r : DocumentRow)
        → Member r registry.documents
        → in_tenants (some ("bob" ∷ [])) r.tenant ≡ true
        → Member (listed r) (list_documents registry (some ("bob" ∷ []))))
list_documents-IsScoped_example = list_documents-IsScoped registry (some ("bob" ∷ [])) memo
