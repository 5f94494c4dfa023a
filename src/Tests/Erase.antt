-- ===== src/Tests/Erase.antt =====
-- The tenant of the sample corpus is erased, and then its account.
use eu_rag.Base.{ℕ, true, false, ◌≡◌, ◌≢◌, refl, some, [], ◌∷◌, arith, eq_iff}
use eu_rag.Registry.{public_tenant, tenant_doc_ids}
use eu_rag.Pipeline.Erase.{Forget}
use eu_rag.Base.Text.{strip}
use eu_rag.Auth.{erased_actor}
use eu_rag.Chats.{ChatStore, get_chat}
use eu_rag.Api.{server_error}
use eu_rag.Api.Account.{Holdings, delete_account}
use eu_rag.Api.Account.Laws.{IsDeletion, delete_account-forgets}
use eu_rag.Tests.Sample.{ascii, math, pipeline, state, bob}

-- Qdrant answers as before
abbrev pub forget : Forget ℕ Unit
forget doc_id vector_search = (true, vector_search)

-- Qdrant is not there
abbrev pub unreachable : Forget ℕ Unit
unreachable doc_id vector_search = (false, vector_search)

abbrev pub holdings : Holdings ℕ Unit ℕ
holdings = record {
  pipeline = pipeline;
  conversations = some (record {
    conversations =
        record { id = "c1"; username = "bob"; title = "Chat"; created_at = 1; updated_at = 1 } ∷ [];
    messages = [];
  });
  user_quota = some state.user_quota;
  auth = some state.auth;
}

is_confirmed : ascii.lower (strip ascii " bob ") ≡ "bob"
unfolding strip
is_confirmed = refl

bob_apart : "bob" ≢ erased_actor
bob_apart e = ground (arith, eq_iff "bob" "deleted_account")

half_way : (delete_account ascii math unreachable 9 " bob " bob holdings).0 ≡ server_error
unfolding delete_account strip eu_rag.Pipeline.Erase.erase_tenant
    eu_rag.Pipeline.Erase.erase_document eu_rag.Registry.tenant_doc_ids
    eu_rag.Registry.delete_document eu_rag.Chats.erase_chats
half_way = refl

delete_account-forgets_example :
    let ran = delete_account ascii math forget 9 " bob " bob holdings in
    IsDeletion math forget bob holdings state.auth ran.0 ran.1
delete_account-forgets_example =
    delete_account-forgets ascii math forget 9 " bob " bob holdings state.auth refl is_confirmed
      bob_apart
