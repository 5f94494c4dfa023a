-- ===== src/Api/Account.antt =====
-- api/routes/account.py: `delete_account`. Qdrant, which forgets a document, is the parameter
-- `forget`.
pub mod Laws
pub mod Routes
use eu_rag.Base.{ℕ, String, Bool, true, false, not, Option, none, some, ◌==◌, if◌then◌else◌}
use eu_rag.Base.Text.{Unicode, strip}
use eu_rag.Registry.{public_tenant}
use eu_rag.Retrieval.Bm25.{FloatMath}
use eu_rag.Auth.{AuthStore, Principal}
use eu_rag.Auth
use eu_rag.Chats.{ChatStore, erase_chats}
use eu_rag.Quota.User
use eu_rag.Quota.User.{UserTable}
use eu_rag.Pipeline.{Pipeline}
use eu_rag.Pipeline.Erase.{Forget, erase_tenant}
use eu_rag.Api.{Reply, response, http_error, llm_error, server_error}

-- the parts of `app.state` that the route erases from, each of which may be missing but the pipeline
pub record Holdings (F V J : Type 0) : Type 0 where
  pub pipeline : Pipeline F V
  pub conversations : Option (ChatStore J)
  pub user_quota : Option UserTable
  pub auth : Option AuthStore

pub record Deleted : Type 0 where
  pub conversations_erased : ℕ
  pub documents_erased : ℕ

erase_conversations : {J : Type 0} → String → Option (ChatStore J) → ℕ × Option (ChatStore J)
erase_conversations username none = (0, none)
erase_conversations username (some chats) =
    let (count, kept) = erase_chats username chats in (count, some kept)

erase_quota : String → Option UserTable → Option UserTable
erase_quota username none = none
erase_quota username (some table) = some (User.erase_user username table)

confirmed : Unicode → String → Principal → Bool
confirmed u confirm_username p = u.lower (strip u confirm_username) == p.username

module _ {F V : Type 0} (math : FloatMath F) (forget : Forget F V) where
  -- none is an exception of `erase_tenant`
  erase_own : String → Pipeline F V → Option ℕ × Pipeline F V
  erase_own tenant p =
      if tenant == public_tenant then (some 0, p) else erase_tenant math forget tenant p

module _ {F V J : Type 0} where
  finish :
      ℕ
      → Principal
      → AuthStore
      → Option ℕ × Pipeline F V
      → Holdings F V J
      → Reply Deleted × Holdings F V J
  unfolding erase_conversations erase_quota
  finish now p store (none, pipeline) s = (
    server_error,
    record s {
      pipeline = pipeline;
      conversations = (erase_conversations p.username s.conversations).1;
    },
  )
  finish now p store (some docs, pipeline) s =
      let (chats, conversations) = erase_conversations p.username s.conversations in
      (
        response (record { conversations_erased = chats; documents_erased = docs }),
        record {
          pipeline = pipeline;
          conversations = conversations;
          user_quota = erase_quota p.username s.user_quota;
          auth = some (Auth.erase_user now p.username store);
        },
      )

module _ (u : Unicode) {F V J : Type 0} (math : FloatMath F) (forget : Forget F V) where
  delete_from :
      ℕ → String → Principal → Option AuthStore → Holdings F V J → Reply Deleted × Holdings F V J
  unfolding erase_own finish confirmed
  delete_from now confirm_username p none s =
      (http_error 404 "auth is disabled on this instance", s)
  delete_from now confirm_username p (some store) s =
      if confirmed u confirm_username p
      then finish now p store (erase_own math forget p.tenant s.pipeline) s
      else (http_error 422 "type your username exactly to confirm deletion", s)

  unfoldable pub delete_account :
      ℕ → String → Principal → Holdings F V J → Reply Deleted × Holdings F V J
  unfolding delete_from
  delete_account now confirm_username p s = delete_from now confirm_username p s.auth s
