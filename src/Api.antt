-- ===== src/Api.antt =====
-- api: the running application, its mutable state, and what a request ends in.
pub mod Deps
pub mod Query
pub mod Chats
pub mod Account
pub mod RateLimit
pub mod Sessions
pub mod Documents
pub mod Main
use eu_rag.Base.{ℕ, String, Bool, Option, List}
use eu_rag.Llm.{Kind, World}
use eu_rag.Quota.Anon.{AnonTable}
use eu_rag.Quota.User.{UserTable}
use eu_rag.Auth.{AuthStore}
use eu_rag.Auth.Tokens.{Jwt}
use eu_rag.Security.Turnstile.{Siteverify}
use eu_rag.Pipeline.{Pipeline}

-- the settings that the routes read
pub record ApiSettings : Type 0 where
  pub trust_proxy : Bool
  pub turnstile_secret : String
  pub free_anon_questions : ℕ
  pub free_user_questions : ℕ
  pub llm_model : String
  pub free_model : String
  pub escalation_model : String

-- What stays as it is while the application runs. `decrypt` is that of `app.state.cipher`, which
-- may be missing; `question_hash` is a SHA-256.
pub record App (F V : Type 0) : Type 0 where
  pub auth_enabled : Bool
  pub settings : ApiSettings
  pub pipeline : Pipeline F V
  pub decrypt : Option (String → Option String)
  pub siteverify : String → String → String → Siteverify
  pub jwt : Jwt
  pub question_hash : String → String

-- `app.state`: the anonymous quota, the quota of the accounts and the account store, which are only
-- used where `auth_enabled`, and the state of the pipeline.
pub record State : Type 0 where
  pub anon_quota : AnonTable
  pub user_quota : UserTable
  pub auth : AuthStore
  pub world : World

-- A response, or an `HTTPException` with its status and code, or an `LLMUnavailableError`, which the
-- application's handler answers, or any other exception, which is a 500.
pub data Reply (A : Type 0) : Type 0 where
  response : A → Reply A
  http_error : ℕ → String → Reply A
  llm_error : Kind → Reply A
  server_error : Reply A
