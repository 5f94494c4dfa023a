-- ===== src/Lib.antt =====
-- EURAG answers questions on EU law and funding for small businesses: a question is rewritten, its
-- passages are retrieved and reranked, a model answers from them with citations, and the route
-- charges an allowance. This library models the program's core and proves what it relies on.
--
-- The parts, from the bottom up, with the code that each of them models:
--   Base, Sql      Python's text and dictionaries, and the SQL statements that the stores write;
--                  a table is the list of its rows (core/db.py runs the statements).
--   Config         core/config.py: the file .env in Dotenv, the settings and the guard of start-up.
--   Quota          core/quota.py: the allowance of an address for a day (Anon) and that of an account
--                  for life (User).
--   Chunk          the records that core/ingestion passes on.
--   Ingestion      core/ingestion: chunker.py, and document_loader.py without the sample files.
--   Llm            core/generation/llm_client.py. An action `Io A` threads the number of model calls
--                  and the pipeline's client cache, and ends in a value, an LLMUnavailableError or
--                  another exception. Llm.Ensures has the rules for what an action returns and costs.
--   Profile        core/profile.py: the vocabularies and the sentence that reaches the prompt.
--   Generation     core/generation: citations.py, and answerer.py with its prompts.
--   Security       core/security: crypto.py, turnstile.py, pii.py and google_oauth.py.
--   Registry       core/registry.py: documents and passages with their tenants; in Listing the list.
--   Retrieval      core/retrieval: bm25.py, expansion.py, reranker.py and hybrid_retriever.py, the
--                  last in Fusion, Pick and Hybrid.
--   Smalltalk      core/smalltalk.py.
--   Pipeline       core/pipeline.py: __init__'s clients, _resolve_llm, _answer and query, in Erase
--                  erase_document and erase_tenant, and in Ingest ingest and _rebuild_bm25.
--   Auth           core/security/auth.py: the account store, with Accounts, Tokens, Erasure and Log,
--                  and in Steps its histories.
--   Chats          core/conversations.py: saved chats and their messages.
--   Api            the state of the application and its routes: api/deps.py in Deps, and of api/routes
--                  query.py in Query, conversations.py in Chats, account.py in Account, auth.py in
--                  Sessions, and ingest.py, documents.py and admin.py in Documents. Chats and Account
--                  have the question within a chat and the deletion of an account, and their Routes
--                  the others. RateLimit has api/middleware/ratelimit.py, and Main has the headers
--                  and the handlers of api/main.py.
--   Tests          runs on a small corpus, and each result applied to them.
--
-- How they interact: Api.Query takes from Quota, runs Pipeline.query, and gives back by the mode of
-- the result. Pipeline.query goes through Smalltalk, Retrieval.Expansion, Retrieval.Hybrid,
-- Registry.get_chunks and Generation.Answerer, twice where it escalates. Api.Account erases from
-- Chats, Pipeline.Erase (Registry and Retrieval.Bm25), Quota.User and Auth, in this order.
-- Pipeline.Ingest passes a document through Security.Pii, Ingestion.Chunker, Registry and
-- Retrieval.Bm25. Api.Sessions goes through Security.Turnstile or Security.Google, Auth.Accounts and
-- Auth.Tokens, and Api.Deps reads the token of a later request; Api.Documents goes through
-- Ingestion.Loader and Pipeline.Ingest, or Pipeline.Erase and Chats, and writes to Auth's log.
--
-- Parameters, for code that is not in the repository: the model API (Api), Unicode tables (Unicode,
-- Folding, Lexer), floats (FloatOps, FloatMath, Arith), the embedder and the vector store (fields of
-- Pipeline, and Forget, which may raise), the cross-encoder (Model), AES-GCM and base64 (Aead),
-- PyJWT (Jwt, and Decode for Google's tokens), scrypt (Hashing), the challenge's service
-- (Siteverify), Presidio, Redis, SHA-256 and what the system takes into its environment. The scores
-- of a retrieval are an abstract type.
--
-- Bounds: every loop is structural recursion. `decimal` runs on fuel, of which a number's value and
-- one is enough, since each digit divides it by ten; a name has the 9999 candidates of the source. A
-- day is its ordinal number and a time is a number of whole seconds, which decides every comparison
-- that the source makes, since its limits are whole; the rate limiter's clock counts ticks, and its
-- tokens are floats, whose rounding is bounded by IsAccurate where a bound needs it. A regular
-- expression is a matcher that repeats a part at most as often as there are characters left, and
-- each repetition takes one.
--
-- Not modelled: the sample files, the wiring of the web framework and what it checks of a request,
-- scrapers and the evaluation harness, and logging.
pub mod Base
pub mod Config
pub mod Sql
pub mod Quota
pub mod Llm
pub mod Chunk
pub mod Ingestion
pub mod Profile
pub mod Generation
pub mod Security
pub mod Registry
pub mod Retrieval
pub mod Smalltalk
pub mod Pipeline
pub mod Auth
pub mod Chats
pub mod Api
mod Tests
