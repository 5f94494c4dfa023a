-- ===== src/Api/Chats.antt =====
-- api/routes/conversations.py: POST /conversations/{conv_id}/messages, a question within a saved chat.
pub mod Laws
pub mod Routes
use eu_rag.Base.{
  ℕ, ◌+◌, String, Bool, true, false, ◌&&◌, ◌||◌, not, Option, none, some, List, [], ◌∷◌, ◌==◌, map,
  if◌then◌else◌,
}
use eu_rag.Base.Text
use eu_rag.Base.Text.{Unicode, is_empty}
use eu_rag.Llm.{Kind, Outcome, ok, unavailable, crash, Api}
use eu_rag.Profile.{BusinessProfile}
use eu_rag.Smalltalk.{Folding}
use eu_rag.Retrieval.Bm25.{Lexer, FloatMath}
use eu_rag.Generation.Citations.{Citation}
use eu_rag.Generation.Answerer.{Mode, AnswerResult, is_refunded}
use eu_rag.Pipeline.{Request, query}
use eu_rag.Auth.{Principal, audit}
use eu_rag.Chats.{Conversation, Message, ChatStore, get_chat, add_message, rename}
use eu_rag.Api.{App, State, Reply, response, http_error, llm_error, server_error}
use eu_rag.Api.Deps.{Plan, paid_tier, spend_free_question, refund_free_question, allowed_tenants}
use eu_rag.Api.Query.{Answered, raised_by_one}

-- `Ask`, after its validation
pub record Ask : Type 0 where
  pub question : String
  pub profile : Option BusinessProfile

-- how the parts of an answer are written as JSON
pub record Json (J : Type 0) : Type 0 where
  pub of_citation : Citation → J
  pub of_mode : Mode → J
  pub of_bool : Bool → J

module _ {J : Type 0} where
  answer_of : List (Message J) → String
  answer_of [] = ""
  answer_of (m ∷ messages) = if m.role == "assistant" then m.content else ""

  -- `_history`
  pub turns_of : List (Message J) → List (String × String)
  unfolding answer_of
  turns_of [] = []
  turns_of (m ∷ messages) =
      let rest = turns_of messages in
      if m.role == "user" then (m.content, answer_of messages) ∷ rest else rest

  abbrev is_untitled : Conversation → List (Message J) → Bool
  is_untitled c [] = c.title == "New chat" || is_empty c.title
  is_untitled c (m ∷ messages) = false

module _ (u : Unicode) {F J : Type 0} (json : Json J) (now : ℕ) (p : Principal) (body : Ask) where
  -- both turns are stored, and a chat without a title gets one
  persist : Conversation → List (Message J) → AnswerResult F → ChatStore J → ChatStore J
  persist conv messages r chats =
      let asked = add_message now conv.id "user" body.question [] [] chats in
      let answered =
        add_message now conv.id "assistant" r.answer (map json.of_citation r.citations)
          (("mode", json.of_mode r.mode)
            ∷ ("escalated", json.of_bool r.escalated)
            ∷ ("insufficient", json.of_bool r.insufficient)
            ∷ [])
          asked in
      if is_untitled conv messages
      then (rename u conv.id p.username (Text.take 60 body.question) answered).1
      else answered

  module _ {V : Type 0} (app : App F V) where
    noted : Conversation → State → State
    noted conv s = record s {
      auth =
          audit now p.username "conversation.ask" conv.id (app.question_hash body.question) s.auth;
    }

    -- below the call of the pipeline
    settle_chat :
        Plan
        → Option ℕ
        → Conversation
        → List (Message J)
        → Outcome (AnswerResult F)
        → State × ChatStore J
        → Reply (Answered F) × (State × ChatStore J)
    unfolding persist noted
    settle_chat plan left conv messages (ok r) (s, chats) =
        if is_refunded r.mode
        then (
          response (record { result = r; tier = some plan.tier; left = raised_by_one left }),
          (
            noted conv (record s { user_quota = refund_free_question p plan s.user_quota }),
            persist conv messages r chats,
          ),
        )
        else (
          response (record { result = r; tier = some plan.tier; left = left }),
          (noted conv s, persist conv messages r chats),
        )
    settle_chat plan left conv messages (unavailable k) (s, chats) =
        (llm_error k, (record s { user_quota = refund_free_question p plan s.user_quota }, chats))
    settle_chat plan left conv messages crash (s, chats) = (server_error, (s, chats))

module _ (u : Unicode) (folding : Folding) {F V J : Type 0} (api : Api) (math : FloatMath F)
    (lexer : Lexer) (app : App F V) (json : Json J) (now : ℕ) (p : Principal) (body : Ask) where
  chat_request : Plan → List (Message J) → Request
  chat_request plan messages = record {
    question = body.question;
    profile = body.profile;
    tenants = allowed_tenants app p;
    answer_model = plan.answer_model;
    escalation_model = plan.escalation_model;
    api_key = plan.api_key;
    history = turns_of messages;
  }

  ask_charged :
      Plan
      → Reply (Option ℕ)
      → Conversation
      → List (Message J)
      → State × ChatStore J
      → Reply (Answered F) × (State × ChatStore J)
  unfolding chat_request settle_chat
  ask_charged plan (response left) conv messages (s, chats) =
      let (o, w) =
        query u folding api math lexer app.pipeline (chat_request plan messages) s.world in
      settle_chat u json now p body app plan left conv messages o (record s { world = w }, chats)
  ask_charged plan (http_error status code) conv messages st = (http_error status code, st)
  ask_charged plan (llm_error k) conv messages st = (llm_error k, st)
  ask_charged plan server_error conv messages st = (server_error, st)

  ask_in :
      Option (Conversation × List (Message J))
      → State × ChatStore J
      → Reply (Answered F) × (State × ChatStore J)
  unfolding ask_charged
  ask_in none st = (http_error 404 "conversation not found", st)
  ask_in (some (conv, messages)) (s, chats) =
      let plan = paid_tier app p s.auth in
      let (spent, t) = spend_free_question app p plan s.user_quota in
      ask_charged plan spent conv messages (record s { user_quota = t }, chats)

  -- `ask`; without accounts there are no saved chats
  unfoldable pub ask : String → State × ChatStore J → Reply (Answered F) × (State × ChatStore J)
  unfolding ask_in
  ask conv_id (s, chats) =
      if app.auth_enabled
      then ask_in (get_chat conv_id p.username chats) (s, chats)
      else (http_error 404 "chat history requires auth", (s, chats))
