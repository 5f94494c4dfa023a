-- ===== src/Api/Chats/Laws.antt =====
-- What a question within a saved chat does to the saved chats.
use eu_rag.Base.{
  ℕ, ◌≡◌, ◌≢◌, refl, ap, ◌∙◌, String, Bool, true, false, Option, none, some, List, [], arith,
  eq_iff, if◌then◌else◌, Bool-cases, inl, inr,
}
use eu_rag.Base.Text.{Unicode}
use eu_rag.Llm.{Outcome, ok, unavailable, crash, Api}
use eu_rag.Smalltalk.{Folding}
use eu_rag.Sql.{find-update_miss}
use eu_rag.Retrieval.Bm25.{Lexer, FloatMath}
use eu_rag.Generation.Answerer.{AnswerResult, is_refunded}
use eu_rag.Auth.{Principal}
use eu_rag.Chats.{
  Conversation, Message, ChatStore, is_owned, get_chat, add_message, rename, retitle,
}
use eu_rag.Chats.Laws.{add_message-get_chat, get_chat-id}
use eu_rag.Api.{App, State, Reply, response, http_error, llm_error, server_error}
use eu_rag.Api.Deps.{Plan, paid_tier}
use eu_rag.Api.Query.{Answered}
use eu_rag.Api.Chats.{Ask, Json, is_untitled, persist, settle_chat, ask_charged, ask_in, ask}

module _ {J : Type 0} where
  rename-get_chat :
      (u : Unicode) (conv_id username title j user : String) (s : ChatStore J)
      → j ≢ conv_id
      → get_chat j user (rename u conv_id username title s).1 ≡ get_chat j user s
  unfolding get_chat rename
  rename-get_chat u conv_id username title j user s apart =
      rw
        (find-update_miss (is_owned j user) (is_owned conv_id username) (retitle _) s.conversations
          (λ c owned. ground (arith, eq_iff c.id conv_id, eq_iff c.id j)) (λ c. refl))
        refl

  add_message-other :
      (now : ℕ) (conv_id role content : String) (citations : List J) (meta : List (String × J))
      (j user : String) (s : ChatStore J)
      → j ≢ conv_id
      → get_chat j user (add_message now conv_id role content citations meta s) ≡ get_chat j user s
  add_message-other now conv_id role content citations meta j user s apart = ground (
    arith,
    eq_iff conv_id j,
    add_message-get_chat now conv_id role content citations meta j user s,
  )

module _ (u : Unicode) {F J : Type 0} (json : Json J) (now : ℕ) (p : Principal) (body : Ask) where
  persist-other :
      (conv : Conversation) (messages : List (Message J)) (r : AnswerResult F) (j user : String)
      (chats : ChatStore J)
      → j ≢ conv.id
      → get_chat j user (persist u json now p body conv messages r chats) ≡ get_chat j user chats
  unfolding persist
  persist-other conv messages r j user chats apart =
      let first = add_message-other now conv.id "user" body.question [] [] j user chats apart in
      elim (Bool-cases (is_untitled conv messages)) [
        | inl untitled ↦ rw untitled (
            rename-get_chat u conv.id p.username _ j user _ apart
            ∙ add_message-other now conv.id "assistant" r.answer _ _ j user _ apart
            ∙ first)
        | inr titled ↦
            rw titled
              (add_message-other now conv.id "assistant" r.answer _ _ j user _ apart ∙ first)
      ]

module _ (u : Unicode) {F J : Type 0} (json : Json J) (now : ℕ) (p : Principal) (body : Ask)
    {V : Type 0} (app : App F V) where
  settle_chat-other :
      (plan : Plan) (left : Option ℕ) (conv : Conversation) (messages : List (Message J))
      (o : Outcome (AnswerResult F)) (s : State) (chats : ChatStore J) (j user : String)
      → j ≢ conv.id
      → get_chat j user (settle_chat u json now p body app plan left conv messages o (s, chats)).1.1
        ≡ get_chat j user chats
  unfolding settle_chat
  settle_chat-other plan left conv messages (ok r) s chats j user apart =
      elim (Bool-cases (is_refunded r.mode)) [
        | inl free ↦ rw free (persist-other u json now p body conv messages r j user chats apart)
        | inr paid ↦ rw paid (persist-other u json now p body conv messages r j user chats apart)
      ]
  settle_chat-other plan left conv messages (unavailable k) s chats j user apart = refl
  settle_chat-other plan left conv messages crash s chats j user apart = refl

module _ (u : Unicode) (folding : Folding) {F V J : Type 0} (api : Api) (math : FloatMath F)
    (lexer : Lexer) (app : App F V) (json : Json J) (now : ℕ) (p : Principal) (body : Ask) where
  ask_charged-other :
      (plan : Plan) (spent : Reply (Option ℕ)) (conv : Conversation) (messages : List (Message J))
      (s : State) (chats : ChatStore J) (j user : String)
      → j ≢ conv.id
      → get_chat j user
          (ask_charged u folding api math lexer app json now p body plan spent conv messages
            (s, chats)).1.1
        ≡ get_chat j user chats
  unfolding ask_charged
  ask_charged-other plan (response left) conv messages s chats j user apart =
      settle_chat-other u json now p body app plan left conv messages _ _ chats j user apart
  ask_charged-other plan (http_error status code) conv messages s chats j user apart = refl
  ask_charged-other plan (llm_error k) conv messages s chats j user apart = refl
  ask_charged-other plan server_error conv messages s chats j user apart = refl

  -- Whatever a question within a chat ends in, every other chat of every user is as it was. If the
  -- asker cannot open the chat, then the reply is a 404, and nothing is charged and nothing stored.
  pub ask-get_chat :
      (conv_id j user : String) (s : State) (chats : ChatStore J)
      → (j ≢ conv_id
          → get_chat j user
              (ask u folding api math lexer app json now p body conv_id (s, chats)).1.1
            ≡ get_chat j user chats)
        × (get_chat conv_id p.username chats ≡ none
            → (e : String) × (ask u folding api math lexer app json now p body conv_id (s, chats)
                ≡ (http_error 404 e, (s, chats))))
  unfolding ask ask_in
  ask-get_chat conv_id j user s chats = gated app.auth_enabled
    where
      in_chat :
          j ≢ conv_id
          → (o : Option (Conversation × List (Message J))) → get_chat conv_id p.username chats ≡ o
          → get_chat j user (ask_in u folding api math lexer app json now p body o (s, chats)).1.1
            ≡ get_chat j user chats
      in_chat apart none e = refl
      in_chat apart (some (conv, messages)) e =
          ask_charged-other (paid_tier app p s.auth) _ conv messages (record s { user_quota = _ })
            chats j user
            (λ same. apart (same ∙ get_chat-id conv_id p.username chats conv messages e))

      Kept : Reply (Answered F) × (State × ChatStore J) → Type 0
      Kept after =
          (j ≢ conv_id → get_chat j user after.1.1 ≡ get_chat j user chats)
          × (get_chat conv_id p.username chats ≡ none
              → (e : String) × (after ≡ (http_error 404 e, (s, chats))))

      gated :
          (b : Bool)
          → Kept (
              if b
              then ask_in u folding api math lexer app json now p body
                  (get_chat conv_id p.username chats)
                  (s, chats)
              else (http_error 404 "chat history requires auth", (s, chats)))
      gated true = (
        λ apart. in_chat apart (get_chat conv_id p.username chats) refl,
        λ closed.
            (_, ap (λ o. ask_in u folding api math lexer app json now p body o (s, chats)) closed),
      )
      gated false = (λ apart. refl, λ closed. (_, refl))
