-- ===== src/Api/Chats/Routes.antt =====
-- The other routes of api/routes/conversations.py: how a saved chat is made, imported, listed, opened,
-- renamed and deleted. The id of a new chat is an argument; a name that a client sees is the one it
-- has sent.
pub mod Import
use eu_rag.Base.{
  ℕ, suc, String, Bool, true, false, not, ◌&&◌, Option, none, some, List, [], ◌∷◌, ◌==◌, length,
  any, if◌then◌else◌,
}
use eu_rag.Base.Text
use eu_rag.Base.Text.{Unicode, ◌<>◌, decimal, is_empty, strip}
use eu_rag.Auth.{Principal, AuthStore, audit}
use eu_rag.Chats
use eu_rag.Chats.{Conversation, Message, ChatStore, add_message}
use eu_rag.Api.{App, Reply, response, http_error, llm_error, server_error}

-- a turn of the thread that the client brings
pub record Imported (J : Type 0) : Type 0 where
  pub role : String
  pub content : String
  pub citations : List J
  pub meta : List (String × J)

-- what `create` returns: the title is as it was sent, and the row has it cut
pub record Created : Type 0 where
  pub id : String
  pub title : String
  pub created_at : ℕ
  pub updated_at : ℕ

abbrev pub or_new_chat : String → String
or_new_chat title = if is_empty title then "New chat" else title

module _ {J : Type 0} where
  -- the first turn of the user that is not blank
  unfoldable pub first_question : Unicode → List (Imported J) → String
  first_question u [] = ""
  first_question u (m ∷ messages) =
      let rest = first_question u messages in
      if m.role == "user" && not (is_empty (strip u m.content)) then m.content else rest

  -- the loop; `clock i` is the time of the i-th INSERT
  unfoldable pub add_all : (ℕ → ℕ) → ℕ → String → List (Imported J) → ChatStore J → ChatStore J
  add_all clock i id [] s = s
  add_all clock i id (m ∷ messages) s =
      add_all clock (suc i) id messages
        (add_message (clock i) id m.role m.content m.citations m.meta s)

module _ (u : Unicode) {F V J : Type 0} (app : App F V) (p : Principal) where
  unfoldable pub create_route : ℕ → String → String → ChatStore J → Reply Created × ChatStore J
  create_route now id title s =
      if app.auth_enabled
      then (
        response (record { id = id; title = title; created_at = now; updated_at = now }),
        Chats.create u now id p.username title s,
      )
      else (http_error 404 "chat history requires auth", s)

  unfoldable pub import_chat :
      (ℕ → ℕ)
      → String
      → List (Imported J)
      → AuthStore × ChatStore J
      → Reply (Option (Conversation × List (Message J))) × (AuthStore × ChatStore J)
  import_chat clock id messages (auth, chats) =
      if app.auth_enabled
      then (let title = or_new_chat (Text.take 60 (first_question u messages)) in
          let stored =
            add_all clock 1 id messages (Chats.create u (clock 0) id p.username title chats) in
          (
            response (Chats.get_chat id p.username stored),
            (
              audit (clock (suc (length messages))) p.username "conversation.import" id
                  (decimal (length messages) <> " messages") auth,
              stored,
            ),
          ))
      else (http_error 404 "chat history requires auth", (auth, chats))

  unfoldable pub list_route : ChatStore J → Reply (List Conversation)
  list_route s =
      if app.auth_enabled
      then response (Chats.list_of p.username s)
      else http_error 404 "chat history requires auth"

  found : Option (Conversation × List (Message J)) → Reply (Conversation × List (Message J))
  found none = http_error 404 "conversation not found"
  found (some chat) = response chat

  unfoldable pub get_route : String → ChatStore J → Reply (Conversation × List (Message J))
  unfolding found
  get_route conv_id s =
      if app.auth_enabled
      then found (Chats.get_chat conv_id p.username s)
      else http_error 404 "chat history requires auth"

  -- the id and the title of the request
  unfoldable pub rename_route :
      String → String → ChatStore J → Reply (String × String) × ChatStore J
  rename_route conv_id title s =
      let (renamed, s') = Chats.rename u conv_id p.username title s in
      if not app.auth_enabled
      then (http_error 404 "chat history requires auth", s)
      else if renamed
      then (response (conv_id, title), s')
      else (http_error 404 "conversation not found", s')

  unfoldable pub delete_route :
      ℕ → String → AuthStore × ChatStore J → Reply String × (AuthStore × ChatStore J)
  delete_route now conv_id (auth, chats) =
      let (deleted, chats') = Chats.delete_chat conv_id p.username chats in
      if not app.auth_enabled
      then (http_error 404 "chat history requires auth", (auth, chats))
      else if deleted
      then (response conv_id, (audit now p.username "conversation.delete" conv_id "" auth, chats'))
      else (http_error 404 "conversation not found", (auth, chats'))
