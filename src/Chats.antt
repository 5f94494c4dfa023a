-- ===== src/Chats.antt =====
-- core/conversations.py: saved chats. `J` is the type of JSON values: what is dumped is loaded again
-- as it was.
pub mod Laws
pub mod Erasure
use eu_rag.Base.{
  ℕ, String, Bool, true, false, ◌&&◌, Option, none, some, List, [], ◌∷◌, ◌==◌, ltb, find, select,
  length, map, if◌then◌else◌, any,
}
use eu_rag.Base.Text
use eu_rag.Base.Text.{Unicode, is_empty, strip}
use eu_rag.Sql.{insert, update, delete}
use eu_rag.Retrieval.Sort.{sort_down}

pub record Conversation : Type 0 where
  pub id : String
  pub username : String
  pub title : String
  pub created_at : ℕ
  pub updated_at : ℕ

-- Rows are in the order of their serial ids.
pub record Message (J : Type 0) : Type 0 where
  pub conversation_id : String
  pub role : String
  pub content : String
  pub citations : List J
  pub meta : List (String × J)
  pub created_at : ℕ

pub record ChatStore (J : Type 0) : Type 0 where
  pub conversations : List Conversation
  pub messages : List (Message J)

-- WHERE id = ?
abbrev pub has_id : String → Conversation → Bool
has_id conv_id c = c.id == conv_id

-- WHERE id = ? AND username = ?
abbrev pub is_owned : String → String → Conversation → Bool
is_owned conv_id username c = c.id == conv_id && c.username == username

abbrev pub is_in : {J : Type 0} → String → Message J → Bool
is_in conv_id m = m.conversation_id == conv_id

-- title.strip()[:120] or …
unfoldable pub title_or : Unicode → String → String → String
title_or u title default =
    let cut = Text.take 120 (strip u title) in if is_empty cut then default else cut

abbrev pub touch : ℕ → Conversation → Conversation
touch now c = record c { updated_at = now }

abbrev pub retitle : String → Conversation → Conversation
retitle title c = record c { title = title }

module _ {J : Type 0} where
  unfoldable pub create : Unicode → ℕ → String → String → String → ChatStore J → ChatStore J
  unfolding title_or
  create u now conv_id username title s = record s {
    conversations =
        insert
          (record {
            id = conv_id;
            username = username;
            title = title_or u title "New chat";
            created_at = now;
            updated_at = now;
          })
          s.conversations;
  }

  -- ORDER BY updated_at DESC
  unfoldable pub list_of : String → ChatStore J → List Conversation
  list_of username s =
      sort_down ltb (λ c. c.updated_at) (select (λ c. c.username == username) s.conversations)

  unfoldable pub owner : String → ChatStore J → Option String
  owner conv_id s = elim (find (has_id conv_id) s.conversations) [
    | none ↦ none
    | some c ↦ some c.username
  ]

  abbrev pub with_messages :
      List (Message J) → Option Conversation → Option (Conversation × List (Message J))
  with_messages messages none = none
  with_messages messages (some c) = some (c, messages)

  -- `get`, with the messages in order
  unfoldable pub get_chat : String → String → ChatStore J → Option (Conversation × List (Message J))
  get_chat conv_id username s =
      with_messages (select (is_in conv_id) s.messages)
        (find (is_owned conv_id username) s.conversations)

  unfoldable pub add_message :
      ℕ → String → String → String → List J → List (String × J) → ChatStore J → ChatStore J
  add_message now conv_id role content citations meta s = record {
    conversations = update (has_id conv_id) (touch now) s.conversations;
    messages =
        insert
          (record {
            conversation_id = conv_id;
            role = role;
            content = content;
            citations = citations;
            meta = meta;
            created_at = now;
          })
          s.messages;
  }

  unfoldable pub rename : Unicode → String → String → String → ChatStore J → Bool × ChatStore J
  unfolding title_or
  rename u conv_id username title s = (
    any (is_owned conv_id username) s.conversations,
    record s {
      conversations =
          update (is_owned conv_id username) (retitle (title_or u title "Untitled"))
            s.conversations;
    },
  )

  unfoldable pub delete_chat : String → String → ChatStore J → Bool × ChatStore J
  delete_chat conv_id username s =
      let deleted = any (is_owned conv_id username) s.conversations in
      (
        deleted,
        record {
          conversations = delete (is_owned conv_id username) s.conversations;
          messages = if deleted then delete (is_in conv_id) s.messages else s.messages;
        },
      )

  -- the loop over the ids
  pub delete_messages : List Conversation → List (Message J) → List (Message J)
  delete_messages [] messages = messages
  delete_messages (c ∷ cs) messages = delete_messages cs (delete (is_in c.id) messages)

  -- `erase_user`, with the number of chats
  unfoldable pub erase_chats : String → ChatStore J → ℕ × ChatStore J
  unfolding delete_messages
  erase_chats username s = (
    length (list_of username s),
    record {
      conversations = delete (λ c. c.username == username) s.conversations;
      messages = delete_messages (list_of username s) s.messages;
    },
  )
