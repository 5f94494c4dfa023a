-- ===== src/Tests/Chats.antt =====
-- Saved chats.
use eu_rag.Base.{
  ◌≡◌, ◌≢◌, refl, String, ℕ, ◌+◌, List, some, true, false, none, [], ◌∷◌, ◌==◌, select, Member,
}
use eu_rag.Chats.{
  Conversation, ChatStore, is_in, get_chat, rename, delete_chat, erase_chats, list_of,
}
use eu_rag.Chats.Laws.{foreign_chat-kept}
use eu_rag.Chats.Erasure.{erase_chats-forgets}
use eu_rag.Api.{State, Reply, response, http_error}
use eu_rag.Api.Query.{Answered}
use eu_rag.Api.Chats.{Ask, Json, ask}
use eu_rag.Api.Chats.Laws.{ask-get_chat}
use eu_rag.Api.Chats.Routes.{Imported, import_chat}
use eu_rag.Api.Chats.Routes.Import.{rows_of, IsTitled, import_chat-get_chat}
use eu_rag.Tests.Sample.{ascii, folding, helpful, math, lexer, app, state, bob}

abbrev chat : String → String → Conversation
chat id username = record {
  id = id;
  username = username;
  title = "New chat";
  created_at = 1;
  updated_at = 1;
}

abbrev chats : ChatStore ℕ
chats = record {
  conversations = chat "c1" "bob" ∷ chat "c2" "eve" ∷ [];
  messages =
      record {
        conversation_id = "c1";
        role = "user";
        content = "hi";
        citations = [];
        meta = [];
        created_at = 1;
      }
      ∷ record {
        conversation_id = "c2";
        role = "user";
        content = "psst";
        citations = [];
        meta = [];
        created_at = 2;
      }
      ∷ [];
}

is_closed : get_chat "c2" "bob" chats ≡ none
unfolding get_chat
is_closed = refl

foreign_chat-kept_example :
    (rename ascii "c2" "bob" "mine now" chats ≡ (false, chats))
    × (delete_chat "c2" "bob" chats ≡ (false, chats))
foreign_chat-kept_example = foreign_chat-kept ascii "c2" "bob" "mine now" chats is_closed

erase_chats-forgets_example :
    ((j : String) → get_chat j "bob" (erase_chats "bob" chats).1 ≡ none)
    × ((c : Conversation)
        → Member c chats.conversations
        → (c.username == "bob") ≡ true
        → select (is_in c.id) (erase_chats "bob" chats).1.messages ≡ [])
    × ((j user : String)
        → user ≢ "bob"
        → ((c : Conversation) → Member c (list_of "bob" chats) → j ≢ c.id)
        → get_chat j user (erase_chats "bob" chats).1 ≡ get_chat j user chats)
erase_chats-forgets_example = erase_chats-forgets "bob" chats

abbrev json : Json ℕ
json = record { of_citation = λ c. c.marker; of_mode = λ m. 0; of_bool = λ b. 1 }

abbrev follow_up : Ask
follow_up = record { question = "which law applies here?"; profile = none }

abbrev other_chat : String
other_chat = "c2"

abbrev asked : Reply (Answered ℕ) × (State × ChatStore ℕ)
asked = ask ascii folding helpful math lexer app json 1000 bob follow_up "c1" (state, chats)

ask-get_chat_example :
    (other_chat ≢ "c1" → get_chat other_chat "eve" asked.1.1 ≡ get_chat other_chat "eve" chats)
    × (get_chat "c1" bob.username chats ≡ none
        → (e : String) × (asked ≡ (http_error 404 e, (state, chats))))
ask-get_chat_example =
    ask-get_chat ascii folding helpful math lexer app json 1000 bob follow_up "c1" other_chat "eve"
      state chats

-- the thread of a visitor who signs up as bob
abbrev thread : List (Imported ℕ)
thread =
    record { role = "user"; content = "What is the GDPR?"; citations = []; meta = [] }
    ∷ record { role = "assistant"; content = "A regulation [1]."; citations = 7 ∷ []; meta = [] }
    ∷ []

abbrev imported_chats : ChatStore ℕ
imported_chats = (import_chat ascii app bob (λ i. i + 10) "c9" thread (state.auth, chats)).1.1

import_chat-get_chat_example :
    (c : Conversation) × IsTitled ascii thread c.title
    × (get_chat "c9" "bob" imported_chats ≡ some (c, rows_of (λ i. i + 10) 1 "c9" thread))
    × ((import_chat ascii app bob (λ i. i + 10) "c9" thread (state.auth, chats)).0
        ≡ response (get_chat "c9" "bob" imported_chats))
    × ((j user : String) → j ≢ "c9" → get_chat j user imported_chats ≡ get_chat j user chats)
import_chat-get_chat_example =
    import_chat-get_chat ascii app bob (λ i. i + 10) "c9" thread state.auth chats refl refl refl
