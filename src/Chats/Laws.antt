-- ===== src/Chats/Laws.antt =====
-- Saved chats are private: what each operation does to every chat that a user can open.
use eu_rag.Base.{
  ℕ, ◌≡◌, ◌≢◌, inl, inr, refl, String, Bool, true, false, none, some, List, [], ◌∷◌, arith, ◌==◌,
  eq_iff, if◌then◌else◌, find, select, any, is_some, Bool-cases, Option-cases,
}
use eu_rag.Base.Text.{Unicode}
use eu_rag.Sql.{insert, update, delete, amend, find-delete_miss, find-delete_self, find-test}
use eu_rag.Chats.{
  Conversation, Message, ChatStore, has_id, is_owned, is_in, get_chat, with_messages, add_message,
  rename, delete_chat, touch, retitle,
}

update-none :
    (p : Conversation → Bool) (f : Conversation → Conversation) (rows : List Conversation)
    → find p rows ≡ none
    → update p f rows ≡ rows
update-none p f [] h = refl
update-none p f (x ∷ rows) h = ground (arith, update-none p f rows)

delete-none :
    (p : Conversation → Bool) (rows : List Conversation) → find p rows ≡ none → delete p rows ≡ rows
delete-none p [] h = refl
delete-none p (x ∷ rows) h = ground (arith, delete-none p rows)

any-find : (p : Conversation → Bool) (rows : List Conversation) → any p rows ≡ is_some (find p rows)
any-find p [] = refl
any-find p (x ∷ rows) = ground (arith, any-find p rows)

find-touch :
    (now : ℕ) (conv_id j user : String) (rows : List Conversation)
    → find (is_owned j user) (update (has_id conv_id) (touch now) rows) ≡ (
        if conv_id == j
        then amend (λ c. true) (touch now) (find (is_owned j user) rows)
        else find (is_owned j user) rows)
find-touch now conv_id j user [] = ground arith
find-touch now conv_id j user (x ∷ rows) = ground (
  arith,
  eq_iff x.id conv_id,
  eq_iff x.id j,
  eq_iff conv_id j,
  find-touch now conv_id j user rows,
)

module _ {J : Type 0} where
  select-insert :
      (q : Message J → Bool) (m : Message J) (rows : List (Message J))
      → select q (insert m rows) ≡ (if q m then insert m (select q rows) else select q rows)
  select-insert q m [] = ground arith
  select-insert q m (x ∷ rows) = ground (arith, select-insert q m rows)

  select-delete_miss :
      (q p : Message J → Bool) (rows : List (Message J))
      → ((m : Message J) → p m ≡ true → q m ≡ false)
      → select q (delete p rows) ≡ select q rows
  select-delete_miss q p [] apart = refl
  select-delete_miss q p (x ∷ rows) apart =
      ground (arith, apart x, select-delete_miss q p rows apart)

  -- the message that `add_message` writes
  abbrev pub written : ℕ → String → String → String → List J → List (String × J) → Message J
  written now conv_id role content citations meta = record {
    conversation_id = conv_id;
    role = role;
    content = content;
    citations = citations;
    meta = meta;
    created_at = now;
  }

  -- Whoever may open a chat sees the new message behind the others and a later time of change; every
  -- other chat is as it was.
  pub add_message-get_chat :
      (now : ℕ) (conv_id role content : String) (citations : List J) (meta : List (String × J))
      (j user : String) (s : ChatStore J)
      → get_chat j user (add_message now conv_id role content citations meta s) ≡ (
          if conv_id == j
          then with_messages
              (insert
                (written now conv_id role content citations meta)
                (select (is_in j) s.messages))
              (amend (λ c. true) (touch now) (find (is_owned j user) s.conversations))
          else get_chat j user s)
  unfolding get_chat add_message
  add_message-get_chat now conv_id role content citations meta j user s =
      elim (Bool-cases (conv_id == j)) [
        | inl same ↦
            rw
              (
                find-touch now conv_id j user s.conversations,
                select-insert (is_in j) (written now conv_id role content citations meta)
                    s.messages,
                same,
              )
              refl
        | inr other ↦
            rw
              (
                find-touch now conv_id j user s.conversations,
                select-insert (is_in j) (written now conv_id role content citations meta)
                    s.messages,
                other,
              )
              refl
      ]

  -- Who cannot open a chat can neither rename nor delete it: the answer is no, and nothing changes.
  pub foreign_chat-kept :
      (u : Unicode) (conv_id username title : String) (s : ChatStore J)
      → get_chat conv_id username s ≡ none
      → (rename u conv_id username title s ≡ (false, s))
        × (delete_chat conv_id username s ≡ (false, s))
  unfolding get_chat rename delete_chat
  foreign_chat-kept u conv_id username title s closed =
      elim (Option-cases (find (is_owned conv_id username) s.conversations)) [
        | inl miss ↦
            let never = any-find (is_owned conv_id username) s.conversations in
            (
              rw
                  (
                    never,
                    miss,
                    update-none (is_owned conv_id username) (retitle _) s.conversations miss,
                  )
                  refl,
              rw (never, miss, delete-none (is_owned conv_id username) s.conversations miss) refl,
            )
        | inr (c, hit) ↦ ground arith
      ]

  -- A deleted chat can no longer be opened by its owner, and every other chat is as it was.
  pub delete_chat-get_chat :
      (conv_id username : String) (s : ChatStore J)
      → (get_chat conv_id username (delete_chat conv_id username s).1 ≡ none)
        × ((j user : String)
            → j ≢ conv_id
            → get_chat j user (delete_chat conv_id username s).1 ≡ get_chat j user s)
  unfolding get_chat delete_chat
  delete_chat-get_chat conv_id username s = (
    rw (find-delete_self (is_owned conv_id username) s.conversations) refl,
    λ j user apart.
        rw
          (find-delete_miss (is_owned j user) (is_owned conv_id username) s.conversations
            (λ c owned. ground (arith, eq_iff c.id conv_id, eq_iff c.id j)))
          (elim (Bool-cases (any (is_owned conv_id username) s.conversations)) [
            | inl deleted ↦ rw deleted (
                rw
                  (select-delete_miss (is_in j) (is_in conv_id) s.messages (λ m inside.
                    ground (arith, eq_iff m.conversation_id conv_id, eq_iff m.conversation_id j)))
                  refl)
            | inr kept ↦ rw kept refl
          ]),
  )

  pub get_chat-id :
      (conv_id username : String) (s : ChatStore J) (c : Conversation) (messages : List (Message J))
      → get_chat conv_id username s ≡ some (c, messages)
      → c.id ≡ conv_id
  unfolding get_chat
  get_chat-id conv_id username s c messages e =
      elim (Option-cases (find (is_owned conv_id username) s.conversations)) [
        | inl miss ↦ ground arith
        | inr (d, hit) ↦
            let owned = find-test (is_owned conv_id username) s.conversations d hit in
            ground (arith, eq_iff c.id conv_id)
      ]
