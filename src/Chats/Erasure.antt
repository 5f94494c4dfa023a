-- ===== src/Chats/Erasure.antt =====
-- `erase_user` of the saved chats.
use eu_rag.Base.{
  Member-select, ◌≡◌, ◌≢◌, inl, inr, refl, ◌∙◌, subst, String, Bool, true, none, List, [], ◌∷◌,
  arith, ◌==◌, eq_iff, find, select, Member, ltb,
}
use eu_rag.Sql.{delete, find-delete_miss}
use eu_rag.Retrieval.Sort.{Member-sort_down}
use eu_rag.Chats.{
  Conversation, Message, ChatStore, is_owned, is_in, get_chat, list_of, delete_messages,
  erase_chats,
}

find-erased :
    (j username : String) (rows : List Conversation)
    → find (is_owned j username) (delete (λ c. c.username == username) rows) ≡ none
find-erased j username [] = refl
find-erased j username (c ∷ rows) = ground (arith, find-erased j username rows)

module _ {J : Type 0} where
  delete-empty :
      (q p : Message J → Bool) (rows : List (Message J))
      → select q rows ≡ []
      → select q (delete p rows) ≡ []
  delete-empty q p [] e = refl
  delete-empty q p (x ∷ rows) e = ground (arith, delete-empty q p rows)

  delete_messages-empty :
      (q : Message J → Bool) (cs : List Conversation) (rows : List (Message J))
      → select q rows ≡ []
      → select q (delete_messages cs rows) ≡ []
  unfolding delete_messages
  delete_messages-empty q [] rows e = e
  delete_messages-empty q (c ∷ cs) rows e =
      delete_messages-empty q cs (delete (is_in c.id) rows) (delete-empty q (is_in c.id) rows e)

  delete_self : (q : Message J → Bool) (rows : List (Message J)) → select q (delete q rows) ≡ []
  delete_self q [] = refl
  delete_self q (x ∷ rows) = ground (arith, delete_self q rows)

  delete_messages-Member :
      (c : Conversation) (cs : List Conversation) (rows : List (Message J))
      → Member c cs
      → select (is_in c.id) (delete_messages cs rows) ≡ []
  unfolding delete_messages
  delete_messages-Member c (d ∷ cs) rows (inl e) =
      delete_messages-empty (is_in c.id) cs (delete (is_in d.id) rows) (
        subst (λ (x : Conversation). select (is_in c.id) (delete (is_in x.id) rows) ≡ []) e
          (delete_self (is_in c.id) rows))
  delete_messages-Member c (d ∷ cs) rows (inr m) =
      delete_messages-Member c cs (delete (is_in d.id) rows) m
  delete_messages-Member c [] rows m = absurd m

  select-delete_other :
      (id j : String) (rows : List (Message J))
      → j ≢ id
      → select (is_in j) (delete (is_in id) rows) ≡ select (is_in j) rows
  select-delete_other id j [] apart = refl
  select-delete_other id j (m ∷ rows) apart = ground (
    arith,
    eq_iff m.conversation_id id,
    eq_iff m.conversation_id j,
    select-delete_other id j rows,
  )

  delete_messages-other :
      (j : String) (cs : List Conversation) (rows : List (Message J))
      → ((c : Conversation) → Member c cs → j ≢ c.id)
      → select (is_in j) (delete_messages cs rows) ≡ select (is_in j) rows
  unfolding delete_messages
  delete_messages-other j [] rows apart = refl
  delete_messages-other j (c ∷ cs) rows apart =
      delete_messages-other j cs (delete (is_in c.id) rows) (λ d m. apart d (inr m))
      ∙ select-delete_other c.id j rows (apart c (inl refl))

  -- Once the chats of an account are erased, none of them can be opened and none of their messages
  -- is left. Another account's chat whose id is none of theirs is as it was.
  pub erase_chats-forgets :
      (username : String) (s : ChatStore J)
      → let s' = (erase_chats username s).1 in
        ((j : String) → get_chat j username s' ≡ none)
        × ((c : Conversation)
            → Member c s.conversations
            → (c.username == username) ≡ true
            → select (is_in c.id) s'.messages ≡ [])
        × ((j user : String)
            → user ≢ username
            → ((c : Conversation) → Member c (list_of username s) → j ≢ c.id)
            → get_chat j user s' ≡ get_chat j user s)
  unfolding erase_chats get_chat list_of
  erase_chats-forgets username s = (
    λ j. rw (find-erased j username s.conversations) refl,
    λ c m own. delete_messages-Member c (list_of username s) s.messages (
        Member-sort_down ltb (λ c. c.updated_at) c
          (select (λ c. c.username == username) s.conversations)
          (Member-select (λ c. c.username == username) c s.conversations m own)),
    λ j user other apart.
        rw
          (
            find-delete_miss (is_owned j user) (λ c. c.username == username) s.conversations
                (λ c own. ground (arith, eq_iff c.username username, eq_iff c.username user)),
            delete_messages-other j (list_of username s) s.messages apart,
          )
          refl,
  )
