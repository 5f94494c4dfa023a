-- ===== src/Api/Chats/Routes/Import.antt =====
-- What an imported thread is afterwards, by api/routes/conversations.py.
use eu_rag.Base.{
  ℕ, suc, ◌≡◌, ◌≢◌, ◌⊎◌, subst, Bool-cases, All, not, ◌&&◌, if◌then◌else◌, inl, inr, refl, sym, ap,
  ◌∙◌, String, true, false, none, some, List, [], ◌∷◌, ◌++◌, ◌==◌, arith, eq_iff, eq_refl, find,
  select, Option-cases, some_inj,
}
use eu_rag.Base.Text.{Unicode, take, is_empty, strip, rstrip, lstrip}
use eu_rag.Sql.{insert, find-insert_hit, find-insert_miss}
use eu_rag.Auth.{Principal, AuthStore}
use eu_rag.Chats
use eu_rag.Chats.{
  Conversation, Message, ChatStore, has_id, is_owned, is_in, get_chat, with_messages, add_message,
  touch, title_or,
}
use eu_rag.Chats.Laws.{written, add_message-get_chat}
use eu_rag.Api.{App, response}
use eu_rag.Api.Chats.Routes.{Imported, first_question, or_new_chat, add_all, import_chat}

owned-none :
    (id username : String) (rows : List Conversation)
    → find (has_id id) rows ≡ none
    → find (is_owned id username) rows ≡ none
owned-none id username [] h = refl
owned-none id username (c ∷ rows) h = ground (arith, owned-none id username rows)

module _ {J : Type 0} where
  -- the rows of the turns, as they were sent
  abbrev pub rows_of : (ℕ → ℕ) → ℕ → String → List (Imported J) → List (Message J)
  rows_of clock i id [] = []
  rows_of clock i id (m ∷ messages) =
      written (clock i) id m.role m.content m.citations m.meta ∷ rows_of clock (suc i) id messages

  insert-append :
      (m : Message J) (rows more : List (Message J)) → insert m rows ++ more ≡ rows ++ (m ∷ more)
  insert-append m [] more = refl
  insert-append m (x ∷ rows) more = ap (λ y. x ∷ y) (insert-append m rows more)

  append_nil : (rows : List (Message J)) → rows ++ [] ≡ rows
  append_nil [] = refl
  append_nil (x ∷ rows) = ap (λ y. x ∷ y) (append_nil rows)

  get_chat-parts :
      (id user : String) (s : ChatStore J) (c : Conversation) (rows : List (Message J))
      → get_chat id user s ≡ some (c, rows)
      → (find (is_owned id user) s.conversations ≡ some c) × (select (is_in id) s.messages ≡ rows)
  unfolding get_chat
  get_chat-parts id user s c rows e =
      elim (Option-cases (find (is_owned id user) s.conversations)) [
        | inl miss ↦ ground arith
        | inr (d, hit) ↦
            let same = some_inj (rw hit at e) in (hit ∙ ap (λ x. some x.0) same, ap (λ x. x.1) same)
      ]

  -- the turns stand behind the messages of the chat, which keeps its title
  add_all-get_chat :
      (clock : ℕ → ℕ) (i : ℕ) (id user : String) (messages : List (Imported J)) (s : ChatStore J)
      (c : Conversation) (rows : List (Message J))
      → get_chat id user s ≡ some (c, rows)
      → (c' : Conversation) × (c'.title ≡ c.title)
        × (get_chat id user (add_all clock i id messages s)
            ≡ some (c', rows ++ rows_of clock i id messages))
  unfolding add_all
  add_all-get_chat clock i id user [] s c rows e =
      (c, refl, e ∙ ap (λ x. some (c, x)) (sym (append_nil rows)))
  add_all-get_chat clock i id user (m ∷ messages) s c rows e =
      let row = written (clock i) id m.role m.content m.citations m.meta in
      let next = add_message (clock i) id m.role m.content m.citations m.meta s in
      let stored : get_chat id user next ≡ some (touch (clock i) c, insert row rows) =
        let step =
          add_message-get_chat (clock i) id m.role m.content m.citations m.meta id user s in
        let (found, inside) = get_chat-parts id user s c rows e in
        rw (eq_refl id, found, inside) at step in
      let (c', title, found) =
        add_all-get_chat clock (suc i) id user messages next (touch (clock i) c) (insert row rows)
          stored in
      (c', title, found ∙ ap (λ x. some (c', x)) (insert-append row rows _))

  add_all-other :
      (clock : ℕ → ℕ) (i : ℕ) (id j user : String) (messages : List (Imported J)) (s : ChatStore J)
      → j ≢ id
      → get_chat j user (add_all clock i id messages s) ≡ get_chat j user s
  unfolding add_all
  add_all-other clock i id j user [] s other = refl
  add_all-other clock i id j user (m ∷ messages) s other =
      let next = add_message (clock i) id m.role m.content m.citations m.meta s in
      let kept = add_message-get_chat (clock i) id m.role m.content m.citations m.meta j user s in
      let apart : (id == j) ≡ false = ground (arith, eq_iff id j) in
      add_all-other clock (suc i) id j user messages next other ∙ rw apart at kept

  create-get_chat :
      (u : Unicode) (now : ℕ) (id username title : String) (s : ChatStore J)
      → find (has_id id) s.conversations ≡ none
      → select (is_in id) s.messages ≡ []
      → (c : Conversation) × (c.title ≡ title_or u title "New chat")
        × (get_chat id username (Chats.create u now id username title s) ≡ some (c, []))
  unfolding get_chat Chats.create
  create-get_chat u now id username title s fresh empty =
      let row : Conversation = record {
        id = id;
        username = username;
        title = title_or u title "New chat";
        created_at = now;
        updated_at = now;
      } in
      (
        row,
        refl,
        rw
            (
              find-insert_hit (is_owned id username) row s.conversations
                  (owned-none id username s.conversations fresh)
                  (rw (eq_refl id, eq_refl username) refl),
              empty,
            )
            refl,
      )

  create-other :
      (u : Unicode) (now : ℕ) (id username title j user : String) (s : ChatStore J)
      → j ≢ id
      → get_chat j user (Chats.create u now id username title s) ≡ get_chat j user s
  unfolding get_chat Chats.create
  create-other u now id username title j user s other =
      let row : Conversation = record {
        id = id;
        username = username;
        title = title_or u title "New chat";
        created_at = now;
        updated_at = now;
      } in
      rw (find-insert_miss (is_owned j user) row s.conversations (ground (arith, eq_iff id j))) refl

-- the title that a text gives: its first 60 characters, stripped
abbrev pub cut_title : Unicode → String → String
cut_title u text =
    let cut = take 120 (strip u (take 60 text)) in if is_empty cut then "New chat" else cut

title_or-cut :
    (u : Unicode) (text : String)
    → is_empty (strip u text) ≡ false
    → title_or u (or_new_chat (take 60 text)) "New chat" ≡ cut_title u text
unfolding title_or strip rstrip lstrip
title_or-cut u String.[] h = cc
title_or-cut u (String.◌∷◌ c text) h = refl

module _ (u : Unicode) {J : Type 0} where
  -- a turn of the user that is not blank
  abbrev pub IsQuestion : Imported J → Type 0
  IsQuestion m = (m.role ≡ "user") × (is_empty (strip u m.content) ≡ false)

  abbrev pub IsNoQuestion : Imported J → Type 0
  IsNoQuestion m = IsQuestion m → ⊥

  -- the title of the first such turn, or the one of a chat that has none
  abbrev pub IsTitled : List (Imported J) → String → Type 0
  IsTitled messages title =
      ((before : List (Imported J)) × (after : List (Imported J)) × (m : Imported J) × (messages
          ≡ before ++ (m ∷ after))
        × All IsNoQuestion before
        × IsQuestion m
        × (title ≡ cut_title u m.content))
      ⊎ (All IsNoQuestion messages × (title ≡ cut_title u "New chat"))

  first_question_lem :
      (messages : List (Imported J))
      → ((before : List (Imported J)) × (after : List (Imported J)) × (m : Imported J) × (messages
            ≡ before ++ (m ∷ after))
          × All IsNoQuestion before
          × IsQuestion m
          × (first_question u messages ≡ m.content))
        ⊎ (All IsNoQuestion messages × (first_question u messages ≡ ""))
  unfolding first_question
  first_question_lem [] = inr (tt, refl)
  first_question_lem (m ∷ messages) =
      let test = m.role == "user" && not (is_empty (strip u m.content)) in
      elim (Bool-cases test) [
        | inl hit ↦ inl (
          [],
          messages,
          m,
          refl,
          tt,
          (ground (arith, eq_iff m.role "user"), ground arith),
          rw hit refl,
        )
        | inr miss ↦
            let no : IsNoQuestion m =
              λ q. let (role, text) = q in ground (arith, eq_iff m.role "user") in
            elim (first_question_lem messages) [
              | inl (before, after, n, split, none_before, question, same) ↦ inl (
                m ∷ before,
                after,
                n,
                ap (λ l. m ∷ l) split,
                (no, none_before),
                question,
                rw miss same,
              )
              | inr (none_at_all, same) ↦ inr ((no, none_at_all), rw miss same)
            ]
      ]

module _ (u : Unicode) {F V J : Type 0} (app : App F V) (p : Principal) where
  title_or-IsTitled :
      (messages : List (Imported J))
      → IsTitled u messages
          (title_or u (or_new_chat (take 60 (first_question u messages))) "New chat")
  title_or-IsTitled messages = elim (first_question_lem u messages) [
    | inl (before, after, m, split, none_before, (role, text), same) ↦ inl (
      before,
      after,
      m,
      split,
      none_before,
      (role, text),
      rw same (title_or-cut u m.content text),
    )
    | inr (none_at_all, empty) ↦ inr (none_at_all, rw empty (unfold title_or in refl))
  ]

  -- An imported thread, with an id that is new, is a chat of the one who imports it: the reply and
  -- whoever opens it then have its turns in their order with the texts, the citations and the other
  -- data that were sent. Its title is the text of the first turn of the user that is not blank,
  -- cut to 60 characters and stripped, or "New chat" if nothing is left of it or there is no such
  -- turn. Every other chat is as it was.
  pub import_chat-get_chat :
      (clock : ℕ → ℕ) (id : String) (messages : List (Imported J)) (auth : AuthStore)
      (chats : ChatStore J)
      → app.auth_enabled ≡ true
      → find (has_id id) chats.conversations ≡ none
      → select (is_in id) chats.messages ≡ []
      → let (reply, (auth', chats')) = import_chat u app p clock id messages (auth, chats) in
        (c : Conversation) × IsTitled u messages c.title
        × (get_chat id p.username chats' ≡ some (c, rows_of clock 1 id messages))
        × (reply ≡ response (get_chat id p.username chats'))
        × ((j user : String) → j ≢ id → get_chat j user chats' ≡ get_chat j user chats)
  unfolding import_chat
  import_chat-get_chat clock id messages auth chats enabled fresh empty =
      let title = or_new_chat (take 60 (first_question u messages)) in
      let made = Chats.create u (clock 0) id p.username title chats in
      let (c, titled, there) = create-get_chat u (clock 0) id p.username title chats fresh empty in
      let (c', same, found) = add_all-get_chat clock 1 id p.username messages made c [] there in
      simp enabled (
        c',
        subst (IsTitled u messages) (sym (same ∙ titled)) (title_or-IsTitled messages),
        found,
        refl,
        λ j user other.
            add_all-other clock 1 id j user messages made other
            ∙ create-other u (clock 0) id p.username title j user chats other,
      )
