-- ===== src/Retrieval/Expansion.antt =====
-- core/retrieval/expansion.py: rewriting before retrieval. Each helper falls back where its model
-- call raises, whatever it raises.
pub mod Laws
use Prim.Native.Char.{Char, code}
use Prim.Native.String
use eu_rag.Base.{
  ℕ, zero, suc, ◌-◌, String, Bool, true, false, ◌||◌, ◌&&◌, not, Option, none, some, List, [], ◌∷◌,
  ◌++◌, ltb, leb, eqb, map, select, if◌then◌else◌, length, take, drop,
}
use eu_rag.Base.Text
use eu_rag.Base.Text.{Unicode, ◌<>◌, count, contains, has_prefix, is_empty, join, strip}
use eu_rag.Llm.{
  Outcome, ok, unavailable, crash, Client, Api, World, Io, pure, continue, ◌>>=◌, complete,
}

abbrev hyde_system : String
hyde_system =
    "You draft hypothetical excerpts of EU legislation. Given a question, write a short passage (2–4 sentences) in the formal style of an EU regulation or directive that would answer it — plausible article-style language, no preamble, no mention that it is hypothetical."

abbrev decompose_system : String
decompose_system =
    "You split compound legal questions. If the question asks about multiple distinct legal topics, rewrite it as self-contained sub-questions, one per line, at most three, nothing else. If it is a single question, respond with the single word NONE."

abbrev contextualize_system : String
contextualize_system =
    "You rewrite a follow-up question into a standalone question, using the conversation that came before it.\nThe result must make sense to someone who has NOT seen the conversation: resolve pronouns and elliptical references, and state the legal topic explicitly. For example, after a conversation about data protection officers, the follow-up 'what if I have 29 people?' becomes 'Do I need a data protection officer for a company with 29 employees?'\nWrite it in the same language as the follow-up question. Resolving references is not translating: an English follow-up must produce an English question, even when the earlier turns or the legal texts discussed are in another language.\nOutput ONLY the rewritten question, on one line, with no preamble and no explanation. Do not answer it, and do not add facts, article numbers, or legal conclusions the conversation does not already contain. If the question is already fully self-contained, output it unchanged."

abbrev max_turns : ℕ
max_turns = 3

abbrev max_answer_chars : ℕ
max_answer_chars = 400

abbrev handled {ℓ} : {A : Type ℓ} → A → Outcome A × World → Outcome A × World
handled a (ok b, w) = (ok b, w)
handled a (unavailable k, w) = (ok a, w)
handled a (crash, w) = (ok a, w)

-- `try: … except Exception:` around a call, with the value that the handler goes on with
unfoldable pub or_else {ℓ} : {A : Type ℓ} → Io A → A → Io A
or_else m a w = handled a (m w)

-- history[-n:]
last_turns : ℕ → List (String × String) → List (String × String)
last_turns n history = drop (length history - n) history

turn_lines : List (String × String) → List String
turn_lines [] = []
turn_lines ((question, answer) ∷ turns) =
    ("Q: " <> question)
      ∷ (if is_empty answer then [] else ("A: " <> Text.take max_answer_chars answer) ∷ [])
    ++ turn_lines turns

history_prompt : String → List (String × String) → String
unfolding last_turns turn_lines
history_prompt query history =
    join "\n" (turn_lines (last_turns max_turns history)) <> "\n\nFollow-up question: " <> query

-- a rewrite that is empty, has a line break or is too long is dropped
unfoldable pub usable : String → Bool
usable rewritten =
    if is_empty rewritten || contains "\n" rewritten || ltb 400 (count rewritten)
    then false
    else true

-- the line boundaries of `str.splitlines()`
is_break : Char → Bool
is_break c =
    (leb 10 (code c) && leb (code c) 13)
    || (leb 28 (code c) && leb (code c) 30)
    || eqb (code c) 133
    || eqb (code c) 8232
    || eqb (code c) 8233

lead : Char → List String → List String
lead c [] = (String.◌∷◌ c "") ∷ []
lead c (line ∷ lines) = String.◌∷◌ c line ∷ lines

splitlines : String → List String
unfolding is_break lead
splitlines String.[] = []
splitlines (String.◌∷◌ c s) =
    let lines = splitlines s in
    if eqb (code c) 13 && has_prefix "\n" s
    then lines
    else (if is_break c then "" ∷ lines else lead c lines)

-- the characters of ln.strip("-•* \t")
is_bullet : Char → Bool
is_bullet c =
    eqb (code c) b'-'
    || eqb (code c) 8226
    || eqb (code c) b'*'
    || eqb (code c) b' '
    || eqb (code c) 9

first_line : List String → String
first_line [] = ""
first_line (line ∷ lines) = line

module _ (u : Unicode) where
  -- the same strip, of the bullets rather than of white space
  bare : String → String
  unfolding is_bullet
  bare line = strip (record u { is_space = is_bullet }) line

  -- the lines of a reply that are not blank, without their bullets
  unfoldable pub listed : String → List String
  unfolding splitlines bare
  listed reply = map bare (select (λ line. not (is_empty (strip u line))) (splitlines reply))

  unfoldable pub split_reply : String → List String
  unfolding listed first_line
  split_reply reply =
      let lines = listed reply in
      if has_prefix "NONE" (u.upper (first_line lines)) || ltb (length lines) 2
      then []
      else take 3 lines

module _ (u : Unicode) (api : Api) (client : Client) where
  -- the reply, stripped; an empty one where the call raised, which the callers treat alike
  stripped : String → String → Io String
  stripped system prompt = complete api client system prompt >>= λ reply. pure (strip u reply)

  -- `QueryContextualizer.standalone`
  unfoldable pub standalone : String → List (String × String) → Io String
  unfolding stripped history_prompt
  standalone query [] = pure query
  standalone query (turn ∷ history) =
      or_else
        (stripped contextualize_system (history_prompt query (turn ∷ history)) >>= λ rewritten.
          pure (if usable rewritten then rewritten else query))
        query

  -- `HydeExpander.expand`
  unfoldable pub expand : String → Io String
  unfolding stripped
  expand query =
      or_else
        (stripped hyde_system query >>= λ passage.
          pure (if is_empty passage then query else query <> "\n\n" <> passage))
        query

  -- `QueryDecomposer.subqueries`
  unfoldable pub subqueries : String → Io (List String)
  unfolding stripped split_reply
  subqueries query =
      or_else (stripped decompose_system query >>= λ reply. pure (split_reply u reply)) []
