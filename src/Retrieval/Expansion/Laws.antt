-- ===== src/Retrieval/Expansion/Laws.antt =====
-- What a rewrite can and cannot do to a question.
use eu_rag.Base.{
  ℕ, ◌+◌, ◌≤◌, ◌≢◌, ◌⊎◌, inl, inr, refl, String, ◌≡◌, Bool, true, false, ◌||◌, List, [], ◌∷◌, arith,
  ltb, if◌then◌else◌, length, Bool-cases, take, length-take-le,
}
use eu_rag.Base.Text.{Unicode, has_prefix, count, contains, is_empty}
use eu_rag.Llm.{
  Outcome, ok, unavailable, crash, Client, Api, World, Io, pure, continue, ◌>>=◌, complete, Costs,
  Costs-pure, Costs-complete, Costs-bind,
}
use eu_rag.Retrieval.Expansion.{
  or_else, handled, usable, stripped, standalone, expand, subqueries, split_reply, first_line,
  listed,
}

or_else-Costs {ℓ} : {A : Type ℓ} (n : ℕ) (m : Io A) (a : A) → Costs n m → Costs n (or_else m a)
unfolding or_else
or_else-Costs {A} n m a c = record { at_most = λ w. go w (m w).0 (m w).1 (c.at_most w) }
  where
    go :
        (w : World) (r : Outcome A) (w' : World)
        → w'.calls ≤ w.calls + n
        → (handled a (r, w')).1.calls ≤ w.calls + n
    go w (ok b) w' h = h
    go w (unavailable k) w' h = h
    go w crash w' h = h

module _ (u : Unicode) (api : Api) (client : Client) where
  stripped-Costs : (system prompt : String) → Costs 1 (stripped u api client system prompt)
  unfolding stripped
  stripped-Costs system prompt =
      Costs-bind 1 0 (complete api client system prompt) _ (omega arith)
        (Costs-complete api client system prompt) (λ reply. Costs-pure 0 _)

  pub standalone-Costs :
      (query : String) (history : List (String × String))
      → Costs 1 (standalone u api client query history)
  unfolding standalone
  standalone-Costs query [] = Costs-pure 1 query
  standalone-Costs query (turn ∷ history) = or_else-Costs 1 _ query (
      Costs-bind 1 0 (stripped u api client _ _) _ (omega arith) (stripped-Costs _ _)
        (λ rewritten. Costs-pure 0 _))

  pub expand-Costs : (query : String) → Costs 1 (expand u api client query)
  unfolding expand
  expand-Costs query = or_else-Costs 1 _ query (
      Costs-bind 1 0 (stripped u api client _ query) _ (omega arith) (stripped-Costs _ query)
        (λ passage. Costs-pure 0 _))

  pub subqueries-Costs : (query : String) → Costs 1 (subqueries u api client query)
  unfolding subqueries
  subqueries-Costs query = or_else-Costs 1 _ [] (
      Costs-bind 1 0 (stripped u api client _ query) _ (omega arith) (stripped-Costs _ query)
        (λ reply. Costs-pure 0 _))

-- What an action that never raises returns has a property, if the value that the handler goes on
-- with has it and every value that the body returns has it.
or_else-returns {ℓ κ} :
    {A : Type ℓ} {B : Type κ} (P : B → Type κ) (m : Io A) (f : A → B) (b : B) (w : World)
    → P b
    → ((a : A) → P (f a))
    → (r : B) × (((or_else (m >>= λ a. pure (f a)) b) w).0 ≡ ok r) × P r
unfolding or_else
or_else-returns {A} {B} P m f b w fallback body = go (m w).0 (m w).1
  where
    go :
        (r : Outcome A) (w' : World)
        → (r' : B) × ((handled b (continue r (λ a. pure (f a)) w')).0 ≡ ok r') × P r'
    go (ok a) w' = (f a, refl, body a)
    go (unavailable k) w' = (b, refl, fallback)
    go crash w' = (b, refl, fallback)

usable-eq_true :
    (q : String)
    → usable q ≡ true
    → (contains "\n" q ≡ false) × (is_empty q ≡ false) × (count q ≤ 400)
unfolding usable
usable-eq_true q h = ground arith

few-length :
    (none_asked : Bool) (lines : List String)
    → let r = if none_asked || ltb (length lines) 2 then [] else take 3 lines in
      (r ≡ []) ⊎ ((2 ≤ length r) × (length r ≤ 3))
few-length true lines = inl refl
few-length false [] = inl refl
few-length false (a ∷ []) = inl refl
few-length false (a ∷ b ∷ []) = inr (omega arith, omega arith)
few-length false (a ∷ b ∷ c ∷ lines) = ground (arith, length-take-le 3 (a ∷ b ∷ c ∷ lines))

split_reply-length :
    (u : Unicode) (reply : String)
    → (split_reply u reply ≡ [])
      ⊎ ((2 ≤ length (split_reply u reply)) × (length (split_reply u reply) ≤ 3))
unfolding split_reply
split_reply-length u reply =
    few-length (has_prefix "NONE" (u.upper (first_line (listed u reply)))) (listed u reply)

module _ (u : Unicode) (api : Api) (client : Client) (query : String) (w : World) where
  abbrev pub IsRewrite : List (String × String) → String → Type 0
  IsRewrite history q =
      (q ≡ query)
      ⊎ ((history ≢ []) × (contains "\n" q ≡ false) × (is_empty q ≡ false) × (count q ≤ 400))

  -- Whatever the model does, a question is rewritten without an exception, and the result is the
  -- question itself or one line of 1 to 400 characters. Without a history it is the question.
  pub standalone-returns :
      (history : List (String × String))
      → (q : String) × ((standalone u api client query history w).0 ≡ ok q) × IsRewrite history q
  unfolding standalone
  standalone-returns [] = (query, refl, inl refl)
  standalone-returns (turn ∷ history) =
      or_else-returns (IsRewrite (turn ∷ history)) (stripped u api client _ _)
        (λ rewritten. if usable rewritten then rewritten else query) query w (inl refl) chosen
    where
      chosen : (q : String) → IsRewrite (turn ∷ history) (if usable q then q else query)
      chosen q = elim (Bool-cases (usable q)) [
        | inl accepted ↦
            let (line, full, short) = usable-eq_true q accepted in
            rw accepted (inr (λ e. cc, line, full, short))
        | inr dropped ↦ rw dropped (inl refl)
      ]

  -- Whatever the model does, a question is split without an exception into two or three lines, or
  -- not at all.
  pub subqueries-returns :
      (lines : List String) × ((subqueries u api client query w).0 ≡ ok lines)
      × ((lines ≡ []) ⊎ ((2 ≤ length lines) × (length lines ≤ 3)))
  unfolding subqueries
  subqueries-returns =
      or_else-returns (λ lines. (lines ≡ []) ⊎ ((2 ≤ length lines) × (length lines ≤ 3)))
        (stripped u api client _ query) (split_reply u) [] w (inl refl) (split_reply-length u)
