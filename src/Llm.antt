-- ===== src/Llm.antt =====
-- core/generation/llm_client.py: the model clients, and the actions that call a model.
-- A model is the parameter `Api`, which answers each call by its number: two calls with one prompt
-- may be answered differently. The number of calls made so far is part of the state.
pub mod Ensures
use eu_rag.Base.{
  ℕ, suc, ◌+◌, ◌≤◌, refl, String, ◌≡◌, Bool, true, false, Option, none, some, List, [], ◌∷◌, ◌++◌,
  if◌then◌else◌, ◌==◌, arith,
}
use eu_rag.Base.Text.{is_empty, join}

-- `LLMUnavailableError.kind`
pub data Kind : Type 0 where
  auth rate_limited overloaded network upstream : Kind

-- How a call ends: a value, an `LLMUnavailableError`, or any other exception.
pub data Outcome {ℓ} (A : Type ℓ) : Type ℓ where
  ok : A → Outcome A
  unavailable : Kind → Outcome A
  crash : Outcome A

-- `ExtractiveClient`, or `AnthropicClient` with its model and the key that is billed (`none`: the
-- server's)
pub data Client : Type 0 where
  extractive : Client
  anthropic : String → Option String → Client

abbrev pub is_extractive : Client → Bool
is_extractive extractive = true
is_extractive (anthropic model key) = false

pub record Block : Type 0 where
  pub type_name : String
  pub text : String

-- What `messages.create` of the anthropic package returns or raises.
pub data Response : Type 0 where
  content : List Block → Response
  authentication_error permission_denied rate_limit_error : Response
  internal_server_error connection_error status_error other_exception : Response

-- The n-th call, to a model with a key, of a system and a user message.
abbrev pub Api : Type 0
Api = ℕ → String → Option String → String → String → Response

texts : List Block → List String
texts [] = []
texts (b ∷ blocks) =
    let rest = texts blocks in if b.type_name == "text" then b.text ∷ rest else rest

-- the `except` clauses of `AnthropicClient.complete`, in order
unfoldable pub outcome : Response → Outcome String
unfolding texts
outcome (content blocks) = ok (join "" (texts blocks))
outcome authentication_error = unavailable auth
outcome permission_denied = unavailable auth
outcome rate_limit_error = unavailable rate_limited
outcome internal_server_error = unavailable overloaded
outcome connection_error = unavailable network
outcome status_error = unavailable upstream
outcome other_exception = crash

-- The state that a request threads through the pipeline: the calls that have reached a model, and
-- `Pipeline._client_cache`.
pub record World : Type 0 where
  pub calls : ℕ
  pub client_cache : List (String × Client)

abbrev pub Io {ℓ} : Type ℓ → Type ℓ
Io A = World → Outcome A × World

module _ {ℓ} {A : Type ℓ} where
  abbrev pub pure : A → Io A
  pure a w = (ok a, w)

  abbrev pub continue {κ} : {B : Type κ} → Outcome A → (A → Io B) → World → Outcome B × World
  continue (ok a) f w = f a w
  continue (unavailable k) f w = (unavailable k, w)
  continue crash f w = (crash, w)

infixl 5 ◌>>=◌
abbrev pub ◌>>=◌ {ℓ κ} : {A : Type ℓ} {B : Type κ} → Io A → (A → Io B) → Io B
◌>>=◌ m f w = let (r, w') = m w in continue r f w'

-- `client.complete(system, user)`. The extractive client raises `NotImplementedError`.
unfoldable pub complete : Api → Client → String → String → Io String
complete api extractive system user w = (crash, w)
complete api (anthropic model key) system user w =
    (outcome (api w.calls model key system user), record w { calls = suc w.calls })

-- Whether the SDK client of a model and a key can be built, and whether the server has a key in
-- its environment.
pub record Environment : Type 0 where
  pub can_build : String → Option String → Bool
  pub server_key : Bool

-- `if api_key:` — a key that is missing or empty is no key
abbrev pub given : Option String → Bool
given none = false
given (some s) = if is_empty s then false else true

unfoldable pub get_llm_client : Environment → String → Option String → Client
get_llm_client env model api_key =
    if given api_key
    then (if env.can_build model api_key then anthropic model api_key else extractive)
    else if env.server_key
    then (if env.can_build model none then anthropic model none else extractive)
    else extractive

-- Only a key that the caller gives is ever billed to the caller: without one the client is the
-- server's own or none.
pub get_llm_client-key :
    (env : Environment) (model other : String) (api_key key : Option String)
    → get_llm_client env model api_key ≡ anthropic other key
    → (other ≡ model) × (key ≡ (if given api_key then api_key else none))
unfolding get_llm_client
get_llm_client-key env model other api_key key h = ground arith

-- Inversion of an action that returned.
pub >>=-eq-ok {ℓ κ} :
    {A : Type ℓ} {B : Type κ} (m : Io A) (f : A → Io B) (w : World) (b : B)
    → (◌>>=◌ m f w).0 ≡ ok b
    → (a : A) × (w' : World) × (m w ≡ (ok a, w')) × ((f a w').0 ≡ ok b) × (◌>>=◌ m f w ≡ f a w')
>>=-eq-ok {A} m f w b h = go (m w).0 (m w).1 refl h
  where
    go :
        (r : Outcome A) (w' : World)
        → m w ≡ (r, w')
        → (continue r f w').0 ≡ ok b
        → (a : A) × (w'' : World) × (m w ≡ (ok a, w''))
          × ((f a w'').0 ≡ ok b)
          × (◌>>=◌ m f w ≡ f a w'')
    go (ok a) w' e h = (a, w', e, h, rw e refl)
    go (unavailable k) w' e h = cc
    go crash w' e h = cc

-- An action that adds at most `n` calls to a model, however it ends.
pub record Costs {ℓ} {A : Type ℓ} (n : ℕ) (m : Io A) : Type ℓ where
  pub at_most : (w : World) → (m w).1.calls ≤ w.calls + n

pub Costs-pure {ℓ} : {A : Type ℓ} (n : ℕ) (a : A) → Costs n (pure a)
Costs-pure n a = record { at_most = λ w. omega arith }

pub Costs-complete :
    (api : Api) (client : Client) (system user : String) → Costs 1 (complete api client system user)
unfolding complete
Costs-complete api extractive system user = record { at_most = λ w. omega arith }
Costs-complete api (anthropic model key) system user = record { at_most = λ w. omega arith }

pub Costs-bind {ℓ κ} :
    {A : Type ℓ} {B : Type κ} (i j : ℕ) {n : ℕ} (m : Io A) (f : A → Io B)
    → i + j ≤ n
    → Costs i m
    → ((a : A) → Costs j (f a))
    → Costs n (m >>= f)
Costs-bind {A} i j {n} m f fits cm cf = record {
  at_most = λ w. go w (m w).0 (m w).1 (cm.at_most w);
}
  where
    go :
        (w : World) (r : Outcome A) (w' : World)
        → w'.calls ≤ w.calls + i
        → (continue r f w').1.calls ≤ w.calls + n
    go w (ok a) w' h = omega (arith, (cf a).at_most w')
    go w (unavailable k) w' h = omega arith
    go w crash w' h = omega arith

pub Costs-le {ℓ} : {A : Type ℓ} (i : ℕ) {n : ℕ} (m : Io A) → i ≤ n → Costs i m → Costs n m
Costs-le i m fits c = record { at_most = λ w. omega (arith, c.at_most w) }
