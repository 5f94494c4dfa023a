-- ===== src/Config/Dotenv.antt =====
-- `_load_dotenv` of core/config.py. Which names and values the operating system takes is the
-- parameter `accepts`.
use Prim.Native.Char.{Char, code}
use eu_rag.Base.{
  ◌≡◌, refl, ap, ◌∙◌, String, Bool, true, false, ◌||◌, not, Option, none, some, List, [], ◌∷◌, eqb,
  leb, ◌&&◌, if◌then◌else◌, Option-cases, inl, inr, All,
}
use eu_rag.Base.Dict.Defaults.{or_else, put_missing, keep_there, or_else-get, or_else-none}
use eu_rag.Base.Dict.{get, put, get-put}
use eu_rag.Base.Text.{Unicode, is_empty, has_prefix, strip}
use eu_rag.Config.{Environ}

-- where `splitlines` cuts
unfoldable pub is_line_break : Char → Bool
is_line_break c =
    let n = code c in
    (leb 10 n && leb n 13) || (leb 28 n && leb n 30) || eqb n 133 || eqb n 8232 || eqb n 8233

unfoldable pub with_first : Char → List String → List String
with_first c [] = String.◌∷◌ c "" ∷ []
with_first c (line ∷ lines) = String.◌∷◌ c line ∷ lines

-- text.splitlines(), behind a carriage return or not
unfoldable pub lines_of : Bool → String → List String
unfolding is_line_break with_first
lines_of after_return String.[] = []
lines_of after_return (String.◌∷◌ c s) =
    let skipped = lines_of false s in
    let next = lines_of (eqb (code c) 13) s in
    if after_return && eqb (code c) 10
    then skipped
    else if is_line_break c
    then "" ∷ next
    else with_first c skipped

-- line.partition("=")
unfoldable pub before_equals : String → String
before_equals String.[] = ""
before_equals (String.◌∷◌ c s) =
    let rest = before_equals s in if eqb (code c) b'=' then "" else String.◌∷◌ c rest

unfoldable pub after_equals : String → String
after_equals String.[] = ""
after_equals (String.◌∷◌ c s) = let rest = after_equals s in if eqb (code c) b'=' then s else rest

unfoldable pub has_equals : String → Bool
has_equals String.[] = false
has_equals (String.◌∷◌ c s) = eqb (code c) b'=' || has_equals s

-- value.strip("'\"")
unfoldable pub strip_quotes : Unicode → String → String
strip_quotes u s = strip (record u { is_space = λ c. eqb (code c) 39 || eqb (code c) 34 }) s

-- the name and the value of a line that has them
unfoldable pub assignment : Unicode → String → Option (String × String)
unfolding before_equals after_equals has_equals strip_quotes
assignment u line =
    let stripped = strip u line in
    if is_empty stripped || has_prefix "#" stripped || not (has_equals stripped)
    then none
    else some (strip u (before_equals stripped), strip_quotes u (strip u (after_equals stripped)))

-- the assignments of the lines, in their order
unfoldable pub assignments : Unicode → List String → List (String × String)
unfolding assignment
assignments u [] = []
assignments u (line ∷ lines) = elim (assignment u line) [
  | none ↦ assignments u lines
  | some a ↦ a ∷ assignments u lines
]

unfoldable pub file_lines : String → List String
unfolding lines_of
file_lines text = lines_of false text

-- os.environ.setdefault(key, value); none is an OSError or a ValueError
set_default : (String → String → Bool) → String × String → Environ → Option Environ
set_default accepts (key, value) env = elim (get key env) [
  | some old ↦ some env
  | none ↦ if accepts key value then some (put key value env) else none
]

load_entries : (String → String → Bool) → List (String × String) → Environ → Option Environ
unfolding set_default
load_entries accepts [] env = some env
load_entries accepts (a ∷ entries) env = elim (set_default accepts a env) [
  | none ↦ none
  | some env' ↦ load_entries accepts entries env'
]

-- of the text of the file, where there is one
unfoldable pub load_dotenv :
    Unicode → (String → String → Bool) → Option String → Environ → Option Environ
unfolding load_entries assignments file_lines
load_dotenv u accepts none env = some env
load_dotenv u accepts (some text) env = load_entries accepts (assignments u (file_lines text)) env

abbrev pub given : Unicode → Option String → List (String × String)
given u none = []
given u (some text) = assignments u (file_lines text)

abbrev pub AreAccepted : (String → String → Bool) → List (String × String) → Type 0
AreAccepted accepts entries = All (λ (e : String × String). accepts e.0 e.1 ≡ true) entries

abbrev Loads : Option Environ → Environ → List (String × String) → Type 0
Loads result env entries =
    (env' : Environ) × (result ≡ some env')
    × ((key : String) → get key env' ≡ or_else (get key env) (get key entries))

set_default-Loads :
    (accepts : String → String → Bool) (a : String × String) (env : Environ)
    → accepts a.0 a.1 ≡ true
    → Loads (set_default accepts a env) env (a ∷ [])
unfolding set_default
set_default-Loads accepts (key, value) env ok = elim (Option-cases (get key env)) [
  | inl missing ↦ (
    put key value env,
    rw (missing, ok, set_default) refl,
    λ j. get-put key j value env ∙ put_missing key value env j missing,
  )
  | inr (old, there) ↦
      (env, rw (there, set_default) refl, λ j. keep_there key value env j old there)
]

load_entries-Loads :
    (accepts : String → String → Bool) (entries : List (String × String)) (env : Environ)
    → AreAccepted accepts entries
    → Loads (load_entries accepts entries env) env entries
unfolding load_entries get
load_entries-Loads accepts [] env ok = (env, refl, λ j. or_else-none (get j env))
load_entries-Loads accepts (a ∷ entries) env ok =
    let (next, loaded, got) = set_default-Loads accepts a env ok.0 in
    let (last, finished, rest) = load_entries-Loads accepts entries next ok.1 in
    (
      last,
      rw (loaded, load_entries) finished,
      λ j.
          rest j
          ∙ ap (λ o. or_else o (get j entries)) (got j)
          ∙ or_else-get a entries j (get j env),
    )

-- Where the system takes the assignments of the file, loading it succeeds, and a name then has the
-- value that it had in the environment, or else the first that the file gives it, or none.
pub load_dotenv-Loads :
    (u : Unicode) (accepts : String → String → Bool) (file : Option String) (env : Environ)
    → AreAccepted accepts (given u file)
    → (env' : Environ) × (load_dotenv u accepts file env ≡ some env')
      × ((key : String) → get key env' ≡ or_else (get key env) (get key (given u file)))
unfolding load_dotenv get
load_dotenv-Loads u accepts none env ok = (env, refl, λ key. or_else-none (get key env))
load_dotenv-Loads u accepts (some text) env ok =
    load_entries-Loads accepts (assignments u (file_lines text)) env ok
