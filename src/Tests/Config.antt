-- ===== src/Tests/Config.antt =====
-- The configuration.
use eu_rag.Base.{◌≡◌, refl, String, true, none, some, [], ◌∷◌}
use eu_rag.Base.Dict.{get}
use eu_rag.Base.Dict.Defaults.{or_else}
use eu_rag.Base.Int.{pos, negsuc, int_of}
use eu_rag.Base.Text.{strip}
use eu_rag.Config.{Environ}
use eu_rag.Config.Dotenv.{
  assignments, file_lines, load_dotenv, given, AreAccepted, load_dotenv-Loads, is_line_break,
  with_first, before_equals, after_equals, has_equals, strip_quotes,
}
use eu_rag.Tests.Sample.{ascii}

abbrev dotenv : String
dotenv = "# local\nEURAG_TOP_K = '8'\n\nEURAG_TOP_K=9\nbroken"

assigned : assignments ascii (file_lines dotenv) ≡ ("EURAG_TOP_K", "8") ∷ ("EURAG_TOP_K", "9") ∷ []
unfolding assignments file_lines is_line_break with_first strip before_equals after_equals
    has_equals strip_quotes
assigned = refl

whole : int_of ascii " +1_000 " ≡ some (pos 1000)
unfolding int_of strip
whole = refl

negative : int_of ascii "-2" ≡ some (negsuc 1)
unfolding int_of strip
negative = refl

no_number : int_of ascii "1__0" ≡ none
unfolding int_of strip
no_number = refl

abbrev shell : Environ
shell = ("EURAG_AUTH_ENABLED", "yes") ∷ []

accepted : AreAccepted (λ key value. true) (given ascii (some dotenv))
unfolding assignments file_lines is_line_break with_first strip before_equals after_equals
    has_equals strip_quotes
accepted = (refl, (refl, tt))

load_dotenv-Loads_example :
    (env : Environ) × (load_dotenv ascii (λ key value. true) (some dotenv) shell ≡ some env)
    × ((key : String) → get key env ≡ or_else (get key shell) (get key (given ascii (some dotenv))))
load_dotenv-Loads_example = load_dotenv-Loads ascii (λ key value. true) (some dotenv) shell accepted
