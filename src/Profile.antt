-- ===== src/Profile.antt =====
-- core/profile.py: the asker's business context, four fields over closed vocabularies.
pub mod Laws
use eu_rag.Base.{
  String, Bool, true, false, ◌||◌, Option, none, some, List, [], ◌∷◌, ◌++◌, ◌==◌, if◌then◌else◌,
}
use eu_rag.Base.Text.{◌<>◌, is_empty, join}

-- a value that a client may send, and the fragment that the prompt has for it
abbrev pub Vocabulary : Type 0
Vocabulary = List (String × String)

abbrev pub countries : Vocabulary
countries =
    ("AT", "Austria")
    ∷ ("BE", "Belgium")
    ∷ ("BG", "Bulgaria")
    ∷ ("HR", "Croatia")
    ∷ ("CY", "Cyprus")
    ∷ ("CZ", "Czechia")
    ∷ ("DK", "Denmark")
    ∷ ("EE", "Estonia")
    ∷ ("FI", "Finland")
    ∷ ("FR", "France")
    ∷ ("DE", "Germany")
    ∷ ("GR", "Greece")
    ∷ ("HU", "Hungary")
    ∷ ("IE", "Ireland")
    ∷ ("IT", "Italy")
    ∷ ("LV", "Latvia")
    ∷ ("LT", "Lithuania")
    ∷ ("LU", "Luxembourg")
    ∷ ("MT", "Malta")
    ∷ ("NL", "the Netherlands")
    ∷ ("PL", "Poland")
    ∷ ("PT", "Portugal")
    ∷ ("RO", "Romania")
    ∷ ("SK", "Slovakia")
    ∷ ("SI", "Slovenia")
    ∷ ("ES", "Spain")
    ∷ ("SE", "Sweden")
    ∷ ("non_eu", "a country outside the EU")
    ∷ []

abbrev pub sizes : Vocabulary
sizes =
    ("micro", "a micro business (fewer than 10 people)")
    ∷ ("small", "a small business (10-49 people)")
    ∷ ("medium", "a medium-sized business (50-249 people)")
    ∷ ("large", "a large business (250 or more people)")
    ∷ []

abbrev pub sectors : Vocabulary
sectors =
    ("software", "software and IT services")
    ∷ ("manufacturing", "manufacturing")
    ∷ ("retail", "retail and e-commerce")
    ∷ ("food", "food and drink")
    ∷ ("healthcare", "healthcare and life sciences")
    ∷ ("finance", "financial services")
    ∷ ("professional", "professional services")
    ∷ ("construction", "construction")
    ∷ ("transport", "transport and logistics")
    ∷ ("energy", "energy and utilities")
    ∷ ("education", "education and training")
    ∷ ("media", "creative industries and media")
    ∷ ("agriculture", "agriculture")
    ∷ ("hospitality", "hospitality and tourism")
    ∷ ("other", "a sector outside the usual categories")
    ∷ []

abbrev pub ai_roles : Vocabulary
ai_roles =
    ("none", "reports that it does not currently use AI systems")
    ∷ (
      "deployer",
      "uses AI systems supplied by others (a \"deployer\" in AI Act terms, not a \"provider\")",
    )
    ∷ (
      "provider",
      "develops, rebrands or places AI systems on the market (a \"provider\" in AI Act terms rather than a \"deployer\")",
    )
    ∷ []

pub record BusinessProfile : Type 0 where
  pub country : Option String
  pub size : Option String
  pub sector : Option String
  pub ai_role : Option String

-- `BusinessProfile()`
abbrev pub empty_profile : BusinessProfile
empty_profile = record { country = none; size = none; sector = none; ai_role = none }

-- a field that is None or "" is false
abbrev pub is_set : Option String → Bool
is_set none = false
is_set (some s) = if is_empty s then false else true

-- `is_empty` of the class
unfoldable pub is_blank : BusinessProfile → Bool
is_blank p =
    if is_set p.country || is_set p.size || is_set p.sector || is_set p.ai_role then false else true

-- `d[value]`, where `value in d`
unfoldable pub fragment : Vocabulary → String → Option String
fragment [] value = none
fragment ((k, v) ∷ d) value = if k == value then some v else fragment d value

-- a value that is None is in no vocabulary
unfoldable pub fragment_of : Vocabulary → Option String → Option String
fragment_of d none = none
fragment_of d (some value) = fragment d value

clause : String → Option String → List String
clause lead none = []
clause lead (some f) = (lead <> f) ∷ []

unfoldable pub clauses : Option String → Option String → Option String → Option String → List String
unfolding clause
clauses size sector country ai_role =
    clause "" size
    ++ (clause "operating in " sector ++ (clause "based in " country ++ clause "" ai_role))

abbrev context_lead : String
context_lead = "Context about the asker, supplied by them and NOT drawn from the sources: "

abbrev context_tail : String
context_tail =
    ".\n\nUse this only to judge which parts of the sources are relevant and how to frame the answer. It is not evidence. Never state that an obligation, threshold or exemption applies to them unless a cited source supports it, and say plainly when the sources do not cover their situation. Where a size category in EU law also turns on turnover or balance-sheet totals, headcount alone does not settle it. If the sources do not answer the question for this asker, say so — their profile is never a substitute for a source.\n\n"

abbrev pub sentence : List String → String
sentence [] = ""
sentence (c ∷ cs) = context_lead <> join "; " (c ∷ cs) <> context_tail

unfoldable pub describe : BusinessProfile → String
unfolding clauses
describe p = sentence (
    clauses (fragment_of sizes p.size) (fragment_of sectors p.sector)
      (fragment_of countries p.country) (fragment_of ai_roles p.ai_role))

-- the dictionary of `to_dict`, by its keys
abbrev pub ProfileDict : Type 0
ProfileDict = List (String × Option String)

unfoldable pub to_dict : BusinessProfile → ProfileDict
to_dict p =
    ("country", p.country) ∷ ("size", p.size) ∷ ("sector", p.sector) ∷ ("ai_role", p.ai_role) ∷ []

-- data.get(key)
unfoldable pub get_key : String → ProfileDict → Option String
get_key key [] = none
get_key key ((k, v) ∷ d) = if k == key then v else get_key key d

unfoldable pub from_dict : Option ProfileDict → BusinessProfile
unfolding get_key
from_dict none = empty_profile
from_dict (some d) = record {
  country = get_key "country" d;
  size = get_key "size" d;
  sector = get_key "sector" d;
  ai_role = get_key "ai_role" d;
}

summary_part : String → Option String → List String
summary_part name none = []
summary_part name (some v) = if is_empty v then [] else (name <> "=" <> v) ∷ []

summary : List String → String
summary [] = "none"
summary (s ∷ parts) = join "," (s ∷ parts)

unfoldable pub log_summary : BusinessProfile → String
unfolding summary_part summary
log_summary p = summary (
    summary_part "country" p.country
    ++ (summary_part "size" p.size
        ++ (summary_part "sector" p.sector ++ summary_part "ai" p.ai_role)))
