-- ===== src/Profile/Laws.antt =====
-- What the profile may put into the trusted region of the prompt.
use eu_rag.Base.{
  String, ◌≡◌, inl, inr, refl, true, Option, none, some, [], ◌∷◌, arith, ◌==◌, Option-cases,
  Bool-cases, any, eq_refl,
}
use eu_rag.Profile.{
  Vocabulary, BusinessProfile, countries, sizes, sectors, ai_roles, fragment, fragment_of, clauses,
  sentence, describe, to_dict, from_dict,
}

-- `describe` keeps only what the vocabularies know of each field.
pub known : Vocabulary → Option String → Option String
known d none = none
known d (some value) = elim (fragment d value) [ none ↦ none | some f ↦ some value ]

pub known_profile : BusinessProfile → BusinessProfile
known_profile p = record {
  country = known countries p.country;
  size = known sizes p.size;
  sector = known sectors p.sector;
  ai_role = known ai_roles p.ai_role;
}

fragment_of-known :
    (d : Vocabulary) (o : Option String) → fragment_of d (known d o) ≡ fragment_of d o
unfolding known fragment_of
fragment_of-known d none = refl
fragment_of-known d (some value) = elim (Option-cases (fragment d value)) [
  | inl unknown ↦ ground arith
  | inr (f, hit) ↦ ground arith
]

-- A field whose value is in no vocabulary puts nothing into the prompt: the sentence is that of
-- the profile with every such field removed.
pub describe-known : (p : BusinessProfile) → describe p ≡ describe (known_profile p)
unfolding describe known_profile
describe-known p =
    rw
      (
        fragment_of-known sizes,
        fragment_of-known sectors,
        fragment_of-known countries,
        fragment_of-known ai_roles,
      )
      refl

-- a fragment that the vocabulary holds, or none
abbrev pub IsEntry : Vocabulary → Option String → Type 0
IsEntry d none = Unit
IsEntry d (some f) = any (λ e. e.1 == f) d ≡ true

fragment-IsEntry : (d : Vocabulary) (value : String) → IsEntry d (fragment d value)
unfolding fragment
fragment-IsEntry [] value = tt
fragment-IsEntry ((k, v) ∷ d) value = elim (Bool-cases (k == value)) [
  | inl here ↦ rw here (rw (eq_refl v) refl)
  | inr there ↦ rw there (IsEntry-cons d (k, v) (fragment d value) (fragment-IsEntry d value))
]
  where
    IsEntry-cons :
        (d : Vocabulary) (e : String × String) (o : Option String) → IsEntry d o → IsEntry (e ∷ d) o
    IsEntry-cons d e none h = tt
    IsEntry-cons d e (some f) h = ground arith

fragment_of-IsEntry : (d : Vocabulary) (o : Option String) → IsEntry d (fragment_of d o)
unfolding fragment_of
fragment_of-IsEntry d none = tt
fragment_of-IsEntry d (some value) = fragment-IsEntry d value

-- Whatever strings a profile holds, the prompt's sentence is built of the program's own fragments:
-- one of each vocabulary at most.
pub describe-IsEntry :
    (p : BusinessProfile)
    → (size sector country ai_role : Option String) × (describe p
        ≡ sentence (clauses size sector country ai_role))
      × IsEntry sizes size
      × IsEntry sectors sector
      × IsEntry countries country
      × IsEntry ai_roles ai_role
unfolding describe
describe-IsEntry p = (
  fragment_of sizes p.size,
  fragment_of sectors p.sector,
  fragment_of countries p.country,
  fragment_of ai_roles p.ai_role,
  refl,
  fragment_of-IsEntry sizes p.size,
  fragment_of-IsEntry sectors p.sector,
  fragment_of-IsEntry countries p.country,
  fragment_of-IsEntry ai_roles p.ai_role,
)

-- A profile comes back from its dictionary.
pub from_dict-to_dict : (p : BusinessProfile) → from_dict (some (to_dict p)) ≡ p
unfolding from_dict to_dict
from_dict-to_dict p = refl
