-- ===== src/Base/Regex.antt =====
-- Python's `re` as the program uses it: a pattern is a matcher that backtracks, and tries its
-- alternatives in the order of the source. A place in a text is the character before it and what
-- stands behind it.
use Prim.Native.Char.{Char, code}
use Prim.Native.Nat.{ℕ, zero, suc, ◌-◌}
use Prim.Native.String.{String}
use mathlib.Core.Bool.{Bool, true, false, not, ◌&&◌}
use mathlib.Core.List.{List, [], ◌∷◌}
use mathlib.Core.Option.{Option, none, some}
use eu_rag.Base.Tests.{eqb, if◌then◌else◌}
use eu_rag.Base.Text.{◌<>◌, count, take, is_empty}

abbrev pub Place : Type 0
Place = Option Char × String

-- from what matches the rest of the pattern, and a place, to the end of the match
abbrev pub Matcher : Type 0
Matcher = (Place → Option Place) → Place → Option Place

unfoldable pub or_match : Option Place → Option Place → Option Place
or_match (some p) later = some p
or_match none later = later

-- a character of a class
unfoldable pub one : (Char → Bool) → Matcher
one p k (before, String.[]) = none
one p k (before, String.◌∷◌ c s) = if p c then k (some c, s) else none

infixr 20 ◌then_match◌
abbrev pub ◌then_match◌ : Matcher → Matcher → Matcher
◌then_match◌ m n k = m (n k)

-- m?
unfoldable pub maybe : Matcher → Matcher
unfolding or_match
maybe m k at = or_match (m k at) (k at)

-- m{0,n}
unfoldable pub up_to : ℕ → Matcher → Matcher
unfolding or_match
up_to zero m k at = k at
up_to (suc n) m k at = or_match (m (up_to n m k) at) (k at)

-- m{n}
unfoldable pub times : ℕ → Matcher → Matcher
times zero m k at = k at
times (suc n) m k at = m (times n m k) at

-- m{low,high}
abbrev pub between : ℕ → ℕ → Matcher → Matcher
between low high m = times low m then_match up_to (high - low) m

-- m*, of a pattern that matches no empty text: no more often than there are characters
unfoldable pub star : Matcher → Matcher
unfolding up_to
star m k (before, s) = up_to (count s) m k (before, s)

-- m+, m{2,}
abbrev pub plus : Matcher → Matcher
plus m = m then_match star m

-- a test of the character before and of what follows, which takes nothing
unfoldable pub assert : (Option Char → String → Bool) → Matcher
assert p k (before, s) = if p before s then k (before, s) else none

abbrev is_in_front : (Char → Bool) → String → Bool
is_in_front p String.[] = false
is_in_front p (String.◌∷◌ c s) = p c

abbrev pub is_behind : (Char → Bool) → Option Char → Bool
is_behind p none = false
is_behind p (some c) = p c

-- \b, for the class of \w
unfoldable pub boundary : (Char → Bool) → Matcher
unfolding assert
boundary is_word = assert (λ before s.
    if is_behind is_word before then not (is_in_front is_word s) else is_in_front is_word s)

-- (?<=p), (?<!p)
unfoldable pub behind : (Char → Bool) → Matcher
unfolding assert
behind p = assert (λ before s. is_behind p before)

unfoldable pub not_behind : (Char → Bool) → Matcher
unfolding assert
not_behind p = assert (λ before s. not (is_behind p before))

-- $, which also stands in front of a line break that ends the text
unfoldable pub at_end : Matcher
unfolding assert
at_end = assert (λ before s. elim s [
  | String.[] ↦ true
  | String.◌∷◌ c rest ↦ eqb (code c) b'\n' && is_empty rest
])

-- m.match at a place: the end of the match
abbrev pub match_at : Matcher → Place → Option Place
match_at m at = m (λ p. some p) at

abbrev pub matches : Matcher → String → Bool
matches m s = elim (match_at m (none, s)) [ none ↦ false | some p ↦ true ]

abbrev pub push_char : Char → List String → List String
push_char c [] = (String.◌∷◌ c "") ∷ []
push_char c (t ∷ ts) = String.◌∷◌ c t ∷ ts

-- how far a match at a character goes beyond it, if there is one
unfoldable pub length_of_match : Matcher → Option Char → Char → String → Option ℕ
length_of_match m before c s = elim (match_at m (before, String.◌∷◌ c s)) [
  | none ↦ none
  | some (last, rest) ↦ some (count s - count rest)
]

-- The scans of patterns that match no empty text: `skip` characters belong to the match that was
-- met last.
module _ (m : Matcher) where
  find_from : ℕ → Option Char → String → List String
  unfolding length_of_match
  find_from skip before String.[] = []
  find_from (suc skip) before (String.◌∷◌ c s) = find_from skip (some c) s
  find_from zero before (String.◌∷◌ c s) = elim (length_of_match m before c s) [
    | none ↦ find_from zero (some c) s
    | some n ↦ take (suc n) (String.◌∷◌ c s) ∷ find_from n (some c) s
  ]

  -- [x.group() for x in m.finditer(s)]
  unfoldable pub find_all : String → List String
  unfolding find_from
  find_all s = find_from zero none s

  unfoldable pub split_from : ℕ → Option Char → String → List String
  unfolding length_of_match
  split_from skip before String.[] = "" ∷ []
  split_from (suc skip) before (String.◌∷◌ c s) = split_from skip (some c) s
  split_from zero before (String.◌∷◌ c s) = elim (length_of_match m before c s) [
    | none ↦ push_char c (split_from zero (some c) s)
    | some n ↦ "" ∷ split_from n (some c) s
  ]

  -- m.split(s)
  unfoldable pub split : String → List String
  unfolding split_from
  split s = split_from zero none s

  sub_from : String → ℕ → Option Char → String → String
  unfolding length_of_match
  sub_from text skip before String.[] = ""
  sub_from text (suc skip) before (String.◌∷◌ c s) = sub_from text skip (some c) s
  sub_from text zero before (String.◌∷◌ c s) = elim (length_of_match m before c s) [
    | none ↦ String.◌∷◌ c (sub_from text zero (some c) s)
    | some n ↦ text <> sub_from text n (some c) s
  ]

  -- m.sub(text, s)
  unfoldable pub sub : String → String → String
  unfolding sub_from
  sub text s = sub_from text zero none s
