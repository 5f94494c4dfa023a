-- ===== src/Base/Text.antt =====
-- Python's `str`: a native text, walked character by character where the program does so. What
-- Python reads off its Unicode tables is the parameter `Unicode`.
pub mod Laws
pub mod Decimal
use Prim.Native.Char.{Char, code}
use Prim.Native.Nat.{ℕ, zero, suc, ◌+◌, ◌-◌, ◌/◌, ◌%◌}
use Prim.Native.String
use Prim.Native.String.{String}
use mathlib.Core.Bool.{Bool, true, false, ◌&&◌, ◌||◌}
use mathlib.Core.List.{List, [], ◌∷◌}
use mathlib.Core.Option.{Option, none, some}
use mathlib.Core.Path.{◌≡◌}
use text.Mathlib.Text.{◌==◌}
use eu_rag.Base.Tests.{ltb, eqb, if◌then◌else◌}

pub record Unicode : Type 0 where
  -- what `str.strip()` and `str.split()` take for white space
  pub is_space : Char → Bool
  -- `str.isalnum()` of one character
  pub is_alnum : Char → Bool
  -- the value of what `\d` matches and `int()` reads
  pub digit : Char → Option ℕ
  pub lower : String → String
  pub upper : String → String

infixr 66 ◌<>◌
unfoldable pub ◌<>◌ : String → String → String
String.[] <> t = t
(String.◌∷◌ c s) <> t = String.◌∷◌ c (s <> t)

-- len(s)
abbrev pub count : String → ℕ
count String.[] = 0
count (String.◌∷◌ c s) = suc (count s)

-- s[:n]
abbrev pub take : ℕ → String → String
take zero s = ""
take (suc n) String.[] = ""
take (suc n) (String.◌∷◌ c s) = String.◌∷◌ c (take n s)

abbrev pub is_empty : String → Bool
is_empty String.[] = true
is_empty (String.◌∷◌ c s) = false

-- s.startswith(p), with the prefix first
abbrev pub has_prefix : String → String → Bool
has_prefix String.[] s = true
has_prefix (String.◌∷◌ c p) String.[] = false
has_prefix (String.◌∷◌ c p) (String.◌∷◌ d s) = eqb (code c) (code d) && has_prefix p s

-- p in s
unfoldable pub contains : String → String → Bool
contains p String.[] = is_empty p
contains p (String.◌∷◌ c s) = has_prefix p (String.◌∷◌ c s) || contains p s

-- The scan of s.replace(p, ""), for a `p` that is not empty: `skip` characters belong to the
-- occurrence that was met last.
unfoldable pub remove_from : String → ℕ → String → String
remove_from p skip String.[] = ""
remove_from p (suc skip) (String.◌∷◌ c s) = remove_from p skip s
remove_from p zero (String.◌∷◌ c s) =
    let rest = String.◌∷◌ c (remove_from p zero s) in
    let cut = remove_from p (count p - 1) s in if has_prefix p (String.◌∷◌ c s) then cut else rest

-- sep.join(parts)
unfoldable pub join : String → List String → String
join sep [] = ""
join sep (s ∷ []) = s
join sep (s ∷ t ∷ rest) = s <> sep <> join sep (t ∷ rest)

abbrev digit_text : ℕ → String
digit_text zero = "0"
digit_text (suc zero) = "1"
digit_text (suc (suc zero)) = "2"
digit_text (suc (suc (suc zero))) = "3"
digit_text (suc (suc (suc (suc zero)))) = "4"
digit_text (suc (suc (suc (suc (suc zero))))) = "5"
digit_text (suc (suc (suc (suc (suc (suc zero)))))) = "6"
digit_text (suc (suc (suc (suc (suc (suc (suc zero))))))) = "7"
digit_text (suc (suc (suc (suc (suc (suc (suc (suc zero)))))))) = "8"
digit_text _ = "9"

decimal_from : ℕ → ℕ → String
decimal_from zero n = ""
decimal_from (suc fuel) n =
    let front = decimal_from fuel (n / 10) in
    if ltb n 10 then digit_text n else front <> digit_text (n % 10)

-- str(n). A number has no more digits than its value and one.
unfoldable pub decimal : ℕ → String
unfolding decimal_from
decimal n = decimal_from (suc n) n

module _ (u : Unicode) where
  -- s.rstrip()
  unfoldable pub rstrip : String → String
  rstrip String.[] = ""
  rstrip (String.◌∷◌ c s) =
      let rest = rstrip s in if is_empty rest && u.is_space c then "" else String.◌∷◌ c rest

  -- s.lstrip()
  unfoldable pub lstrip : String → String
  lstrip String.[] = ""
  lstrip (String.◌∷◌ c s) = let rest = lstrip s in if u.is_space c then rest else String.◌∷◌ c s

  -- s.strip()
  unfoldable pub strip : String → String
  unfolding rstrip lstrip
  strip s = rstrip (lstrip s)
