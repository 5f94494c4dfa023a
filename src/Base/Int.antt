-- ===== src/Base/Int.antt =====
-- Python's integers, where they may be negative, and the `int` of a text.
use Prim.Native.Char.{code}
use Prim.Native.Nat.{ℕ, zero, suc, ◌+◌, ◌*◌}
use Prim.Native.String.{String}
use mathlib.Core.Bool.{Bool, true, false, ◌&&◌}
use mathlib.Core.Option.{Option, none, some}
use eu_rag.Base.Tests.{if◌then◌else◌, eqb, leb}
use eu_rag.Base.Text.{Unicode, strip}

-- n, and -(n + 1)
pub data ℤ : Type 0 where
  pos : ℕ → ℤ
  negsuc : ℕ → ℤ

abbrev pub negate : ℕ → ℤ
negate zero = pos zero
negate (suc n) = negsuc n

module _ (u : Unicode) where
  -- The digits, with single underscores between them, of which `int` reads at most 4300: `after` is
  -- whether a digit stands before, `n` the digits so far.
  digits_of : Bool → ℕ → ℕ → String → Option ℕ
  digits_of after n value String.[] = if after && leb n 4300 then some value else none
  digits_of after n value (String.◌∷◌ c s) = elim (u.digit c) [
    | some d ↦ digits_of true (suc n) (value * 10 + d) s
    | none ↦ elim (eqb (code c) b'_' && after) [ true ↦ digits_of false n value s | false ↦ none ]
  ]

  signed : (ℕ → ℤ) → Option ℕ → Option ℤ
  signed sign none = none
  signed sign (some n) = some (sign n)

  unsigned : String → Option ℤ
  unfolding digits_of signed
  unsigned s = signed pos (digits_of false 0 0 s)

  number_of : String → Option ℤ
  unfolding unsigned
  number_of String.[] = none
  number_of (String.◌∷◌ c s) =
      if eqb (code c) b'-'
      then signed negate (digits_of false 0 0 s)
      else if eqb (code c) b'+'
      then unsigned s
      else unsigned (String.◌∷◌ c s)

  -- none is the ValueError
  unfoldable pub int_of : String → Option ℤ
  unfolding number_of
  int_of s = number_of (strip u s)
