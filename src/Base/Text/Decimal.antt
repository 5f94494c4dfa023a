-- ===== src/Base/Text/Decimal.antt =====
-- Laws of `str` of a number.
use Prim.Native.Char.{code}
use Prim.Native.Nat.{ℕ, zero, suc, ◌+◌, ◌-◌, ◌*◌, ◌/◌, ◌%◌, ◌<◌}
use Prim.Native.String.{String}
use mathlib.Core.Bool.{false}
use mathlib.Core.Logic.{inl, inr}
use mathlib.Core.Path.{◌≡◌, refl, sym, ap, ◌∙◌}
use native.Mathlib.Omega.{arith}
use eu_rag.Base.Tests.{ltb, eqb, Bool-cases}
use eu_rag.Base.Text.{◌<>◌, digit_text, decimal_from, decimal}

-- the number that a text of digits writes, behind those that were read
pub value : ℕ → String → ℕ
value n String.[] = n
value n (String.◌∷◌ c s) = value (n * 10 + (code c - 48)) s

value-append : (n : ℕ) (s t : String) → value n (s <> t) ≡ value (value n s) t
unfolding value ◌<>◌
value-append n String.[] t = refl
value-append n (String.◌∷◌ c s) t = value-append (n * 10 + (code c - 48)) s t

value-digit_text : (m n : ℕ) → n < 10 → value m (digit_text n) ≡ m * 10 + n
unfolding value
value-digit_text m zero h = refl
value-digit_text m (suc zero) h = refl
value-digit_text m (suc (suc zero)) h = refl
value-digit_text m (suc (suc (suc zero))) h = refl
value-digit_text m (suc (suc (suc (suc zero)))) h = refl
value-digit_text m (suc (suc (suc (suc (suc zero))))) h = refl
value-digit_text m (suc (suc (suc (suc (suc (suc zero)))))) h = refl
value-digit_text m (suc (suc (suc (suc (suc (suc (suc zero))))))) h = refl
value-digit_text m (suc (suc (suc (suc (suc (suc (suc (suc zero)))))))) h = refl
value-digit_text m (suc (suc (suc (suc (suc (suc (suc (suc (suc n))))))))) h = omega arith

value-decimal_from : (fuel n : ℕ) → n < fuel → value 0 (decimal_from fuel n) ≡ n
unfolding decimal_from
value-decimal_from zero n h = absurd (omega arith)
value-decimal_from (suc fuel) n h = elim (Bool-cases (ltb n 10)) [
  | inl short ↦ rw short (value-digit_text 0 n (ground arith) ∙ omega arith)
  | inr long ↦ rw long (
      value-append 0 (decimal_from fuel (n / 10)) (digit_text (n % 10))
      ∙ value-digit_text (value 0 (decimal_from fuel (n / 10))) (n % 10) (omega arith)
      ∙ ap (λ m. m * 10 + n % 10) (value-decimal_from fuel (n / 10) (ground arith))
      ∙ omega arith)
]

-- The decimals of a number read back as the number.
pub value-decimal : (n : ℕ) → value 0 (decimal n) ≡ n
unfolding decimal
value-decimal n = value-decimal_from (suc n) n (omega arith)

pub decimal_inj : (m n : ℕ) → decimal m ≡ decimal n → m ≡ n
decimal_inj m n e = sym (value-decimal m) ∙ ap (value 0) e ∙ value-decimal n

-- no character of a text has the code
abbrev pub Lacks : ℕ → String → Type 0
Lacks n String.[] = Unit
Lacks n (String.◌∷◌ c s) = (eqb (code c) n ≡ false) × Lacks n s

Lacks-append : (n : ℕ) (s t : String) → Lacks n s → Lacks n t → Lacks n (s <> t)
unfolding ◌<>◌
Lacks-append n String.[] t hs ht = ht
Lacks-append n (String.◌∷◌ c s) t hs ht = (hs.0, Lacks-append n s t hs.1 ht)

digit_text-Lacks : (n : ℕ) → Lacks b':' (digit_text n)
digit_text-Lacks zero = (refl, tt)
digit_text-Lacks (suc zero) = (refl, tt)
digit_text-Lacks (suc (suc zero)) = (refl, tt)
digit_text-Lacks (suc (suc (suc zero))) = (refl, tt)
digit_text-Lacks (suc (suc (suc (suc zero)))) = (refl, tt)
digit_text-Lacks (suc (suc (suc (suc (suc zero))))) = (refl, tt)
digit_text-Lacks (suc (suc (suc (suc (suc (suc zero)))))) = (refl, tt)
digit_text-Lacks (suc (suc (suc (suc (suc (suc (suc zero))))))) = (refl, tt)
digit_text-Lacks (suc (suc (suc (suc (suc (suc (suc (suc zero)))))))) = (refl, tt)
digit_text-Lacks (suc (suc (suc (suc (suc (suc (suc (suc (suc n))))))))) = (refl, tt)

decimal_from-Lacks : (fuel n : ℕ) → Lacks b':' (decimal_from fuel n)
unfolding decimal_from
decimal_from-Lacks zero n = tt
decimal_from-Lacks (suc fuel) n = elim (Bool-cases (ltb n 10)) [
  | inl short ↦ rw short (digit_text-Lacks n)
  | inr long ↦ rw long (
      Lacks-append b':' (decimal_from fuel (n / 10)) (digit_text (n % 10))
        (decimal_from-Lacks fuel (n / 10)) (digit_text-Lacks (n % 10)))
]

-- The decimals of a number hold no colon.
pub decimal-Lacks : (n : ℕ) → Lacks b':' (decimal n)
unfolding decimal
decimal-Lacks n = decimal_from-Lacks (suc n) n
