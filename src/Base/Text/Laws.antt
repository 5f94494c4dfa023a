-- ===== src/Base/Text/Laws.antt =====
-- Laws of the operations on texts.
use Prim.Native.Char.{Char}
use Prim.Native.Nat.{ℕ, zero, suc, ◌≤◌}
use Prim.Native.String.{String}
use mathlib.Core.Bool.{true, false}
use mathlib.Core.Path.{◌≡◌, refl, ap}
use native.Mathlib.Omega.{arith}
use eu_rag.Base.Text.{Unicode, ◌<>◌, count, take, has_prefix, is_empty, rstrip}

pub count-take-le : (n : ℕ) (s : String) → count (take n s) ≤ n
count-take-le zero s = omega arith
count-take-le (suc n) String.[] = omega arith
count-take-le (suc n) (String.◌∷◌ c s) = omega (arith, count-take-le n s)

pub append_assoc : (r s t : String) → (r <> s) <> t ≡ r <> (s <> t)
unfolding ◌<>◌
append_assoc String.[] s t = refl
append_assoc (String.◌∷◌ c r) s t = ap (String.◌∷◌ c) (append_assoc r s t)

is_empty-append : (r : String) (c : Char) (s : String) → is_empty (r <> String.◌∷◌ c s) ≡ false
unfolding ◌<>◌
is_empty-append String.[] c s = refl
is_empty-append (String.◌∷◌ d r) c s = refl

pub has_prefix-append : (p s : String) → has_prefix p (p <> s) ≡ true
unfolding ◌<>◌
has_prefix-append String.[] s = refl
has_prefix-append (String.◌∷◌ c p) s = ground (arith, has_prefix-append p s)

-- s[n:]
abbrev pub drop_text : ℕ → String → String
drop_text zero s = s
drop_text (suc n) String.[] = ""
drop_text (suc n) (String.◌∷◌ c s) = drop_text n s

pub drop_text-append : (p s : String) → drop_text (count p) (p <> s) ≡ s
unfolding ◌<>◌
drop_text-append String.[] s = refl
drop_text-append (String.◌∷◌ c p) s = drop_text-append p s

module _ (u : Unicode) where
  pub count-rstrip-le : (s : String) → count (rstrip u s) ≤ count s
  unfolding rstrip
  count-rstrip-le String.[] = omega arith
  count-rstrip-le (String.◌∷◌ c s) = ground (arith, count-rstrip-le s)

  -- what stands up to a character that is no white space survives the strip of the right end
  pub rstrip-append :
      (r : String) (c : Char) (s : String)
      → u.is_space c ≡ false
      → rstrip u (r <> String.◌∷◌ c s) ≡ r <> String.◌∷◌ c (rstrip u s)
  unfolding rstrip ◌<>◌
  rstrip-append String.[] c s h = ground arith
  rstrip-append (String.◌∷◌ d r) c s h = rw (rstrip-append r c s h, is_empty-append) refl
