-- ===== src/Base/Dict/Distinct.antt =====
-- Dictionaries whose keys are distinct, as Python's are.
use mathlib.Core.List.{List, [], ◌∷◌}
use mathlib.Core.Logic.{inl, inr}
use mathlib.Core.Option.{none}
use mathlib.Core.Path.{◌≡◌, refl, ◌∙◌}
use native.Mathlib.Omega.{arith}
use text.Mathlib.Text.{◌==◌}
use text.Mathlib.TextEquality.{eq_iff}
use Prim.Native.String.{String}
use eu_rag.Base.Tests.{Bool-cases}
use eu_rag.Base.Dict.{get, put, remove, get-put, get-remove}

module _ {V : Type 0} where
  abbrev pub IsDistinct : List (String × V) → Type 0
  IsDistinct [] = Unit
  IsDistinct ((k, v) ∷ d) = (get k d ≡ none) × IsDistinct d

  pub put-IsDistinct :
      (k : String) (v : V) (d : List (String × V)) → IsDistinct d → IsDistinct (put k v d)
  unfolding put get
  put-IsDistinct k v [] h = (refl, tt)
  put-IsDistinct k v ((j, w) ∷ d) (fresh, h) = elim (Bool-cases (j == k)) [
    | inl same ↦ rw same (fresh, h)
    | inr other ↦
        rw other (get-put k j v d ∙ ground (arith, eq_iff j k, eq_iff k j), put-IsDistinct k v d h)
  ]

  pub remove-IsDistinct :
      (k : String) (d : List (String × V)) → IsDistinct d → IsDistinct (remove k d)
  unfolding remove get
  remove-IsDistinct k [] h = tt
  remove-IsDistinct k ((j, w) ∷ d) (fresh, h) = elim (Bool-cases (j == k)) [
    | inl same ↦ rw same (remove-IsDistinct k d h)
    | inr other ↦ rw other (get-remove k j d ∙ ground arith, remove-IsDistinct k d h)
  ]

  pub remove_miss : (k : String) (d : List (String × V)) → get k d ≡ none → remove k d ≡ d
  unfolding remove get
  remove_miss k [] h = refl
  remove_miss k ((j, w) ∷ d) h = ground (arith, remove_miss k d)
