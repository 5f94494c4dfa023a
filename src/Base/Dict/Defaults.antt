-- ===== src/Base/Dict/Defaults.antt =====
-- `d.setdefault(k, v)`: what is there stays.
use Prim.Native.String.{String}
use mathlib.Core.List.{List, [], ◌∷◌}
use mathlib.Core.Logic.{inl, inr}
use mathlib.Core.Option.{Option, none, some}
use mathlib.Core.Path.{◌≡◌, refl, subst, ◌∙◌}
use native.Mathlib.Omega.{arith}
use text.Mathlib.Text.{◌==◌}
use text.Mathlib.TextEquality.{eq_iff}
use eu_rag.Base.Tests.{if◌then◌else◌, Bool-cases, Option-cases}
use eu_rag.Base.Dict.{get, put, get-put}

abbrev pub or_else : {A : Type 0} → Option A → Option A → Option A
or_else none other = other
or_else (some a) other = some a

get-one :
    (key j : String) (value : String)
    → get j ((key, value) ∷ []) ≡ (if key == j then some value else none)
unfolding get
get-one key j value = refl

module _ (key value : String) (env : List (String × String)) (j : String) where
  pub put_missing :
      get key env ≡ none
      → (if key == j then some value else get j env)
        ≡ or_else (get j env) (get j ((key, value) ∷ []))
  put_missing missing = elim (Bool-cases (key == j)) [
    | inl same ↦
        let here : get j env ≡ none =
          subst (λ k. get k env ≡ none) ((eq_iff key j).0 same) missing in
        rw (get-one key j value, same, here) refl
    | inr other ↦ elim (Option-cases (get j env)) [
      | inl none_there ↦ rw (get-one key j value, other, none_there) refl
      | inr (w, there) ↦ rw (other, there) refl
    ]
  ]

  pub keep_there :
      (old : String)
      → get key env ≡ some old
      → get j env ≡ or_else (get j env) (get j ((key, value) ∷ []))
  keep_there old there = elim (Option-cases (get j env)) [
    | inl none_there ↦ elim (Bool-cases (key == j)) [
      | inl same ↦
          let here : get j env ≡ some old =
            subst (λ k. get k env ≡ some old) ((eq_iff key j).0 same) there in
          cc
      | inr other ↦ rw (get-one key j value, other, none_there) refl
    ]
    | inr (w, found) ↦ rw found refl
  ]

pub or_else-get :
    (a : String × String) (rest : List (String × String)) (j : String) (o : Option String)
    → or_else (or_else o (get j (a ∷ []))) (get j rest) ≡ or_else o (get j (a ∷ rest))
unfolding get
or_else-get (key, value) rest j none = ground arith
or_else-get (key, value) rest j (some w) = refl

pub or_else-none : (o : Option String) → o ≡ or_else o none
or_else-none none = refl
or_else-none (some w) = refl

unfoldable pub set_default : String → String → List (String × String) → List (String × String)
set_default key value d = elim (get key d) [ none ↦ put key value d | some old ↦ d ]

pub get-set_default :
    (key value : String) (d : List (String × String)) (j : String)
    → get j (set_default key value d) ≡ or_else (get j d) (get j ((key, value) ∷ []))
unfolding set_default
get-set_default key value d j = elim (Option-cases (get key d)) [
  | inl missing ↦
      rw (missing, set_default) (get-put key j value d ∙ put_missing key value d j missing)
  | inr (old, there) ↦ rw (there, set_default) (keep_there key value d j old there)
]
