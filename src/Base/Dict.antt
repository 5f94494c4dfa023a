-- ===== src/Base/Dict.antt =====
-- Python's `dict` with text keys, in insertion order: an assignment to a key that is there keeps
-- its place.
pub mod Defaults
pub mod Distinct
use mathlib.Core.Bool.{Bool, true, false}
use mathlib.Core.List.{List, [], ◌∷◌}
use mathlib.Core.Logic.{inl, inr}
use mathlib.Core.Option.{Option, none, some}
use mathlib.Core.Path.{◌≡◌, refl, sym, ap}
use native.Mathlib.Omega.{arith}
use text.Mathlib.Text.{◌==◌}
use text.Mathlib.TextEquality.{eq_iff}
use Prim.Native.String.{String}
use eu_rag.Base.Tests.{if◌then◌else◌}
use eu_rag.Base.Lists.{Member}

module _ {V : Type 0} where
  -- d.get(k)
  unfoldable pub get : String → List (String × V) → Option V
  get k [] = none
  get k ((j, v) ∷ d) = if j == k then some v else get k d

  -- d[k] = v
  unfoldable pub put : String → V → List (String × V) → List (String × V)
  put k v [] = (k, v) ∷ []
  put k v ((j, w) ∷ d) = if j == k then (j, v) ∷ d else (j, w) ∷ put k v d

  -- `del d[k]`, or `d.pop(k, None)`
  unfoldable pub remove : String → List (String × V) → List (String × V)
  remove k [] = []
  remove k ((j, w) ∷ d) = let rest = remove k d in if j == k then rest else (j, w) ∷ rest

  pub get-put :
      (k j : String) (v : V) (d : List (String × V))
      → get j (put k v d) ≡ (if k == j then some v else get j d)
  unfolding get put
  get-put k j v [] = refl
  get-put k j v ((i, w) ∷ d) = ground (arith, eq_iff k j, eq_iff i k, eq_iff i j, get-put k j v d)

  pub get-remove :
      (k j : String) (d : List (String × V))
      → get j (remove k d) ≡ (if k == j then none else get j d)
  unfolding get remove
  get-remove k j [] = ground arith
  get-remove k j ((i, w) ∷ d) = ground (arith, eq_iff k j, eq_iff i k, eq_iff i j, get-remove k j d)

  -- no key stands twice
  abbrev pub HasUniqueNames : List (String × V) → Type 0
  HasUniqueNames [] = Unit
  HasUniqueNames ((k, v) ∷ d) = (get k d ≡ none) × HasUniqueNames d

  pub put-HasUniqueNames :
      (k : String) (v : V) (d : List (String × V)) → HasUniqueNames d → HasUniqueNames (put k v d)
  unfolding get put
  put-HasUniqueNames k v [] h = (refl, tt)
  put-HasUniqueNames k v ((j, w) ∷ d) h =
      ground (arith, get-put k j v d, eq_iff j k, eq_iff k j, put-HasUniqueNames k v d h.1)

  -- among unique keys, an entry is what its key is looked up to
  pub Member-get :
      (k : String) (v : V) (d : List (String × V))
      → HasUniqueNames d
      → Member (k, v) d
      → get k d ≡ some v
  unfolding get
  Member-get k v ((j, w) ∷ d) h (inl e) =
      let same : k ≡ j = ap (λ (x : String × V). x.0) e in
      let value : v ≡ w = ap (λ (x : String × V). x.1) e in ground (arith, eq_iff j k)
  Member-get k v ((j, w) ∷ d) h (inr m) = ground (arith, eq_iff j k, Member-get k v d h.1 m)
  Member-get k v [] h m = absurd m

  pub get-Member : (k : String) (v : V) (d : List (String × V)) → get k d ≡ some v → Member (k, v) d
  unfolding get
  get-Member k v [] e = cc
  get-Member k v ((j, w) ∷ d) e = go (j == k) refl e (get-Member k v d)
    where
      pair : {a b : String} {x y : V} → a ≡ b → x ≡ y → ◌≡◌ {A = String × V} (a, x) (b, y)
      pair p q = λ i. (p i, q i)

      go :
          (b : Bool)
          → (j == k) ≡ b
          → (if b then some w else get k d) ≡ some v
          → (get k d ≡ some v → Member (k, v) d)
          → Member (k, v) ((j, w) ∷ d)
      go true same e ih = inl (pair (sym ((eq_iff j k).0 same)) (cc))
      go false other e ih = inr (ih e)
