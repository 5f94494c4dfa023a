-- ===== src/Base/Lists.antt =====
-- Lists measured by native numbers, under the library's names, and predicates on lists.
use Prim.Native.Nat.{ℕ, zero, suc, ◌+◌, ◌≤◌}
use mathlib.Core.Bool.{Bool, true, false, ◌||◌}
use mathlib.Core.List.{List, [], ◌∷◌, ◌++◌, map}
use mathlib.Core.Option.{Option, none, some}
use mathlib.Core.Logic.{◌⊎◌, inl, inr}
use mathlib.Core.Path.{◌≡◌, refl, sym, subst, ap, ◌∙◌}
use native.Mathlib.Omega.{arith}
use eu_rag.Base.Tests.{if◌then◌else◌, Bool-cases}

module _ {ℓ} {A : Type ℓ} where
  abbrev pub length : List A → ℕ
  length [] = 0
  length (x ∷ xs) = suc (length xs)

  abbrev pub take : ℕ → List A → List A
  take zero xs = []
  take (suc n) [] = []
  take (suc n) (x ∷ xs) = x ∷ take n xs

  abbrev pub drop : ℕ → List A → List A
  drop zero xs = xs
  drop (suc n) [] = []
  drop (suc n) (x ∷ xs) = drop n xs

  -- the items that a Boolean test accepts, in order
  abbrev pub select : (A → Bool) → List A → List A
  select p [] = []
  select p (x ∷ xs) = let rest = select p xs in if p x then x ∷ rest else rest

  abbrev pub any : (A → Bool) → List A → Bool
  any p [] = false
  any p (x ∷ xs) = p x || any p xs

  -- the first item that a Boolean test accepts
  abbrev pub find : (A → Bool) → List A → Option A
  find p [] = none
  find p (x ∷ xs) = if p x then some x else find p xs

  abbrev pub get_elem? : List A → ℕ → Option A
  get_elem? [] i = none
  get_elem? (x ∷ xs) zero = some x
  get_elem? (x ∷ xs) (suc i) = get_elem? xs i

  pub length-append : (xs ys : List A) → length (xs ++ ys) ≡ length xs + length ys
  length-append [] ys = omega arith
  length-append (x ∷ xs) ys = omega (arith, length-append xs ys)

  pub length-take-le : (n : ℕ) (xs : List A) → length (take n xs) ≤ n
  length-take-le zero xs = omega arith
  length-take-le (suc n) [] = omega arith
  length-take-le (suc n) (x ∷ xs) = omega (arith, length-take-le n xs)

  abbrev pub All {κ} : (A → Type κ) → List A → Type κ
  All P [] = Unit
  All P (x ∷ xs) = P x × All P xs

module _ {A : Type 0} where
  -- `x in xs`, with the place where it stands
  abbrev pub Member : A → List A → Type 0
  Member x [] = ⊥
  Member x (y ∷ ys) = (x ≡ y) ⊎ Member x ys

module _ {κ} {A : Type 0} (P : A → Type κ) where
  pub All-of_Member : (xs : List A) → ((x : A) → Member x xs → P x) → All P xs
  All-of_Member [] h = tt
  All-of_Member (x ∷ xs) h = (h x (inl refl), All-of_Member xs (λ y m. h y (inr m)))

  pub Member-All : (x : A) (xs : List A) → All P xs → Member x xs → P x
  Member-All x (y ∷ ys) h (inl e) = subst P (sym e) h.0
  Member-All x (y ∷ ys) h (inr m) = Member-All x ys h.1 m
  Member-All x [] h m = elim m [ ]

module _ {ℓ κ} {A : Type ℓ} (P : A → Type κ) where
  pub All-append : (xs ys : List A) → All P xs → All P ys → All P (xs ++ ys)
  All-append [] ys hx hy = hy
  All-append (x ∷ xs) ys hx hy = (hx.0, All-append xs ys hx.1 hy)

  pub All-select : (p : A → Bool) (xs : List A) → All P xs → All P (select p xs)
  All-select p [] h = h
  All-select p (x ∷ xs) h = ground (arith, All-select p xs h.1)

pub select-Member :
    {A : Type 0} (p : A → Bool) (x : A) (xs : List A)
    → Member x (select p xs)
    → Member x xs × (p x ≡ true)
select-Member p x [] m = elim m [ ]
select-Member p x (y ∷ ys) m = go (p y) refl m (select-Member p x ys)
  where
    go :
        (b : Bool)
        → p y ≡ b
        → Member x (if b then y ∷ select p ys else select p ys)
        → (Member x (select p ys) → Member x ys × (p x ≡ true))
        → Member x (y ∷ ys) × (p x ≡ true)
    go true e (inl q) ih = (inl q, ap p q ∙ e)
    go true e (inr m) ih = let (there, h) = ih m in (inr there, h)
    go false e m ih = let (there, h) = ih m in (inr there, h)

pub Member-select :
    {A : Type 0} (p : A → Bool) (x : A) (xs : List A)
    → Member x xs
    → p x ≡ true
    → Member x (select p xs)
Member-select p x (y ∷ ys) (inl e) h = elim (Bool-cases (p y)) [
  | inl kept ↦ rw kept (inl e)
  | inr dropped ↦ cc
]
Member-select p x (y ∷ ys) (inr m) h =
    let rest = Member-select p x ys m h in
    elim (Bool-cases (p y)) [ inl kept ↦ rw kept (inr rest) | inr dropped ↦ rw dropped rest ]
Member-select p x [] m h = absurd m

pub map-Member :
    {A B : Type 0} (f : A → B) (y : B) (xs : List A)
    → Member y (map f xs)
    → (x : A) × Member x xs × (f x ≡ y)
map-Member f y (x ∷ xs) (inl e) = (x, inl refl, sym e)
map-Member f y (x ∷ xs) (inr m) = let (z, there, same) = map-Member f y xs m in (z, inr there, same)
map-Member f y [] m = absurd m

pub Member-map :
    {A B : Type 0} (f : A → B) (x : A) (xs : List A) → Member x xs → Member (f x) (map f xs)
Member-map f x (y ∷ ys) (inl e) = inl (ap f e)
Member-map f x (y ∷ ys) (inr m) = inr (Member-map f x ys m)
Member-map f x [] m = absurd m

pub get_elem?-Member :
    {A : Type 0} (xs : List A) (i : ℕ) (x : A) → get_elem? xs i ≡ some x → Member x xs
get_elem?-Member [] i x e = cc
get_elem?-Member (y ∷ xs) zero x e = inl cc
get_elem?-Member (y ∷ xs) (suc i) x e = inr (get_elem?-Member xs i x e)
