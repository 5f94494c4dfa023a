-- ===== src/Security/Pii/Luhn.antt =====
-- The checksum of core/security/pii.py tells two neighbouring digits that are swapped.
use mathlib.Core.List.{reverse, reverse-append, reverse-cons, append_assoc}
use eu_rag.Base.{
  ℕ, ◌+◌, ◌%◌, ◌<◌, ◌≡◌, ◌⊎◌, refl, ap, ◌∙◌, Bool, true, false, not, List, [], ◌∷◌, ◌++◌, arith,
  eqb_iff,
}
use eu_rag.Security.Pii.{weight, luhn_sum, luhn_ok}

-- the turn after so many digits
turn : Bool → List ℕ → Bool
turn b [] = b
turn b (d ∷ ds) = turn (not b) ds

luhn_sum-append :
    (b : Bool) (xs ys : List ℕ) → luhn_sum b (xs ++ ys) ≡ luhn_sum b xs + luhn_sum (turn b xs) ys
unfolding luhn_sum turn
luhn_sum-append b [] ys = omega arith
luhn_sum-append b (x ∷ xs) ys = omega (arith, luhn_sum-append (not b) xs ys)

luhn_sum-reverse :
    (front back : List ℕ) (x : ℕ)
    → luhn_sum false (reverse (front ++ x ∷ back))
      ≡ luhn_sum false (reverse back)
        + (weight (turn false (reverse back)) x
            + luhn_sum (not (turn false (reverse back))) (reverse front))
luhn_sum-reverse front back x =
    ap (luhn_sum false) (
      reverse-append front (x ∷ back)
      ∙ ap (λ l. l ++ reverse front) (reverse-cons x back)
      ∙ append_assoc (reverse back) (x ∷ []) (reverse front))
    ∙ luhn_sum-append false (reverse back) (x ∷ reverse front)
    ∙ ap (λ n. luhn_sum false (reverse back) + n) (unfold luhn_sum in refl)

turn-append : (b : Bool) (xs : List ℕ) (x : ℕ) → turn b (xs ++ x ∷ []) ≡ not (turn b xs)
unfolding turn
turn-append b [] x = refl
turn-append b (y ∷ xs) x = turn-append (not b) xs x

-- the sum of two digits that stand together and what is beside them
luhn_sum-pair :
    (front back : List ℕ) (d e : ℕ)
    → luhn_sum false (reverse (front ++ d ∷ e ∷ back))
      ≡ luhn_sum false (reverse back)
        + (weight (turn false (reverse back)) e
            + (weight (not (turn false (reverse back))) d
                + luhn_sum (not (not (turn false (reverse back)))) (reverse front)))
luhn_sum-pair front back d e =
    let last = reverse-cons e back in
    let turned = ap (turn false) last ∙ turn-append false (reverse back) e in
    let one : luhn_sum (turn false (reverse back)) (e ∷ [])
        ≡ weight (turn false (reverse back)) e + 0 =
      unfold luhn_sum in refl in
    let summed = ap (luhn_sum false) last ∙ luhn_sum-append false (reverse back) (e ∷ []) in
    let whole = rw turned at (luhn_sum-reverse front (e ∷ back) d) in
    omega (arith, whole, summed, one)

-- a sum of two digits, one of them doubled, that swapping them leaves divisible by ten
pair_inj :
    (b : Bool) (d e before rest : ℕ)
    → d < 10
    → e < 10
    → (before + (weight b e + (weight (not b) d + rest))) % 10 ≡ 0
    → (before + (weight b d + (weight (not b) e + rest))) % 10 ≡ 0
    → (d ≡ e) ⊎ (((d ≡ 0) × (e ≡ 9)) ⊎ ((d ≡ 9) × (e ≡ 0)))
unfolding weight
pair_inj false d e before rest h k p q = ground arith
pair_inj true d e before rest h k p q = ground arith

-- Two neighbouring digits whose swapping leaves a digit string that passes the check, as the string
-- itself does, are the same digit or a nought and a nine.
pub luhn_ok-swap :
    (front back : List ℕ) (d e : ℕ)
    → d < 10
    → e < 10
    → luhn_ok (front ++ d ∷ e ∷ back) ≡ true
    → luhn_ok (front ++ e ∷ d ∷ back) ≡ true
    → (d ≡ e) ⊎ (((d ≡ 0) × (e ≡ 9)) ⊎ ((d ≡ 9) × (e ≡ 0)))
unfolding luhn_ok
luhn_ok-swap front back d e h k p q =
    let b = turn false (reverse back) in
    let rest = luhn_sum (not (not b)) (reverse front) in
    let passed = (eqb_iff (luhn_sum false (reverse (front ++ d ∷ e ∷ back)) % 10) 0).0 p in
    let swapped = (eqb_iff (luhn_sum false (reverse (front ++ e ∷ d ∷ back)) % 10) 0).0 q in
    pair_inj b d e (luhn_sum false (reverse back)) rest h k
      (omega (arith, passed, luhn_sum-pair front back d e))
      (omega (arith, swapped, luhn_sum-pair front back e d))
