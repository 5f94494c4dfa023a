-- ===== src/Llm/Ensures.antt =====
-- What an action returns whenever it returns, and costs that depend on it.
use eu_rag.Base.{ℕ, ◌+◌, ◌≤◌, refl, subst, ap, ◌≡◌, arith}
use eu_rag.Llm.{Outcome, ok, unavailable, crash, World, Io, pure, continue, ◌>>=◌, >>=-eq-ok, Costs}

pub record Ensures {ℓ κ} {A : Type ℓ} (P : A → Type κ) (m : Io A) : Type (ℓ ⊔ κ) where
  pub yields : (w : World) (a : A) → (m w).0 ≡ ok a → P a

pub ok_inj {ℓ} : {A : Type ℓ} {a b : A} → ok a ≡ ok b → a ≡ b
ok_inj e = cc

abbrev pub Anything {ℓ} : {A : Type ℓ} → A → Type 0
Anything a = Unit

pub Ensures-Anything {ℓ} : {A : Type ℓ} (m : Io A) → Ensures Anything m
Ensures-Anything m = record { yields = λ w a e. tt }

pub Ensures-pure {ℓ κ} : {A : Type ℓ} {P : A → Type κ} (a : A) → P a → Ensures P (pure a)
Ensures-pure {P} a h = record { yields = λ w b e. subst P (ok_inj e) h }

pub Ensures-bind {ℓ κ μ ν} :
    {A : Type ℓ} {B : Type κ} (P : A → Type μ) {Q : B → Type ν} (m : Io A) (f : A → Io B)
    → Ensures P m
    → ((a : A) → P a → Ensures Q (f a))
    → Ensures Q (m >>= f)
Ensures-bind P m f em ef = record {
  yields = λ w b e.
      let (a, w', there, rest, _) = >>=-eq-ok m f w b e in
      (ef a (em.yields w a (ap (λ x. x.0) there))).yields w' b rest;
}

-- The costs of what follows are known for the values that can be returned.
pub Costs-bind_if {ℓ κ μ} :
    {A : Type ℓ} {B : Type κ} (P : A → Type μ) (i j : ℕ) {n : ℕ} (m : Io A) (f : A → Io B)
    → i + j ≤ n
    → Ensures P m
    → Costs i m
    → ((a : A) → P a → Costs j (f a))
    → Costs n (m >>= f)
Costs-bind_if {A} P i j {n} m f fits em cm cf = record {
  at_most = λ w. go w (m w).0 (m w).1 (cm.at_most w) (em.yields w);
}
  where
    go :
        (w : World) (r : Outcome A) (w' : World)
        → w'.calls ≤ w.calls + i
        → ((a : A) → r ≡ ok a → P a)
        → (continue r f w').1.calls ≤ w.calls + n
    go w (ok a) w' h e = omega (arith, (cf a (e a refl)).at_most w')
    go w (unavailable k) w' h e = omega arith
    go w crash w' h e = omega arith
