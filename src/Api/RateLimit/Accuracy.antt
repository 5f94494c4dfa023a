-- ===== src/Api/RateLimit/Accuracy.antt =====
-- How exact the floats of api/middleware/ratelimit.py are taken to be, and what a bucket then holds.
use eu_rag.Base.{
  ℕ, ◌+◌, ◌-◌, ◌*◌, ◌≤◌, max, min, true, false, ◌≡◌, refl, ap, ◌∙◌, Option, none, some, inl, inr,
  if◌then◌else◌, arith, Bool-cases,
}
use eu_rag.Api.RateLimit.{
  Arith, Limits, one, least, capacity, gained, Bucket, is_allowed, full, refill, spend, script,
}
use eu_rag.Api.RateLimit.Local.{refill-full}

-- How exact the floats are: a float has so many whole `parts`, of which a token is `unit`. Comparing,
-- taking a token away and the capacity are exact; up to a time `horizon`, what a bucket that is not
-- over its capacity gains in a tick is `per_tick`, and one refill is `slack` parts off at most. A
-- refill takes nothing away.
pub record IsAccurate {F : Type 0} (a : Arith F) (l : Limits) : Type 0 where
  pub parts : F → ℕ
  pub unit : ℕ
  pub per_tick : ℕ
  pub slack : ℕ
  pub horizon : ℕ
  pub le-one :
      (x : F) → (a.le (one a) x ≡ true → unit ≤ parts x) × (unit ≤ parts x → a.le (one a) x ≡ true)
  pub sub-one : (x : F) → a.le (one a) x ≡ true → parts (a.sub x (one a)) + unit ≡ parts x
  pub parts-capacity : parts (capacity a l) ≡ max l.burst 1 * unit
  pub lt-parts :
      (x y : F) → (a.lt x y ≡ true → parts x ≤ parts y) × (a.lt x y ≡ false → parts y ≤ parts x)
  pub gained-grows :
      (x : F) (t t' : ℕ) → t ≤ t' → t' ≤ horizon → parts x ≤ parts (gained a l x t t')
  pub gained-near :
      (x : F) (t t' : ℕ)
      → t ≤ t'
      → t' ≤ horizon
      → parts x ≤ max l.burst 1 * unit
      → (parts (gained a l x t t') ≤ parts x + (t' - t) * per_tick + slack)
        × (parts x + (t' - t) * per_tick ≤ parts (gained a l x t t') + slack)

-- the smaller of two floats has the smaller parts
parts-least :
    {F : Type 0} (a : Arith F) (l : Limits) (acc : IsAccurate a l) (x y : F)
    → acc.parts (least a x y) ≡ min (acc.parts x) (acc.parts y)
parts-least a l acc x y = elim (Bool-cases (a.lt y x)) [
  | inl smaller ↦ rw smaller (omega (arith, (acc.lt-parts y x).0 smaller))
  | inr larger ↦ rw larger (omega (arith, (acc.lt-parts y x).1 larger))
]

module _ {F : Type 0} (a : Arith F) (l : Limits) (acc : IsAccurate a l) where
  -- the parts of a full bucket
  abbrev pub most : ℕ
  most = max l.burst 1 * acc.unit

  pub spend_lem :
      (b : Bucket F)
      → let (v, b') = spend a l b in
        (acc.parts b'.tokens + (if is_allowed v then acc.unit else 0) ≡ acc.parts b.tokens)
        × (b'.updated ≡ b.updated)
        × (is_allowed v ≡ a.le (one a) b.tokens)
  unfolding spend
  spend_lem b = elim (Bool-cases (a.le (one a) b.tokens)) [
    | inl enough ↦ rw enough (acc.sub-one b.tokens enough, refl, refl)
    | inr short ↦ rw short (omega arith, refl, refl)
  ]

  -- the bucket of a request before it is spent: near what the key has, and not less than before
  unfoldable pub filled : ℕ → Option (Bucket F) → Bucket F
  filled now none = refill a l now (full a l now)
  filled now (some b) = refill a l now b

  pub filled-script :
      (now : ℕ) (o : Option (Bucket F))
      → (script a l now o ≡ spend a l (filled now o)) × ((filled now o).updated ≡ now)
  unfolding script filled refill
  filled-script now none = (refl, refl)
  filled-script now (some b) = (refl, refl)

  pub parts-full : (now : ℕ) → acc.parts (filled now none).tokens ≡ most
  unfolding filled full
  parts-full now =
      ap (λ (b : Bucket F). acc.parts b.tokens) (refill-full a l now) ∙ acc.parts-capacity

  pub parts-refill :
      (now : ℕ) (b : Bucket F)
      → acc.parts (filled now (some b)).tokens
        ≡ min most (acc.parts (gained a l b.tokens b.updated now))
  unfolding filled refill
  parts-refill now b =
      parts-least a l acc (capacity a l) (gained a l b.tokens b.updated now)
      ∙ ap (λ n. min n (acc.parts (gained a l b.tokens b.updated now))) acc.parts-capacity
