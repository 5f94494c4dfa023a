-- ===== src/Api/RateLimit/Grants.antt =====
-- How many requests the limiter of api/middleware/ratelimit.py lets through, where the floats round.
use native.Mathlib.Nat.{add-mul, zero-mul, zero-add}
use eu_rag.Base.{
  ℕ, ◌+◌, ◌-◌, ◌*◌, ◌≤◌, min, String, Bool, true, false, ◌&&◌, ◌≡◌, refl, sym, ap, ◌∙◌, ◌==◌,
  Option, none, some, List, [], ◌∷◌, inl, inr, if◌then◌else◌, arith, eq_iff, Bool-cases, leb,
}
use eu_rag.Api.RateLimit.{Arith, Limits, Bucket, Verdict, is_allowed, spend, script}
use eu_rag.Api.RateLimit.Shared.{Asking, Clients, set_bucket, run, Rising}
use eu_rag.Api.RateLimit.Accuracy.{
  IsAccurate, most, spend_lem, filled, filled-script, parts-full, parts-refill,
}

-- how many requests of a key were let through
unfoldable pub granted : {F : Type 0} → String → List Asking → List (Verdict F) → ℕ
granted key ((k, t) ∷ asked) (v ∷ vs) =
    (if k == key && is_allowed v then 1 else 0) + granted key asked vs
granted key [] vs = 0
granted key (a ∷ asked) [] = 0

-- how many requests of a key there are
unfoldable pub asks : String → List Asking → ℕ
asks key [] = 0
asks key ((k, t) ∷ asked) = (if k == key then 1 else 0) + asks key asked

later_split : (a b c r : ℕ) → a ≤ b → b ≤ c → (c - a) * r ≡ (c - b) * r + (b - a) * r
later_split a b c r h k = ap (λ d. d * r) (omega arith) ∙ add-mul (c - b) (b - a) r

module _ {F : Type 0} (a : Arith F) (l : Limits) (acc : IsAccurate a l) where
  -- the parts that a key has at a time, without rounding
  unfoldable pub level : ℕ → Option (Bucket F) → ℕ
  level now none = most a l acc
  level now (some b) = min (most a l acc) (acc.parts b.tokens + (now - b.updated) * acc.per_tick)

  -- a bucket is not from the future
  unfoldable pub Past : ℕ → Option (Bucket F) → Type 0
  Past now none = Unit {0}
  Past now (some b) = b.updated ≤ now

  pub level-later :
      (start now : ℕ) (o : Option (Bucket F))
      → start ≤ now
      → Past start o
      → (level now o ≤ level start o + (now - start) * acc.per_tick) × Past now o
  unfolding level Past
  level-later start now none h p = (omega arith, tt)
  level-later start now (some b) h p =
      (omega (arith, later_split b.updated start now acc.per_tick p h), omega arith)

  level-now : (now : ℕ) (b : Bucket F) → b.updated ≡ now → level now (some b) ≤ acc.parts b.tokens
  unfolding level
  level-now now b e =
      let none_since : now - b.updated ≡ 0 = omega arith in
      let none_more : (now - b.updated) * acc.per_tick ≡ 0 =
        ap (λ d. d * acc.per_tick) none_since ∙ zero-mul acc.per_tick in
      omega arith

  filled-level :
      (now : ℕ) (o : Option (Bucket F))
      → Past now o
      → now ≤ acc.horizon
      → acc.parts (filled a l acc now o).tokens ≤ level now o + acc.slack
  unfolding level Past
  filled-level now none past early = omega (arith, parts-full a l acc now)
  filled-level now (some b) past early =
      elim (Bool-cases (leb (acc.parts b.tokens) (most a l acc))) [
        | inl within ↦
            let inside : acc.parts b.tokens ≤ most a l acc = ground arith in
            omega (
              arith,
              parts-refill a l acc now b,
              (acc.gained-near b.tokens b.updated now past early inside).0,
            )
        | inr over ↦
            let outside : most a l acc ≤ acc.parts b.tokens = ground arith in
            omega (arith, parts-refill a l acc now b)
      ]

  -- a request that is let through costs a token
  pub script-level :
      (now : ℕ) (o : Option (Bucket F))
      → Past now o
      → now ≤ acc.horizon
      → let (v, b) = script a l now o in
        (level now (some b) + (if is_allowed v then acc.unit else 0) ≤ level now o + acc.slack)
        × (b.updated ≡ now)
  script-level now o past early =
      let (same, time) = filled-script a l acc now o in
      let (paid, kept, _) = spend_lem a l acc (filled a l acc now o) in
      let near = filled-level now o past early in
      let left = level-now now (spend a l (filled a l acc now o)).1 (kept ∙ time) in
      rw same (omega arith, kept ∙ time)

  abbrev pub AllPast : ℕ → Clients F → Type 0
  AllPast now clients = (key : String) → Past now (clients key)

  pub AllPast-set_bucket :
      (k : String) (b : Bucket F) (start now : ℕ) (clients : Clients F)
      → start ≤ now
      → b.updated ≡ now
      → AllPast start clients
      → AllPast now (set_bucket k b clients)
  AllPast-set_bucket k b start now clients late time past j = elim (Bool-cases (k == j)) [
    | inl hit ↦ rw hit (unfold Past in omega arith)
    | inr miss ↦ rw miss (let (_, kept) = level-later start now (clients j) late (past j) in kept)
  ]

  -- so many of a request, if it counts
  pub one_of : (c : Bool) (n u : ℕ) → ((if c then 1 else 0) + n) * u ≡ (if c then u else 0) + n * u
  one_of true n u = omega (arith, add-mul 1 n u)
  one_of false n u = ap (λ k. k * u) (zero-add n) ∙ sym (zero-add (n * u))

  granted-level :
      (key : String) (asked : List Asking) (start end : ℕ) (clients : Clients F)
      → Rising start end asked
      → end ≤ acc.horizon
      → AllPast start clients
      → granted key asked (run a l asked clients) * acc.unit
        ≤ level start (clients key) + (end - start) * acc.per_tick + asks key asked * acc.slack
  unfolding granted run asks
  granted-level key [] start end clients rising early past =
      omega (arith, zero-mul acc.unit, zero-mul acc.slack)
  granted-level key ((k, now) ∷ asked) start end clients (late, soon, rising) early past =
      let (v, b) = script a l now (clients k) in
      let (refilled, past_key) = level-later start now (clients key) late (past key) in
      let (_, past_k) = level-later start now (clients k) late (past k) in
      let (paid, time) = script-level now (clients k) past_k (omega arith) in
      let rest =
        granted-level key asked now end (set_bucket k b clients) rising early
          (AllPast-set_bucket k b start now clients late time past) in
      let g = granted key asked (run a l asked (set_bucket k b clients)) in
      let total = one_of (k == key && is_allowed v) g acc.unit in
      let rounded = one_of (k == key) (asks key asked) acc.slack in
      let split = later_split start now end acc.per_tick late soon in
      elim (Bool-cases (k == key)) [
        | inl hit ↦
            let rest' = rw hit at rest in
            let total' = rw hit at total in
            let rounded' = rw hit at rounded in
            let same = ap (λ j. level now (clients j)) ((eq_iff k key).0 hit) in
            rw hit (omega arith)
        | inr miss ↦
            let rest' = rw miss at rest in
            let total' = rw miss at total in
            let rounded' = rw miss at rounded in rw miss (omega arith)
      ]

  level-le-most : (now : ℕ) (o : Option (Bucket F)) → level now o ≤ most a l acc
  unfolding level
  level-le-most now none = omega arith
  level-le-most now (some b) = omega arith

  -- no bucket is from the future
  abbrev pub ArePast : ℕ → Clients F → Type 0
  ArePast now clients = (key : String) (b : Bucket F) → clients key ≡ some b → b.updated ≤ now

  pub Past-of :
      (now : ℕ) (o : Option (Bucket F))
      → ((b : Bucket F) → o ≡ some b → b.updated ≤ now)
      → Past now o
  unfolding Past
  Past-of now none h = tt
  Past-of now (some b) h = h b refl

  -- at most: the burst, what the time adds, and what the rounding of each request adds
  pub granted-le :
      (key : String) (asked : List Asking) (start end : ℕ) (clients : Clients F)
      → Rising start end asked
      → end ≤ acc.horizon
      → ArePast start clients
      → granted key asked (run a l asked clients) * acc.unit
        ≤ most a l acc + (end - start) * acc.per_tick + asks key asked * acc.slack
  granted-le key asked start end clients rising early past = omega (
    arith,
    granted-level key asked start end clients rising early
        (λ k. Past-of start (clients k) (past k)),
    level-le-most start (clients key),
  )
