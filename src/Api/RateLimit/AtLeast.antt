-- ===== src/Api/RateLimit/AtLeast.antt =====
-- How many requests the limiter of api/middleware/ratelimit.py lets through at least.
use native.Mathlib.Nat.{mul-le-mul_right}
use eu_rag.Base.{
  ℕ, ◌+◌, ◌-◌, ◌*◌, ◌≤◌, max, min, String, true, ◌≡◌, sym, ap, subst, ◌∙◌, ◌==◌, Option, none, some,
  List, [], ◌∷◌, inl, inr, arith, eq_iff, Bool-cases, leb,
}
use eu_rag.Api.RateLimit.{Arith, Limits, Bucket, is_allowed, script}
use eu_rag.Api.RateLimit.Shared.{Asking, Clients, set_bucket, run, Rising}
use eu_rag.Api.RateLimit.Accuracy.{
  IsAccurate, spend_lem, filled, filled-script, parts-full, parts-refill,
}
use eu_rag.Api.RateLimit.Grants.{
  granted, asks, one_of, Past, Past-of, ArePast, AllPast, AllPast-set_bucket, level-later,
  script-level,
}

module _ {F : Type 0} (a : Arith F) (l : Limits) (acc : IsAccurate a l) where
  -- a key has so many whole tokens, within the burst
  abbrev pub Holds : ℕ → Option (Bucket F) → Type 0
  Holds m none = m ≤ max l.burst 1
  Holds m (some b) = (m ≤ max l.burst 1) × (m * acc.unit ≤ acc.parts b.tokens)

  Holds-le : (m n : ℕ) (o : Option (Bucket F)) → m ≤ n → Holds n o → Holds m o
  Holds-le m n none h held = omega arith
  Holds-le m n (some b) h (most, held) =
      (omega arith, omega (arith, mul-le-mul_right {m = m} {n = n} acc.unit h))

  filled-Holds :
      (m now : ℕ) (o : Option (Bucket F))
      → Past a l acc now o
      → now ≤ acc.horizon
      → Holds m o
      → (m ≤ max l.burst 1) × (m * acc.unit ≤ acc.parts (filled a l acc now o).tokens)
  unfolding Past
  filled-Holds m now none past early h =
      (h, omega (arith, parts-full a l acc now, mul-le-mul_right {m = m} acc.unit h))
  filled-Holds m now (some b) past early (h, held) = (
    h,
    omega (
      arith,
      parts-refill a l acc now b,
      mul-le-mul_right {m = m} acc.unit h,
      acc.gained-grows b.tokens b.updated now past early,
    ),
  )

  -- a key that holds a token is let through, and holds one less
  script-Holds :
      (m now : ℕ) (o : Option (Bucket F))
      → Past a l acc now o
      → now ≤ acc.horizon
      → Holds m o
      → let (v, b) = script a l now o in
        (1 ≤ m → (is_allowed v ≡ true) × Holds (m - 1) (some b)) × (b.updated ≡ now)
  script-Holds m now o past early h =
      let (same, time) = filled-script a l acc now o in
      let (paid, kept, passes) = spend_lem a l acc (filled a l acc now o) in
      let (within, held) = filled-Holds m now o past early h in
      rw same (
        λ some_left.
            let split : m * acc.unit ≡ acc.unit + (m - 1) * acc.unit =
              ap (λ n. n * acc.unit) (omega arith) ∙ one_of a l acc true (m - 1) acc.unit in
            let enough = (acc.le-one (filled a l acc now o).tokens).1 (omega arith) in
            let allowed = passes ∙ enough in
            let paid' = rw allowed at paid in (allowed, (omega arith, omega arith)),
        kept ∙ time,
      )

  granted-Holds :
      (key : String) (asked : List Asking) (start end m : ℕ) (clients : Clients F)
      → Rising start end asked
      → end ≤ acc.horizon
      → AllPast a l acc start clients
      → Holds m (clients key)
      → min (asks key asked) m ≤ granted key asked (run a l asked clients)
  unfolding granted run asks
  granted-Holds key [] start end m clients rising early past held = omega arith
  granted-Holds key ((k, now) ∷ asked) start end m clients (late, soon, rising) early past held =
      let (_, past_k) = level-later a l acc start now (clients k) late (past k) in
      let (v, b) = script a l now (clients k) in
      let next = set_bucket k b clients in
      let (_, time) = script-level a l acc now (clients k) past_k (omega arith) in
      let past' = AllPast-set_bucket a l acc k b start now clients late time past in
      elim (Bool-cases (k == key)) [
        | inl hit ↦ elim (Bool-cases (leb 1 m)) [
          | inl some_left ↦
              let same = (eq_iff k key).0 hit in
              let held_k = subst (λ j. Holds m (clients j)) (sym same) held in
              let (spends, _) = script-Holds m now (clients k) past_k (omega arith) held_k in
              let (allowed, left) = spends (ground arith) in
              let held' : Holds (m - 1) (next key) = rw hit left in
              let rest = granted-Holds key asked now end (m - 1) next rising early past' held' in
              rw (hit, allowed) (ground arith)
          | inr none_left ↦ ground arith
        ]
        | inr miss ↦
            let held' : Holds m (next key) = rw miss held in
            let rest = granted-Holds key asked now end m next rising early past' held' in
            rw miss (omega arith)
      ]

  -- at least: as often as it asks, up to the whole tokens that it holds
  pub granted-ge :
      (key : String) (asked : List Asking) (start end m : ℕ) (clients : Clients F)
      → Rising start end asked
      → end ≤ acc.horizon
      → ArePast a l acc start clients
      → Holds m (clients key)
      → min (asks key asked) m ≤ granted key asked (run a l asked clients)
  granted-ge key asked start end m clients rising early past held =
      granted-Holds key asked start end m clients rising early
        (λ k. Past-of a l acc start (clients k) (past k)) held
