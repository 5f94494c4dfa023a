-- ===== src/Tests/RateLimits.antt =====
-- The rate limiter: a few requests of two clients, at one token a second and a burst of two, with
-- numbers of sixty parts in place of the floats.
use native.Mathlib.Nat.{zero-mul}
use eu_rag.Base.{
  ℕ, ◌+◌, ◌-◌, ◌*◌, ◌/◌, ◌≤◌, ltb, leb, eqb, String, ◌≡◌, refl, ap, ◌∙◌, Bool, true, false, Option,
  none, some, List, [], ◌∷◌, if◌then◌else◌, ◌==◌, arith, length,
}
use eu_rag.Base.Dict.{get}
use eu_rag.Api.RateLimit.{
  Arith, Limits, Bucket, Buckets, Verdict, allow, refuse, gained, Redis, allow_local, max_buckets,
  spend, refill, full,
}
use eu_rag.Api.RateLimit.Shared.{Asking, run}
use eu_rag.Api.RateLimit.Local.{run_local, run_local-refines}
use eu_rag.Api.RateLimit.Accuracy.{IsAccurate}

nothing_gained : (x r t : ℕ) → x + (t * 60 - t * 60) * r / 60 ≡ x
nothing_gained x r t =
    let none_since : t * 60 - t * 60 ≡ 0 = omega arith in
    let none_more : (t * 60 - t * 60) * r ≡ 0 = ap (λ d. d * r) none_since ∙ zero-mul r in
    omega arith

abbrev fixed : Arith ℕ
fixed = record {
  of_nat = λ n. n * 60;
  add = λ x y. x + y;
  sub = λ x y. x - y;
  mul = λ x y. x * y / 60;
  div = λ x y. x * 60 / y;
  lt = ltb;
  le = leb;
  is_zero = λ x. eqb x 0;
  round = λ x. (x + 30) / 60;
  seconds = λ t. t * 60;
  add-sub_self = nothing_gained;
}

abbrev limits : Limits
limits = record { rate_per_min = 60; burst = 2; ticks = 1; trust_proxy = false }

one_is : (x : ℕ) → (leb 60 x ≡ true → 60 ≤ x) × (60 ≤ x → leb 60 x ≡ true)
one_is x = (λ h. ground arith, λ h. ground arith)

in_order : (x y : ℕ) → (ltb x y ≡ true → x ≤ y) × (ltb x y ≡ false → y ≤ x)
in_order x y = (λ h. ground arith, λ h. ground arith)

one_less : (x : ℕ) → leb 60 x ≡ true → x - 60 + 60 ≡ x
one_less x h = ground arith

more : (x t t' : ℕ) → t ≤ t' → t' ≤ 1000 → x ≤ gained fixed limits x t t'
more x t t' h early = omega arith

near :
    (x t t' : ℕ)
    → t ≤ t'
    → t' ≤ 1000
    → x ≤ 120
    → (gained fixed limits x t t' ≤ x + (t' - t) * 60 + 1)
      × (x + (t' - t) * 60 ≤ gained fixed limits x t t' + 1)
near x t t' h early within = (omega arith, omega arith)

-- a part of leeway, which these numbers do not use
abbrev accurate : IsAccurate fixed limits
accurate = record {
  parts = λ x. x;
  unit = 60;
  per_tick = 60;
  slack = 1;
  horizon = 1000;
  le-one = one_is;
  sub-one = one_less;
  parts-capacity = refl;
  lt-parts = in_order;
  gained-grows = more;
  gained-near = near;
}

abbrev asked : List Asking
asked = ("a", 0) ∷ ("a", 1) ∷ ("b", 1) ∷ ("a", 1) ∷ ("a", 1) ∷ []

some_verdicts : run_local fixed limits asked [] ≡ allow ∷ allow ∷ allow ∷ allow ∷ refuse 60 ∷ []
unfolding run_local allow_local spend refill full get eu_rag.Base.Dict.remove
    eu_rag.Api.RateLimit.make_room
some_verdicts = refl

run_local-refines_example : run_local fixed limits asked [] ≡ run fixed limits asked (λ k. get k [])
run_local-refines_example = run_local-refines fixed limits asked [] (omega arith)

abbrev one_token : Buckets ℕ
one_token = ("a", record { tokens = 60; updated = 0 }) ∷ []

-- hashes with the time at which they expire
abbrev Hashes : Type 0
Hashes = String → Option (ℕ × Bucket ℕ)

abbrev alive : ℕ → Option (ℕ × Bucket ℕ) → Option (Bucket ℕ)
alive now none = none
alive now (some (t, b)) = if ltb now t then some b else none

abbrev redis : Redis ℕ Hashes
redis = record {
  hmget = λ key now s. alive now (s key);
  hmset_until = λ t key b s j. if key == j then some (t, b) else s j;
}

abbrev spent_bucket : Buckets ℕ
spent_bucket = ("a", record { tokens = 0; updated = 0 }) ∷ []
