-- ===== src/Api/RateLimit/Shared.antt =====
-- The promise of the limiter of api/middleware/ratelimit.py, without a store: each key has a bucket
-- of its own, which the script fills and spends. The server keeps it where Redis does what it says.
use eu_rag.Base.{ℕ, ◌≤◌, ◌<◌, String, ◌≡◌, ◌==◌, Option, some, List, [], ◌∷◌, if◌then◌else◌}
use eu_rag.Api.RateLimit.{Arith, Limits, Bucket, Verdict, script, Redis, allow_redis}

-- a key and the time at which it asks
abbrev pub Asking : Type 0
Asking = String × ℕ

abbrev pub Clients : Type 0 → Type 0
Clients F = String → Option (Bucket F)

abbrev pub set_bucket : {F : Type 0} → String → Bucket F → Clients F → Clients F
set_bucket key b clients j = if key == j then some b else clients j

module _ {F : Type 0} (a : Arith F) (l : Limits) where
  -- the verdicts of a sequence of requests
  unfoldable pub run : List Asking → Clients F → List (Verdict F)
  run [] clients = []
  run ((key, now) ∷ rest) clients =
      let (verdict, b) = script a l now (clients key) in
      verdict ∷ run rest (set_bucket key b clients)

  pub run_redis : {S : Type 0} → Redis F S → List Asking → S → List (Verdict F)
  run_redis redis [] s = []
  run_redis redis ((key, now) ∷ rest) s =
      let (verdict, s') = allow_redis a l redis key now s in verdict ∷ run_redis redis rest s'

-- what Redis documents: until a hash expires HMGET answers what HMSET wrote last, for each key
pub record IsRedis {F S : Type 0} (redis : Redis F S) : Type 0 where
  pub hmget-hmset_until :
      (t : ℕ) (key : String) (b : Bucket F) (s : S) (j : String) (now : ℕ)
      → now < t
      → redis.hmget j now (redis.hmset_until t key b s)
        ≡ (if key == j then some b else redis.hmget j now s)

-- every request falls in the time from `start` to `end`, and none before an earlier one
abbrev pub Rising : ℕ → ℕ → List Asking → Type 0
Rising start end [] = start ≤ end
Rising start end ((key, now) ∷ rest) = (start ≤ now) × (now ≤ end) × Rising now end rest
