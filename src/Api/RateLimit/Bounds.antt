-- ===== src/Api/RateLimit/Bounds.antt =====
-- What a client gets of the limiter of api/middleware/ratelimit.py, and when it is served again.
use eu_rag.Base.{List, [], ◌∷◌}
use eu_rag.Api.RateLimit.{Arith, Limits, Buckets, allow_local}
use eu_rag.Api.RateLimit.Shared.{Asking}

module _ {F : Type 0} (a : Arith F) (l : Limits) where
  -- the buckets behind a sequence of requests
  pub buckets_after : List Asking → Buckets F → Buckets F
  buckets_after [] buckets = buckets
  buckets_after ((key, now) ∷ asked) buckets =
      buckets_after asked (allow_local a l key now buckets).1
