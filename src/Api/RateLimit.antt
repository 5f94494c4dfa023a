-- ===== src/Api/RateLimit.antt =====
-- api/middleware/ratelimit.py: the token bucket of a client, its two stores and the middleware.
-- Times are ticks of a clock that does not go back. Amounts of tokens and seconds are floats, of which
-- nothing is used but the operations of `Arith`.
pub mod Shared
pub mod Accuracy
pub mod Grants
pub mod AtLeast
pub mod Local
pub mod Bounds
use eu_rag.Base.{
  ℕ, ◌≡◌, zero, suc, ◌+◌, ◌*◌, max, String, Bool, true, false, ◌&&◌, ◌||◌, not, ◌==◌, Option, none,
  some, List, [], ◌∷◌, ◌++◌, if◌then◌else◌, leb, ltb, eqb, length, drop,
}
use eu_rag.Base.Text.{Unicode, ◌<>◌, has_prefix}
use eu_rag.Base.Text
use eu_rag.Base.Dict.{get, remove}
use eu_rag.Api.Deps.{after_blank, peer_ip}

-- The floats that are finite, with the operations of the source. A clock reads `seconds` at a tick.
pub record Arith (F : Type 0) : Type 0 where
  pub of_nat : ℕ → F
  pub add : F → F → F
  pub sub : F → F → F
  pub mul : F → F → F
  pub div : F → F → F
  pub lt : F → F → Bool
  pub le : F → F → Bool
  pub is_zero : F → Bool
  -- `round` of one that is not negative
  pub round : F → ℕ
  pub seconds : ℕ → F
  -- x - x is 0.0, and adding a multiple of it changes nothing
  pub add-sub_self : (x r : F) (t : ℕ) → add x (mul (sub (seconds t) (seconds t)) r) ≡ x

pub record Limits : Type 0 where
  pub rate_per_min : ℕ
  pub burst : ℕ
  -- ticks of the clock in a second
  pub ticks : ℕ
  pub trust_proxy : Bool

pub record Bucket (F : Type 0) : Type 0 where
  pub tokens : F
  pub updated : ℕ

-- `allowed`, or else `retry_after` in seconds
pub data Verdict (F : Type 0) : Type 0 where
  allow : Verdict F
  refuse : F → Verdict F

abbrev pub is_allowed : {F : Type 0} → Verdict F → Bool
is_allowed allow = true
is_allowed (refuse x) = false

module _ {F : Type 0} (a : Arith F) where
  abbrev pub one : F
  one = a.of_nat 1

  -- `min` of Python and `math.min` of Lua
  abbrev pub least : F → F → F
  least x y = if a.lt y x then y else x

  module _ (l : Limits) where
    -- in tokens per second
    abbrev pub rate : F
    rate = a.div (a.of_nat l.rate_per_min) (a.of_nat 60)

    abbrev pub capacity : F
    capacity = a.of_nat (max l.burst 1)

    unfoldable pub full : ℕ → Bucket F
    full now = record { tokens = capacity; updated = now }

    -- so many tokens, and what the time since a tick adds to them
    abbrev pub gained : F → ℕ → ℕ → F
    gained tokens updated now =
        a.add tokens (a.mul (a.sub (a.seconds now) (a.seconds updated)) rate)

    unfoldable pub refill : ℕ → Bucket F → Bucket F
    refill now b = record { tokens = least capacity (gained b.tokens b.updated now); updated = now }

    abbrev pub retry_after : F → F
    retry_after tokens = if a.is_zero rate then a.of_nat 60 else a.div (a.sub one tokens) rate

    unfoldable pub spend : Bucket F → Verdict F × Bucket F
    spend b =
        if a.le one b.tokens
        then (allow, record b { tokens = a.sub b.tokens one })
        else (refuse (retry_after b.tokens), b)

    -- `_REDIS_LUA`, from what HMGET answers to the verdict and what HMSET writes
    unfoldable pub script : ℕ → Option (Bucket F) → Verdict F × Bucket F
    unfolding full refill spend
    script now none = spend (refill now (full now))
    script now (some b) = spend (refill now b)

-- A Redis server that keeps a hash for each key: HMGET at a time, and HMSET with an EXPIRE.
pub record Redis (F S : Type 0) : Type 0 where
  pub hmget : String → ℕ → S → Option (Bucket F)
  pub hmset_until : ℕ → String → Bucket F → S → S

-- `_allow_redis`; the bucket is kept for an hour
unfoldable pub allow_redis :
    {F S : Type 0} → Arith F → Limits → Redis F S → String → ℕ → S → Verdict F × S
allow_redis a l redis key now s =
    let (verdict, bucket) = script a l now (redis.hmget key now s) in
    (verdict, redis.hmset_until (now + 3600 * l.ticks) key bucket s)

abbrev pub max_buckets : ℕ
max_buckets = 10000

-- the OrderedDict of the process, the bucket that was used last at the end
abbrev pub Buckets : Type 0 → Type 0
Buckets F = List (String × Bucket F)

unfoldable pub make_room : {F : Type 0} → Buckets F → Buckets F
make_room buckets = if leb max_buckets (length buckets) then drop 1 buckets else buckets

-- the buckets that the one of a key, just made or found, is put behind
others : {F : Type 0} → String → Option (Bucket F) → Buckets F → Buckets F
others key none buckets = make_room buckets
others key (some b) buckets = remove key buckets

module _ {F : Type 0} (a : Arith F) (l : Limits) where
  touched : ℕ → Option (Bucket F) → Bucket F
  touched now none = full a l now
  touched now (some b) = refill a l now b

  -- `_allow_local`
  unfoldable pub allow_local : String → ℕ → Buckets F → Verdict F × Buckets F
  unfolding touched others
  allow_local key now buckets =
      let found = get key buckets in
      let (verdict, bucket) = spend a l (touched now found) in
      (verdict, others key found buckets ++ (key, bucket) ∷ [])

unfoldable pub is_limited : String → Bool
is_limited path = path == "/query" || path == "/ingest"

-- what the middleware answers: the request goes on, or is told to wait so many seconds
pub data Outcome : Type 0 where
  pass : Outcome
  too_many : ℕ → Outcome

unfoldable pub outcome : {F : Type 0} → Arith F → Verdict F → Outcome
outcome a allow = pass
outcome a (refuse x) = too_many (max 1 (a.round x))

module _ (u : Unicode) (l : Limits) (sha256 : String → String) where
  raw_key : String → Option String → Option String → String
  raw_key auth xff host =
      if has_prefix "bearer " (u.lower auth)
      then "tok:" <> after_blank auth
      else "ip:" <> peer_ip u l.trust_proxy xff host

  -- `_key`, of the headers authorization ("" where it is missing) and X-Forwarded-For, and the peer
  unfoldable pub key_of : String → Option String → Option String → String
  unfolding raw_key
  key_of auth xff host = "eurag:rl:" <> Text.take 24 (sha256 (raw_key auth xff host))

-- `dispatch` over a store of buckets that answers with a verdict, or raises (none)
answered : {F S : Type 0} → Arith F → Option (Verdict F) × S → Outcome × S
answered a (none, s) = (pass, s)
answered a (some verdict, s) = (outcome a verdict, s)

unfoldable pub dispatch :
    {F S : Type 0}
    → Arith F
    → (String → S → Option (Verdict F) × S)
    → String
    → String
    → S
    → Outcome × S
unfolding answered
dispatch a allow_key path key s =
    if is_limited path then answered a (allow_key key s) else (pass, s)
