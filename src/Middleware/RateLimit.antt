-- ===== src/Middleware/RateLimit.antt =====
-- internal/middleware/rate_limit.go: the limiter per client address.
-- The token bucket is golang.org/x/time/rate: a parameter. So is the canonical form of an address
-- (internal/netutil, two calls of Go's net package).
pub mod Window
use finn_api_go.Prelude.{
  ℕ, ◌+◌, ◌-◌, ◌≤◌, ◌<◌, ◌^◌, ◌≡◌, ◌≢◌, refl, String, str_eq, eq_iff, eq_refl, ◌<>◌, Bool, true,
  false, Option, none, some, List, [], ◌∷◌, All, length, arith, ltb, leb, if◌then◌else◌,
}
use finn_api_go.Prelude.Dict.{lookup, insert, lookup-insert}
use finn_api_go.Prelude.Int64.{Int64, lt64, lt64_small, add64, add64_small}
use finn_api_go.Store.{Value, int64, Entry, InMemoryStore, expired, expiry, current}
use finn_api_go.Store

-- `rate.Limiter`: `NewLimiter(rps, burst)` and `Allow` at a time.
pub record BucketLib : Type 1 where
  pub Bucket : Type 0
  pub new_limiter : ℕ → Bucket
  pub allow : ℕ → Bucket → Bool × Bucket

-- What `CounterStore.IncrBy` answers: the store is up, or there is an outage and it answers 0.
pub data Link : Type 0 where
  up outage : Link

module _ (lib : BucketLib) where
  open lib use {Bucket, new_limiter, allow}

  pub record Visitor : Type 0 where
    pub limiter : Bucket
    pub last_seen : ℕ

  pub record RateLimiter : Type 0 where
    pub visitors : List (String × Visitor)
    pub burst : ℕ
    pub entry_ttl : ℕ
    pub shared : Option InMemoryStore
    pub window : ℕ
    pub stopped : Bool
    -- `RateLimitedRequests`
    pub limited : ℕ

  module _ (canonical_ip : String → String) where
    -- The process-local path: `get`, then `Allow` on the shared pointer.
    unfoldable pub allow_local : ℕ → String → RateLimiter → Bool × RateLimiter
    allow_local now ip rl =
        let bucket : Bucket = elim (lookup ip rl.visitors) [
          | none ↦ new_limiter rl.burst
          | some v ↦ v.limiter
        ] in
        let (ok, bucket') = allow now bucket in
        (
          ok,
          record rl {
            visitors = insert ip (record { limiter = bucket'; last_seen = now }) rl.visitors;
            limited = if ok then rl.limited else rl.limited + 1;
          },
        )

    abbrev incr_through : Link → ℕ → String → ℕ → InMemoryStore → Int64 × InMemoryStore
    incr_through up now key window kv = Store.incr_by now key kv 1 window
    incr_through outage now key window kv = (0, kv)

    -- The count decides, unless it is not positive.
    unfoldable pub decide : Int64 → ℕ → String → RateLimiter → Bool × RateLimiter
    unfolding allow_local lt64
    decide n now ip rl =
        if lt64 0 n
        then if lt64 rl.burst n then (false, record rl { limited = rl.limited + 1 }) else (true, rl)
        else allow_local now ip rl

    -- `Handler`: whether the request goes on, or is answered 429.
    unfoldable pub handler : Link → ℕ → String → RateLimiter → Bool × RateLimiter
    unfolding decide
    handler link now client rl = elim rl.shared [
      | none ↦ allow_local now (canonical_ip client) rl
      | some kv ↦
          let ip = canonical_ip client in
          let (n, kv') = incr_through link now ("rate:ip:" <> ip) rl.window kv in
          decide n now ip (record rl { shared = some kv' })
    ]

    -- `sweep`: `v.lastSeen.Before(now - entryTTL)`.
    unfoldable pub keep_recent : ℕ → ℕ → List (String × Visitor) → List (String × Visitor)
    keep_recent now ttl [] = []
    keep_recent now ttl ((ip, v) ∷ rest) =
        if ltb (v.last_seen + ttl) now
        then keep_recent now ttl rest
        else (ip, v) ∷ keep_recent now ttl rest

    unfoldable pub sweep : ℕ → RateLimiter → RateLimiter
    unfolding keep_recent
    sweep now rl = record rl { visitors = keep_recent now rl.entry_ttl rl.visitors }

    unfoldable pub close : RateLimiter → Bool × RateLimiter
    close rl = if rl.stopped then (false, rl) else (true, record rl { stopped = true })
