-- ===== src/Middleware/RateLimit/Window.antt =====
-- The shared counter of internal/middleware/rate_limit.go as a fixed window for each address.
use finn_api_go.Prelude.{
  ℕ, ◌+◌, ◌≤◌, ◌<◌, ◌^◌, ◌≡◌, ◌≢◌, String, str_eq, eq_iff, eq_refl, ◌<>◌, none, some, List, [], ◌∷◌,
  All, arith, leb, if◌then◌else◌, ◌&&◌, Bool-cases, inl, inr,
}
use Prim.Native.Nat.{min}
use text.Mathlib.TextLemmas.{append_cancel_left}
use finn_api_go.Prelude.Dict.{lookup, lookup-insert}
use finn_api_go.Prelude.Int64.{lt64_small, add64_small}
use finn_api_go.Store.{Value, int64, Entry, InMemoryStore, expired, expiry, current}
use finn_api_go.Store
use finn_api_go.Store.Spec.{observe}
use finn_api_go.Store.Window.{incr_by_first}
use finn_api_go.Middleware.RateLimit.{BucketLib, RateLimiter, up, handler}

module _ (lib : BucketLib) (canonical_ip : String → String) where
  -- The requests from one address, of a list of requests with their times.
  unfoldable pub asked : String → List (ℕ × String) → ℕ
  asked ip [] = 0
  asked ip ((now, client) ∷ rs) = (if str_eq (canonical_ip client) ip then 1 else 0) + asked ip rs

  -- How many of them go on.
  unfoldable pub passed : String → List (ℕ × String) → RateLimiter lib → ℕ
  passed ip [] rl = 0
  passed ip ((now, client) ∷ rs) rl =
      let (ok, rl') = handler lib canonical_ip up now client rl in
      (if ok && str_eq (canonical_ip client) ip then 1 else 0) + passed ip rs rl'

  -- The counter of an address, in a limiter with a store.
  abbrev key : String → String
  key ip = "rate:ip:" <> ip

  -- The counter of an address stands at c, in a window that ends at `end`.
  abbrev At : String → ℕ → ℕ → InMemoryStore → Type 0
  At ip c end kv = lookup (key ip) kv.entries ≡ some (record { value = int64 c; exp = some end })

  key_inj : (a b : String) → key a ≡ key b → a ≡ b
  key_inj a b e = append_cancel_left "rate:ip:" a b e

  incr_by-At :
      (now c end ttl : ℕ) (ip : String) (kv : InMemoryStore)
      → At ip c end kv
      → now ≤ end
      → c + 1 < 2 ^ 64
      → let (n, kv') = Store.incr_by now (key ip) kv 1 ttl in (n ≡ c + 1) × At ip (c + 1) end kv'
  unfolding Store.incr_by
  incr_by-At now c end ttl ip kv a h b = grind (arith, lookup-insert, eq_refl, add64_small c 1)

  incr_by-At_other :
      (now c end ttl : ℕ) (ip other : String) (kv : InMemoryStore)
      → At ip c end kv
      → other ≢ ip
      → At ip c end (Store.incr_by now (key other) kv 1 ttl).1
  unfolding Store.incr_by
  incr_by-At_other now c end ttl ip other kv a ne =
      grind (arith, lookup-insert, eq_iff (key other) (key ip), key_inj other ip)

  -- Whatever the handler decides, it has counted the request and kept its settings.
  handler-shared :
      (now : ℕ) (client : String) (rl : RateLimiter lib) (kv : InMemoryStore)
      → rl.shared ≡ some kv
      → let rl' = (handler lib canonical_ip up now client rl).1 in
        (rl'.shared ≡ some (Store.incr_by now (key (canonical_ip client)) kv 1 rl.window).1)
        × (rl'.burst ≡ rl.burst)
        × (rl'.window ≡ rl.window)
  unfolding handler
  handler-shared now client rl kv e = ground arith

  -- A positive count decides by itself.
  handler-passes :
      (now c : ℕ) (client : String) (rl : RateLimiter lib) (kv : InMemoryStore)
      → rl.shared ≡ some kv
      → (Store.incr_by now (key (canonical_ip client)) kv 1 rl.window).0 ≡ c + 1
      → c + 1 < 2 ^ 63
      → rl.burst < 2 ^ 63
      → (handler lib canonical_ip up now client rl).0 ≡ leb (c + 1) rl.burst
  unfolding handler
  handler-passes now c client rl kv e n b q =
      ground (arith, lt64_small 0 (c + 1), lt64_small rl.burst (c + 1))

  passed-At :
      (ip : String) (c end : ℕ) (rs : List (ℕ × String)) (rl : RateLimiter lib) (kv : InMemoryStore)
      → rl.shared ≡ some kv
      → At ip c end kv
      → All (λ (r : ℕ × String). r.0 ≤ end) rs
      → rl.burst < 2 ^ 63
      → c + asked ip rs < 2 ^ 63
      → passed ip rs rl + min rl.burst c ≡ min rl.burst (c + asked ip rs)
  unfolding passed asked
  passed-At ip c end [] rl kv e a h q b = omega arith
  passed-At ip c end ((now, client) ∷ rs) rl kv e a h q b =
      let kv' = (Store.incr_by now (key (canonical_ip client)) kv 1 rl.window).1 in
      let rl' = (handler lib canonical_ip up now client rl).1 in
      let hs = handler-shared now client rl kv e in
      elim (Bool-cases (str_eq (canonical_ip client) ip)) [
        | inl same ↦
            let p : canonical_ip client ≡ ip = (eq_iff (canonical_ip client) ip).0 same in
            let one : ((Store.incr_by now (key (canonical_ip client)) kv 1 rl.window).0 ≡ c + 1)
                × At ip (c + 1) end kv' =
              rw p (incr_by-At now c end rl.window ip kv a h.0 (ground arith)) in
            let hp = handler-passes now c client rl kv e one.0 (ground arith) q in
            let ih =
              passed-At ip (c + 1) end rs rl' kv' hs.0 one.1 h.1 (ground arith) (ground arith) in
            rw (same, hp) (ground (arith, ih))
        | inr other ↦
            let ne : canonical_ip client ≢ ip =
              λ p. ground (arith, eq_iff (canonical_ip client) ip) in
            let kept = incr_by-At_other now c end rl.window ip (canonical_ip client) kv a ne in
            let ih = passed-At ip c end rs rl' kv' hs.0 kept h.1 (ground arith) (ground arith) in
            ground (arith, ih)
      ]

  -- With the store up, of the requests from one address in a window, mixed with any from other
  -- addresses, exactly min(burst, number of them) go on. The window begins at time t0 with the
  -- first of them, when the address has no live counter, and the others come no later than
  -- t0 + window. (burst and the number of requests are below 2^63.)
  pub window_passes :
      (t0 : ℕ) (client : String) (rs : List (ℕ × String)) (rl : RateLimiter lib)
      (kv : InMemoryStore)
      → rl.shared ≡ some kv
      → observe t0 kv ("rate:ip:" <> canonical_ip client) ≡ none
      → 0 < rl.window
      → All (λ (r : ℕ × String). r.0 ≤ t0 + rl.window) rs
      → rl.burst < 2 ^ 63
      → 1 + asked (canonical_ip client) rs < 2 ^ 63
      → passed (canonical_ip client) ((t0, client) ∷ rs) rl
        ≡ min rl.burst (asked (canonical_ip client) ((t0, client) ∷ rs))
  unfolding passed asked
  window_passes t0 client rs rl kv e fresh w h q b =
      let ip = canonical_ip client in
      let hs = handler-shared t0 client rl kv e in
      let one = incr_by_first t0 rl.window (key ip) kv fresh w in
      let hp = handler-passes t0 0 client rl kv e (ground (arith, one)) (omega arith) q in
      let ih =
        passed-At ip 1 (t0 + rl.window) rs (handler lib canonical_ip up t0 client rl).1
          (Store.incr_by t0 (key ip) kv 1 rl.window).1 hs.0 one.1 h (ground (arith, hs))
          (omega arith) in
      rw (hp, eq_refl ip) (ground (arith, ih, hs))
