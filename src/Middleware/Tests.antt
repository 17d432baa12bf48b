-- ===== src/Middleware/Tests.antt =====
-- The properties of the limiters at concrete inputs.
use finn_api_go.Prelude.{
  ℕ, ◌+◌, ◌-◌, ◌^◌, ◌≡◌, ◌<◌, ◌≤◌, ◌↔◌, refl, String, ◌<>◌, true, false, none, some, List, [], ◌∷◌,
  arith,
}
use Prim.Native.Nat.{min}
use finn_api_go.Prelude.Dict.{lookup}
use finn_api_go.Store.{new_in_memory_store}
use finn_api_go.Store.Spec.{observe}
use finn_api_go.Middleware.Semaphore.{
  Gate, here, next, admitted, open_gate, Reach-bounded, enter, leave, new_concurrency_limiter,
  available, capacity,
}
use finn_api_go.Middleware.RateLimit.{BucketLib, RateLimiter}
use finn_api_go.Middleware.RateLimit.Window.{asked, passed, window_passes}

-- One request in a gate of two.
abbrev one_inside : Gate
one_inside = record { limiter = (enter (open_gate 2).limiter).1; inside = 1 }

one_enters : enter (open_gate 2).limiter ≡ (true, one_inside.limiter)
unfolding enter new_concurrency_limiter
one_enters = refl

Reach-bounded_example :
    (1 ≤ 2)
    × (((enter one_inside.limiter).0 ≡ false) ↔ (one_inside.inside ≡ 2))
    × (0 < 1 → (leave one_inside.limiter).0 ≡ true)
    × (available one_inside.limiter ≡ some (2 - 1))
    × (capacity one_inside.limiter ≡ some 2)
Reach-bounded_example = Reach-bounded 2 (omega arith) (next here (admitted one_enters))

abbrev lib : BucketLib
lib = record { Bucket = ℕ; new_limiter = λ burst. burst; allow = λ now b. (false, b) }

abbrev limiter : RateLimiter lib
limiter = record {
  visitors = [];
  burst = 2;
  entry_ttl = 600;
  shared = some new_in_memory_store;
  window = 60;
  stopped = false;
  limited = 0;
}

abbrev same : String → String
same ip = ip

abbrev requests : List (ℕ × String)
requests = (6, "b") ∷ (7, "a") ∷ (8, "a") ∷ []

new_client : observe 5 new_in_memory_store ("rate:ip:" <> "a") ≡ none
unfolding lookup
new_client = refl

few : 1 + asked lib same "a" requests < 2 ^ 63
unfolding asked
few = omega arith

window_passes_example :
    passed lib same "a" ((5, "a") ∷ requests) limiter
    ≡ min 2 (asked lib same "a" ((5, "a") ∷ requests))
window_passes_example =
    window_passes lib same 5 "a" requests limiter new_in_memory_store refl new_client (omega arith)
      (omega arith, (omega arith, (omega arith, tt))) (omega arith) few
