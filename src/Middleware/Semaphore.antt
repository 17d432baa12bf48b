-- ===== src/Middleware/Semaphore.antt =====
-- internal/middleware/semaphore.go: a buffered channel as a counting semaphore.
use finn_api_go.Prelude.{
  ℕ, zero, suc, ◌+◌, ◌-◌, ◌≤◌, ◌<◌, ◌≡◌, refl, Bool, true, false, Option, none, some, arith, ltb,
  leb, if◌then◌else◌, ◌↔◌,
}

-- A channel of tokens: its capacity and how many it holds. No channel is a passthrough.
pub record Tokens : Type 0 where
  pub capacity : ℕ
  pub held : ℕ

pub record ConcurrencyLimiter : Type 0 where
  pub tokens : Option Tokens

-- The constructor's loop sends a token `rounds` times. A send on a full channel would block.
unfoldable pub fill : ℕ → Tokens → Tokens
fill zero t = t
fill (suc rounds) t = fill rounds (record t { held = t.held + 1 })

-- A negative max counts as 0.
unfoldable pub new_concurrency_limiter : ℕ → ConcurrencyLimiter
unfolding fill
new_concurrency_limiter max =
    if leb max 0
    then record { tokens = none }
    else record { tokens = some (fill max (record { capacity = max; held = 0 })) }

-- What `Handler` does before `c.Next`: whether the request goes on.
unfoldable pub enter : ConcurrencyLimiter → Bool × ConcurrencyLimiter
enter l = elim l.tokens [
  | none ↦ (true, l)
  | some t ↦
      if ltb 0 t.held
      then (true, record { tokens = some (record t { held = t.held - 1 }) })
      else (false, l)
]

-- The deferred send of a request that went on. `false` is a send that blocks.
unfoldable pub leave : ConcurrencyLimiter → Bool × ConcurrencyLimiter
leave l = elim l.tokens [
  | none ↦ (true, l)
  | some t ↦
      if ltb t.held t.capacity
      then (true, record { tokens = some (record t { held = t.held + 1 }) })
      else (false, l)
]

-- `Available` and `Capacity`; `none` is -1.
unfoldable pub available : ConcurrencyLimiter → Option ℕ
available l = elim l.tokens [ none ↦ none | some t ↦ some t.held ]

unfoldable pub capacity : ConcurrencyLimiter → Option ℕ
capacity l = elim l.tokens [ none ↦ none | some t ↦ some t.capacity ]

-- A limiter with the number of requests now inside the handler.
pub record Gate : Type 0 where
  pub limiter : ConcurrencyLimiter
  pub inside : ℕ

-- Requests arrive and finish in any order; only one that is inside can finish.
pub data Step (g : Gate) : Gate → Type 0 where
  admitted :
      {l : ConcurrencyLimiter}
      → enter g.limiter ≡ (true, l)
      → Step g (record { limiter = l; inside = g.inside + 1 })
  rejected :
      {l : ConcurrencyLimiter}
      → enter g.limiter ≡ (false, l)
      → Step g (record { limiter = l; inside = g.inside })
  finished :
      {l : ConcurrencyLimiter} {n : ℕ} {sent : Bool}
      → g.inside ≡ suc n
      → leave g.limiter ≡ (sent, l)
      → Step g (record { limiter = l; inside = n })

pub data Reach (g : Gate) : Gate → Type 0 where
  here : Reach g g
  next : {h k : Gate} → Reach g h → Step h k → Reach g k

abbrev pub open_gate : ℕ → Gate
open_gate max = record { limiter = new_concurrency_limiter max; inside = 0 }

-- Tokens held and requests inside add up to the capacity.
pub record Balanced (max : ℕ) (g : Gate) : Type 0 where
  pub is_open :
      (t : Tokens) × (g.limiter.tokens ≡ some t) × (t.capacity ≡ max) × (t.held + g.inside ≡ max)

fill-held : (n : ℕ) (t : Tokens) → (fill n t).held ≡ n + t.held
unfolding fill
fill-held zero t = omega arith
fill-held (suc n) t = omega (arith, fill-held n (record t { held = t.held + 1 }))

fill-capacity : (n : ℕ) (t : Tokens) → (fill n t).capacity ≡ t.capacity
unfolding fill
fill-capacity zero t = refl
fill-capacity (suc n) t = fill-capacity n (record t { held = t.held + 1 })

open_gate-Balanced : (max : ℕ) → 0 < max → Balanced max (open_gate max)
unfolding new_concurrency_limiter
open_gate-Balanced max h = record {
  is_open = (
    fill max (record { capacity = max; held = 0 }),
    ground arith,
    fill-capacity max _,
    omega (arith, fill-held max (record { capacity = max; held = 0 })),
  );
}

Step-Balanced : (max : ℕ) {g h : Gate} → Balanced max g → Step g h → Balanced max h
unfolding enter leave
Step-Balanced max {g} b (admitted e) =
    let t = b.is_open.0 in
    record { is_open = (record t { held = t.held - 1 }, ground arith, ground arith, ground arith) }
Step-Balanced max {g} b (rejected e) = record {
  is_open = (b.is_open.0, ground arith, ground arith, ground arith);
}
Step-Balanced max {g} b (finished p e) =
    let t = b.is_open.0 in
    record { is_open = (record t { held = t.held + 1 }, ground arith, ground arith, ground arith) }

Reach-Balanced : (max : ℕ) {g h : Gate} → Balanced max g → Reach g h → Balanced max h
Reach-Balanced max b here = b
Reach-Balanced max b (next r st) = Step-Balanced max (Reach-Balanced max b r) st

-- However requests arrive and finish, a limiter made for max > 0 never has more than max of them
-- inside; it rejects a request exactly when max are inside, a finishing request never blocks on
-- giving its token back, and the free tokens are those that nobody inside holds.
pub Reach-bounded :
    (max : ℕ) {g : Gate}
    → 0 < max
    → Reach (open_gate max) g
    → (g.inside ≤ max)
      × (((enter g.limiter).0 ≡ false) ↔ (g.inside ≡ max))
      × (0 < g.inside → (leave g.limiter).0 ≡ true)
      × (available g.limiter ≡ some (max - g.inside))
      × (capacity g.limiter ≡ some max)
unfolding enter leave available capacity
Reach-bounded max {g} p r =
    let b = (Reach-Balanced max (open_gate-Balanced max p) r).is_open in
    (
      ground (arith, b),
      (ground (arith, b), ground (arith, b)),
      ground (arith, b),
      ground (arith, b),
      ground (arith, b),
    )
