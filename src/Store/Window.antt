-- ===== src/Store/Window.antt =====
-- `IncrBy` of internal/store/store.go as a fixed window, and the keys that are taken once.
use finn_api_go.Prelude.{
  ℕ, suc, ◌+◌, ◌^◌, ◌≤◌, ◌<◌, ◌≡◌, refl, String, eq_refl, true, false, none, some, List, [], ◌∷◌,
  All, length, arith,
}
use finn_api_go.Prelude.Dict.{lookup, lookup-insert, lookup-erase}
use finn_api_go.Prelude.Int64.{Int64, add64_small}
use finn_api_go.Store.{Value, int64, text, Entry, InMemoryStore, is_past, expired, expiry, current}
use finn_api_go.Store
use finn_api_go.Store.Spec.{observe}

-- Increments by one of one key, at the given times.
unfoldable pub hits : String → ℕ → List ℕ → InMemoryStore → List Int64 × InMemoryStore
hits k ttl [] s = ([], s)
hits k ttl (now ∷ times) s =
    let (n, s') = Store.incr_by now k s 1 ttl in
    let (ns, s'') = hits k ttl times s' in (n ∷ ns, s'')

abbrev pub count_from : ℕ → ℕ → List ℕ
count_from c ℕ.zero = []
count_from c (suc n) = (c + 1) ∷ count_from (c + 1) n

-- A counter at c, whose window ends at `end`.
abbrev pub At : String → ℕ → ℕ → InMemoryStore → Type 0
At k c end s = lookup k s.entries ≡ some (record { value = int64 c; exp = some end })

pub incr_by-At :
    (now c end ttl : ℕ) (k : String) (s : InMemoryStore)
    → At k c end s
    → now ≤ end
    → c + 1 < 2 ^ 64
    → let (n, s') = Store.incr_by now k s 1 ttl in (n ≡ c + 1) × At k (c + 1) end s'
unfolding Store.incr_by
incr_by-At now c end ttl k s a h b = grind (arith, lookup-insert, eq_refl, add64_small c 1)

hits-At :
    (c end ttl : ℕ) (k : String) (times : List ℕ) (s : InMemoryStore)
    → At k c end s
    → All (λ t. t ≤ end) times
    → c + length times < 2 ^ 64
    → let (ns, s') = hits k ttl times s in
      (ns ≡ count_from c (length times)) × At k (c + length times) end s'
unfolding hits
hits-At c end ttl k [] s a h b = (refl, ground arith)
hits-At c end ttl k (now ∷ times) s a h b =
    let one = incr_by-At now c end ttl k s a h.0 (omega arith) in
    let rest =
      hits-At (c + 1) end ttl k times (Store.incr_by now k s 1 ttl).1 one.1 h.1 (omega arith) in
    ground arith

-- The first increment of a window sets its end.
pub incr_by_first :
    (now ttl : ℕ) (k : String) (s : InMemoryStore)
    → observe now s k ≡ none
    → 0 < ttl
    → let (n, s') = Store.incr_by now k s 1 ttl in (n ≡ 1) × At k 1 (now + ttl) s'
unfolding Store.incr_by expiry
incr_by_first now ttl k s a h = grind (arith, lookup-insert, eq_refl)

-- Of a counter that is not live, n increments in one window, the first at time t0 and none later
-- than t0 + ttl, return 1, 2, …, n; the counter then stands at n, and the window still ends at
-- t0 + ttl however late the last increment came. (n < 2^64.)
pub hits_count :
    (k : String) (t0 ttl : ℕ) (times : List ℕ) (s : InMemoryStore)
    → observe t0 s k ≡ none
    → 0 < ttl
    → All (λ t. t ≤ t0 + ttl) times
    → 1 + length times < 2 ^ 64
    → let (ns, s') = hits k ttl (t0 ∷ times) s in
      (ns ≡ count_from 0 (1 + length times))
      × (lookup k s'.entries
          ≡ some (record { value = int64 (1 + length times); exp = some (t0 + ttl) }))
unfolding hits
hits_count k t0 ttl times s h p q b =
    let one = incr_by_first t0 ttl k s h p in
    let rest = hits-At 1 (t0 + ttl) ttl k times (Store.incr_by t0 k s 1 ttl).1 one.1 q b in
    ground arith

-- After a `SetNX` that wrote, every `SetNX` on the key up to the end of its term is refused and
-- changes nothing, and every one after that writes again.
pub set_nx_exclusive :
    (now t ttl ttl' : ℕ) (k : String) (v v' : Value) (s : InMemoryStore)
    → 0 < ttl
    → (Store.set_nx now k s v ttl).0 ≡ true
    → let s' = (Store.set_nx now k s v ttl).1 in
      (t ≤ now + ttl → Store.set_nx t k s' v' ttl' ≡ (false, s'))
      × (now + ttl < t → (Store.set_nx t k s' v' ttl').0 ≡ true)
unfolding Store.set_nx
set_nx_exclusive now t ttl ttl' k v v' s p w =
    (λ h. grind (arith, lookup-insert, eq_refl), λ h. grind (arith, lookup-insert, eq_refl))

-- Of two `Take`s of one key, whenever they come, at most one gets a value, and a `Take` that got
-- one leaves nothing for `Get` either.
pub take_once :
    (now t : ℕ) (k : String) (v : Value) (s : InMemoryStore)
    → (Store.take now k s).0 ≡ some v
    → let s' = (Store.take now k s).1 in
      ((Store.take t k s').0 ≡ none) × ((Store.get t k s').0 ≡ none)
unfolding Store.take Store.get
take_once now t k v s h =
    (grind (arith, lookup-erase, eq_refl), grind (arith, lookup-erase, eq_refl))
