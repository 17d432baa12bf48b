-- ===== src/Store.antt =====
-- internal/store/store.go and security.go: the key-value store with expiry, in memory.
-- The mutex makes each method one step, so a method is a function of the map and of the time that
-- it reads. Times and durations count nanoseconds; every method treats a negative duration as 0.
pub mod Spec
pub mod Refine
pub mod History
pub mod Window
mod Tests
use finn_api_go.Prelude.{
  ℕ, ◌+◌, String, str_eq, ◌<>◌, Bool, true, false, ◌&&◌, ◌||◌, not, Option, none, some, List, [],
  ◌∷◌, ltb, leb, length, if◌then◌else◌,
}
use finn_api_go.Prelude.Dict.{lookup, insert, erase}
use finn_api_go.Prelude.Int64.{Int64, add64, lt64, show64}

-- A value of Go's `any`, as far as the program stores or tests one.
pub data Value : Type 0 where
  int64 : Int64 → Value
  int : Int64 → Value
  text : String → Value

-- `fmt.Sprint`
unfoldable pub sprint : Value → String
sprint (int64 n) = show64 n
sprint (int n) = show64 n
sprint (text s) = s

-- `exp = none` is Go's zero time: the entry never expires.
pub record Entry : Type 0 where
  pub value : Value
  pub exp : Option ℕ

-- The number that `IncrBy` reads out of a value: only an int64 counts.
unfoldable pub current : Value → Int64
current (int64 n) = n
current (int n) = 0
current (text s) = 0

-- `now.After(e.exp)`
abbrev pub is_past : Option ℕ → ℕ → Bool
is_past none now = false
is_past (some t) now = ltb t now

unfoldable pub expired : Entry → ℕ → Bool
expired e now = is_past e.exp now

pub record InMemoryStore : Type 0 where
  pub entries : List (String × Entry)
  pub stopped : Bool

abbrev pub new_in_memory_store : InMemoryStore
new_in_memory_store = record { entries = []; stopped = false }

-- `if ttl > 0 { exp = now.Add(ttl) }`
unfoldable pub expiry : ℕ → ℕ → Option ℕ
expiry now ttl = if ltb 0 ttl then some (now + ttl) else none

abbrev pub is_some : Option Value → Bool
is_some none = false
is_some (some v) = true

abbrev put : String → Entry → InMemoryStore → InMemoryStore
put key e s = record s { entries = insert key e s.entries }

abbrev remove : String → InMemoryStore → InMemoryStore
remove key s = record s { entries = erase key s.entries }

module _ (now : ℕ) (key : String) (s : InMemoryStore) where
  unfoldable pub get : Option Value × InMemoryStore
  unfolding expired
  get = elim (lookup key s.entries) [
    | none ↦ (none, s)
    | some e ↦ if expired e now then (none, remove key s) else (some e.value, s)
  ]

  unfoldable pub take : Option Value × InMemoryStore
  unfolding expired
  take = elim (lookup key s.entries) [
    | none ↦ (none, s)
    | some e ↦ (if expired e now then none else some e.value, remove key s)
  ]

  unfoldable pub set : Value → ℕ → InMemoryStore
  unfolding expiry
  set value ttl = put key (record { value = value; exp = expiry now ttl }) s

  unfoldable pub set_nx : Value → ℕ → Bool × InMemoryStore
  unfolding expired set
  set_nx value ttl = elim (lookup key s.entries) [
    | none ↦ (true, set value ttl)
    | some e ↦ if expired e now then (true, set value ttl) else (false, s)
  ]

  -- A first increment sets the expiry, and later ones keep it.
  unfoldable pub incr_by : Int64 → ℕ → Int64 × InMemoryStore
  unfolding expired expiry add64 current
  incr_by delta ttl =
      let fresh : Int64 × InMemoryStore =
        (delta, put key (record { value = int64 delta; exp = expiry now ttl }) s) in
      elim (lookup key s.entries) [
        | none ↦ fresh
        | some e ↦ if expired e now then fresh else (
          add64 (current e.value) delta,
          put key (record { value = int64 (add64 (current e.value) delta); exp = e.exp }) s,
        )
      ]

  unfoldable pub delete : InMemoryStore
  delete = remove key s

  unfoldable pub renew : ℕ → Bool × InMemoryStore
  unfolding expired expiry
  renew ttl = elim (lookup key s.entries) [
    | none ↦ (false, s)
    | some e ↦
        if expired e now
        then (false, s)
        else (true, put key (record { value = e.value; exp = expiry now ttl }) s)
  ]

  unfoldable pub renew_if_owner : String → ℕ → Bool × InMemoryStore
  unfolding expired
  renew_if_owner owner ttl = elim (lookup key s.entries) [
    | none ↦ (false, s)
    | some e ↦
        if expired e now
        then (false, s)
        else if not (str_eq (sprint e.value) owner)
        then (false, s)
        else if ltb 0 ttl
        then (true, put key (record { value = e.value; exp = some (now + ttl) }) s)
        else (true, s)
  ]

  -- It reads no clock: an expired entry that nobody has reaped is still deleted.
  unfoldable pub delete_if_owner : String → Bool × InMemoryStore
  delete_if_owner owner = elim (lookup key s.entries) [
    | none ↦ (false, s)
    | some e ↦ if not (str_eq (sprint e.value) owner) then (false, s) else (true, remove key s)
  ]

-- `const batchSize`
abbrev pub batch_size : ℕ
batch_size = 1000

-- The first loop of `sweep`. Go visits a map in any order, so the order is an argument: the pairs
-- that `range` yields. `found` counts those collected so far.
unfoldable pub collect_expired : ℕ → List (String × Entry) → ℕ → List String
unfolding expired
collect_expired now [] found = []
collect_expired now ((k, e) ∷ rest) found =
    let more = collect_expired now rest (found + 1) in
    let others = collect_expired now rest found in
    if expired e now
    then k ∷ (if leb batch_size (found + 1) then [] else more)
    else (if leb batch_size found then [] else others)

-- The second loop of `sweep`.
unfoldable pub delete_all : List String → List (String × Entry) → List (String × Entry)
delete_all [] m = m
delete_all (k ∷ ks) m = delete_all ks (erase k m)

unfoldable pub sweep : ℕ → List (String × Entry) → InMemoryStore → InMemoryStore
unfolding collect_expired delete_all
sweep now order s = record s { entries = delete_all (collect_expired now order 0) s.entries }

-- `Close`: the channel is closed once, whoever calls first.
unfoldable pub close : InMemoryStore → Bool × InMemoryStore
close s = if s.stopped then (false, s) else (true, record s { stopped = true })

-- `Admit` of security.go
unfoldable pub admit : ℕ → String → InMemoryStore → Int64 → ℕ → Bool × InMemoryStore
unfolding incr_by lt64
admit now key s limit window = let (n, s') = incr_by now key s 1 window in (not (lt64 limit n), s')

-- `Revoked` of security.go: both keys are read, the token's and the session's.
unfoldable pub revoked : ℕ → String → String → InMemoryStore → Bool × InMemoryStore
unfolding get
revoked now jti sid s =
    let (j, s₁) = get now ("denylist:jti:" <> jti) s in
    let (f, s₂) = get now ("denylist:sid:" <> sid) s₁ in (is_some j || is_some f, s₂)
