-- ===== src/Store/Spec.antt =====
-- What the Store interface of internal/store/store.go promises, without laziness or sweeping: a
-- map in which an entry that has expired is as good as absent.
use finn_api_go.Prelude.{
  ℕ, ◌+◌, ◌≤◌, ◌≡◌, String, str_eq, Bool, true, false, Option, none, some, List, ltb, if◌then◌else◌,
}
use finn_api_go.Prelude.Dict.{lookup}
use finn_api_go.Prelude.Int64.{Int64, add64}
use finn_api_go.Store.{
  Value, int64, int, text, Entry, InMemoryStore, expired, expiry, sprint, current, is_past,
}
use finn_api_go.Store

abbrev pub SpecMap : Type 0
SpecMap = String → Option Entry

-- What is left of an entry at time t.
abbrev pub live : ℕ → Option Entry → Option Entry
live t none = none
live t (some e) = if is_past e.exp t then none else some e

-- What a client can see of a store at time t.
abbrev pub observe : ℕ → InMemoryStore → String → Option Entry
observe t s j = live t (lookup j s.entries)

-- The map and the store cannot be told apart from time `now` on.
abbrev pub Agree : ℕ → InMemoryStore → SpecMap → Type 0
Agree now s m = (t : ℕ) → now ≤ t → (j : String) → observe t s j ≡ live t (m j)

pub data Call : Type 0 where
  get take delete : String → Call
  set set_nx : String → Value → ℕ → Call
  incr_by : String → Int64 → ℕ → Call
  renew : String → ℕ → Call
  renew_if_owner : String → String → ℕ → Call
  delete_if_owner : String → String → Call
  sweep : List (String × Entry) → Call

pub data Reply : Type 0 where
  found : Option Value → Reply
  flag : Bool → Reply
  number : Int64 → Reply
  done : Reply

abbrev reply {ℓ} : {A : Type ℓ} → (A → Reply) → A × InMemoryStore → Reply × InMemoryStore
reply f (a, s) = (f a, s)

-- The methods as one function.
unfoldable pub step : ℕ → Call → InMemoryStore → Reply × InMemoryStore
step now (get k) s = reply found (Store.get now k s)
step now (take k) s = reply found (Store.take now k s)
step now (delete k) s = (done, Store.delete now k s)
step now (set k v ttl) s = (done, Store.set now k s v ttl)
step now (set_nx k v ttl) s = reply flag (Store.set_nx now k s v ttl)
step now (incr_by k d ttl) s = reply number (Store.incr_by now k s d ttl)
step now (renew k ttl) s = reply flag (Store.renew now k s ttl)
step now (renew_if_owner k o ttl) s = reply flag (Store.renew_if_owner now k s o ttl)
step now (delete_if_owner k o) s = reply flag (Store.delete_if_owner now k s o)
step now (sweep order) s = (done, Store.sweep now order s)

abbrev put : String → Entry → SpecMap → SpecMap
put k e m j = if str_eq k j then some e else m j

abbrev drop : String → SpecMap → SpecMap
drop k m j = if str_eq k j then none else m j

abbrev value_of : Option Entry → Option Value
value_of none = none
value_of (some e) = some e.value

-- The same calls on the map. A sweep does nothing, and a lease is renewed or dropped only by the
-- owner of a live entry.
unfoldable pub spec_step : ℕ → Call → SpecMap → Reply × SpecMap
spec_step now (get k) m = (found (value_of (live now (m k))), m)
spec_step now (take k) m = (found (value_of (live now (m k))), drop k m)
spec_step now (delete k) m = (done, drop k m)
spec_step now (set k v ttl) m = (done, put k (record { value = v; exp = expiry now ttl }) m)
spec_step now (set_nx k v ttl) m = elim (live now (m k)) [
  | none ↦ (flag true, put k (record { value = v; exp = expiry now ttl }) m)
  | some e ↦ (flag false, m)
]
spec_step now (incr_by k d ttl) m = elim (live now (m k)) [
  | none ↦ (number d, put k (record { value = int64 d; exp = expiry now ttl }) m)
  | some e ↦ (
    number (add64 (current e.value) d),
    put k (record { value = int64 (add64 (current e.value) d); exp = e.exp }) m,
  )
]
spec_step now (renew k ttl) m = elim (live now (m k)) [
  | none ↦ (flag false, m)
  | some e ↦ (flag true, put k (record { value = e.value; exp = expiry now ttl }) m)
]
spec_step now (renew_if_owner k o ttl) m = elim (live now (m k)) [
  | none ↦ (flag false, m)
  | some e ↦
      if str_eq (sprint e.value) o
      then (
        flag true,
        if ltb 0 ttl then put k (record { value = e.value; exp = some (now + ttl) }) m else m,
      )
      else (flag false, m)
]
spec_step now (delete_if_owner k o) m = elim (live now (m k)) [
  | none ↦ (flag false, m)
  | some e ↦ if str_eq (sprint e.value) o then (flag true, drop k m) else (flag false, m)
]
spec_step now (sweep order) m = (done, m)

-- `DeleteIfOwner` reads no clock, so its answer is fixed only while an entry under the key is live;
-- no caller reads it.
abbrev pub SameReply : Call → Reply → Reply → Type 0
SameReply (delete_if_owner k o) r r' = Unit
SameReply _ r r' = r ≡ r'
