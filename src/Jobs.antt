-- ===== src/Jobs.antt =====
-- internal/jobs/leader.go: leader election over a lock in the shared store.
pub mod Exclusive
mod Tests
use finn_api_go.Prelude.{ℕ, String, str_eq, Bool, true, false, Option, none, some, if◌then◌else◌}
use finn_api_go.Prelude.Int64.{Int64}
use finn_api_go.Store.{Value, int64, int, text, InMemoryStore}
use finn_api_go.Store

-- The optional capabilities that a type assertion on the store finds.
pub data Capability : Type 0 where
  owner_lock_manager renewer plain : Capability

-- `lock_key` is "jobs:leader:" and the job's name; `self` is a fresh UUID.
pub record LeaderRunner : Type 0 where
  pub lock_key : String
  pub self : String
  pub lock_ttl : ℕ
  pub capability : Capability

-- `owner == r.self` at type `any`: equal only if both are strings.
abbrev pub is_text : String → Option Value → Bool
is_text self none = false
is_text self (some (int64 n)) = false
is_text self (some (int n)) = false
is_text self (some (text s)) = str_eq s self

-- The legacy `Get`, then `Renew`.
check_then_renew : Capability → ℕ → ℕ → LeaderRunner → InMemoryStore → Bool × InMemoryStore
check_then_renew owner_lock_manager now later r s = (false, s)
check_then_renew renewer now later r s =
    let (owner, s') = Store.get now r.lock_key s in
    if is_text r.self owner then Store.renew later r.lock_key s' r.lock_ttl else (false, s')
check_then_renew plain now later r s = (false, (Store.get now r.lock_key s).1)

-- What `isLeader` does when `SetNX` was refused.
unfoldable pub refresh_claim :
    Capability → ℕ → ℕ → LeaderRunner → InMemoryStore → Bool × InMemoryStore
unfolding check_then_renew
refresh_claim owner_lock_manager now later r s =
    Store.renew_if_owner now r.lock_key s r.self r.lock_ttl
refresh_claim renewer now later r s = check_then_renew renewer now later r s
refresh_claim plain now later r s = check_then_renew plain now later r s

-- The store is called up to three times, each at its own time.
unfoldable pub is_leader : ℕ → ℕ → ℕ → LeaderRunner → InMemoryStore → Bool × InMemoryStore
unfolding refresh_claim
is_leader now later last r s =
    let (won, s') = Store.set_nx now r.lock_key s (text r.self) r.lock_ttl in
    if won then (true, s') else refresh_claim r.capability later last r s'

-- `isSelfLeader`
unfoldable pub is_self_leader : ℕ → LeaderRunner → InMemoryStore → Bool × InMemoryStore
is_self_leader now r s = let (owner, s') = Store.get now r.lock_key s in (is_text r.self owner, s')

unfoldable pub release_lock : ℕ → LeaderRunner → InMemoryStore → InMemoryStore
unfolding is_self_leader
release_lock now r s = elim r.capability [
  | owner_lock_manager ↦ (Store.delete_if_owner now r.lock_key s r.self).1
  | _ ↦
      let (mine, s') = is_self_leader now r s in if mine then Store.delete now r.lock_key s' else s'
]

-- One tick of `loop`: the job runs only for the leader.
unfoldable pub tick {ℓ} :
    {J : Type ℓ} → ℕ → ℕ → ℕ → LeaderRunner → (J → J) → J → InMemoryStore → J × InMemoryStore
unfolding is_leader
tick now later last r fn j s =
    let (leads, s') = is_leader now later last r s in (if leads then fn j else j, s')
