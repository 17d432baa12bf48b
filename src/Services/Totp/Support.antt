-- ===== src/Services/Totp/Support.antt =====
-- What the guards and counters of internal/services/totp_service.go do to the state: lemmas.
use finn_api_go.Prelude.{
  ℕ, ◌≡◌, refl, String, ◌<>◌, str_eq, false, Option, none, some, arith, Option-cases, inl, inr,
}
use finn_api_go.Prelude.Dict.{lookup, lookup-insert, lookup-erase}
use finn_api_go.Prelude.Text.{heads_apart}
use finn_api_go.Prelude.Int64.{show_uint}
use finn_api_go.Models.{TotpDevice}
use finn_api_go.Store.{InMemoryStore, Entry, Value, text, is_past, expired, expiry}
use finn_api_go.Store
use finn_api_go.Database.{World, Error, err, query}
use finn_api_go.Database.Frame.{Frame}
use finn_api_go.Repositories.Totp
use finn_api_go.Crypto.{encrypt, generate_random_bytes}
use finn_api_go.Services.{Env}
use finn_api_go.Services.Support.{audit, store_do, store_call, store_counter_value, count_metric}
use finn_api_go.Services.Totp.{
  TotpService, fail_key, record_failure, record_success, fail_with, guard_brute_force,
  open_active_secret, heal,
}

pub keys_apart : (uid : ℕ) (x : String) → str_eq (fail_key uid) ("totp:replay:" <> x) ≡ false
keys_apart uid x = heads_apart "totp:f" "totp:r" "ail:" "eplay:" (show_uint uid) x refl refl

module _ (env : Env) (svc : TotpService) (tid : String) (now : ℕ) (uid : ℕ) where
  pub fail_with-err :
      {A : Type 0} (e : Error) (detail : String) (w : World)
      → (fail_with env svc tid now {A = A} e uid detail w).0 ≡ err e
  unfolding record_failure store_do store_call audit count_metric
  fail_with-err e detail w = ground arith

-- The entry of a key in the shared store, if there is a store.
abbrev pub store_at : String → World → Option Entry
store_at k w = elim w.store [ none ↦ none | some s ↦ lookup k s.entries ]

module _ (env : Env) (svc : TotpService) (tid : String) (now : ℕ) (uid : ℕ) (k : String)
    (apart : str_eq (fail_key uid) k ≡ false) where
  get_fail-at :
      (s : InMemoryStore) → lookup k (Store.get now (fail_key uid) s).1.entries ≡ lookup k s.entries
  unfolding Store.get
  get_fail-at s = ground (arith, apart, lookup-erase (fail_key uid) k s.entries)

  incr_fail-at :
      (ttl : ℕ) (s : InMemoryStore)
      → lookup k (Store.incr_by now (fail_key uid) s 1 ttl).1.entries ≡ lookup k s.entries
  unfolding Store.incr_by
  incr_fail-at ttl s = grind (arith, apart, lookup-insert)

  pub record_failure-at :
      (detail : String) → Frame (store_at k) (record_failure env svc tid now uid detail)
  unfolding record_failure store_do store_call audit count_metric
  record_failure-at detail w = elim (Option-cases w.store) [
    | inl n ↦ ground (arith, n)
    | inr (s, e) ↦ ground (arith, e, incr_fail-at svc.cfg.totp_attempt_window s)
  ]

  pub record_success-at :
      (event detail : String) → Frame (store_at k) (record_success env svc tid now uid event detail)
  unfolding record_success store_do store_call audit Store.delete
  record_success-at event detail w = elim (Option-cases w.store) [
    | inl n ↦ ground (arith, n)
    | inr (s, e) ↦ ground (arith, e, apart, lookup-erase (fail_key uid) k s.entries)
  ]

  pub guard_brute_force-at : Frame (store_at k) (guard_brute_force env svc tid now uid)
  unfolding guard_brute_force store_counter_value store_call
  guard_brute_force-at w = elim (Option-cases w.store) [
    | inl n ↦ ground (arith, n)
    | inr (s, e) ↦
        let w' : World = record w { store = some (Store.get now (fail_key uid) s).1 } in
        ground (arith, e, get_fail-at s, record_failure-at "brute-force lockout" w')
  ]

module _ (env : Env) (svc : TotpService) (tid : String) (now : ℕ) where
  heal-store : (d : TotpDevice) → Frame (λ w. w.store) (heal env svc tid now d)
  unfolding heal encrypt generate_random_bytes Totp.upsert query
  heal-store d w = ground arith

  pub open_active_secret-store :
      (d : TotpDevice) → Frame (λ w. w.store) (open_active_secret env svc tid now d)
  unfolding open_active_secret
  open_active_secret-store d w = ground (arith, heal-store d w)
