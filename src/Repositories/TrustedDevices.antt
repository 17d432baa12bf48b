-- ===== src/Repositories/TrustedDevices.antt =====
-- internal/repositories/trusted_device_repository.go: devices that may skip the second factor. The
-- rows are kept in the order of their creation.
use finn_api_go.Prelude.{
  ℕ, ◌+◌, ◌==◌, String, str_eq, Bool, true, not, ◌&&◌, Option, some, List, [], ◌∷◌, ◌++◌, ltb,
}
use finn_api_go.Models.{TrustedDevice}
use finn_api_go.Database.{
  World, Action, ⊤, ◌>>=◌, ◌>>◌, gets, query, raise_if, modify, duplicate_key, record_not_found,
}
use finn_api_go.Database.Table.{first_where, any_where, filter_where, update_where}
use finn_api_go.Repositories.Scope.{owned, require_owner}

-- `ORDER BY created_at DESC`
unfoldable pub latest_first : List TrustedDevice → List TrustedDevice
latest_first [] = []
latest_first (d ∷ ds) = latest_first ds ++ d ∷ []

module _ (tid : String) where
  -- The hash is unique across tenants.
  unfoldable pub create : TrustedDevice → Action ⊤
  create d = do
    require_owner tid d.user_id
    query
    taken ← gets (λ w.
        any_where (λ (o : TrustedDevice). str_eq o.device_hash d.device_hash) w.trusted_devices)
    raise_if taken duplicate_key
    modify (λ w. record w {
      trusted_devices = w.trusted_devices ++ record d { id = w.next_id } ∷ [];
      next_id = w.next_id + 1;
    })

  abbrev pub is_current : ℕ → World → TrustedDevice → Bool
  is_current now w d = owned tid w d.user_id && not d.revoked && ltb now d.expires_at

  abbrev pub has_device_hash : ℕ → World → String → TrustedDevice → Bool
  has_device_hash now w hash d = is_current now w d && str_eq d.device_hash hash

  unfoldable pub find_by_device_hash : ℕ → String → Action (Option TrustedDevice)
  find_by_device_hash now hash = do
    query
    gets (λ w. first_where (has_device_hash now w hash) w.trusted_devices)

  unfoldable pub touch_usage : ℕ → ℕ → Action ⊤
  touch_usage id at = do
    query
    w₀ ← gets (λ w. w)
    let mine = λ (d : TrustedDevice). owned tid w₀ d.user_id && d.id == id
    raise_if (not (any_where mine w₀.trusted_devices)) record_not_found
    modify (λ w. record w {
      trusted_devices =
          update_where mine (λ d. record d { last_used_at = some at }) w.trusted_devices;
    })

  unfoldable pub list_by_user : ℕ → ℕ → Action (List TrustedDevice)
  list_by_user now uid = do
    query
    gets (λ w.
        latest_first (filter_where (λ d. is_current now w d && d.user_id == uid) w.trusted_devices))

  -- MySQL counts the rows that change.
  unfoldable pub revoke : ℕ → ℕ → Action ⊤
  revoke id uid = do
    query
    w₀ ← gets (λ w. w)
    let mine = λ (d : TrustedDevice). owned tid w₀ d.user_id && d.id == id && d.user_id == uid
    let changes = any_where (λ d. mine d && not d.revoked) w₀.trusted_devices
    modify (λ w. record w {
      trusted_devices = update_where mine (λ d. record d { revoked = true }) w.trusted_devices;
    })
    raise_if (not changes) record_not_found
