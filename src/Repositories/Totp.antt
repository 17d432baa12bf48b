-- ===== src/Repositories/Totp.antt =====
-- internal/repositories/totp_repository.go: devices and recovery codes, bound to the tenant of their
-- owner.
use finn_api_go.Prelude.{
  ℕ, ◌+◌, ◌==◌, String, Bool, true, false, not, ◌&&◌, Option, none, some, List, [], ◌∷◌, ◌++◌,
  if◌then◌else◌,
}
use finn_api_go.Models.{TotpDevice, RecoveryCode}
use finn_api_go.Database.{
  World, Action, ⊤, ◌>>=◌, ◌>>◌, pure, gets, query, raise_if, modify, transaction, record_not_found,
  recovery_code_used, duplicate_key,
}
use finn_api_go.Database.Table.{any_where, first_where, filter_where, update_where, delete_where}
use finn_api_go.Repositories.Scope.{owned, require_owner}

abbrev pub is_unused : RecoveryCode → Bool
is_unused c = elim c.used_at [ none ↦ true | some t ↦ false ]

-- The rows as they are inserted, with their new keys.
unfoldable pub numbered : ℕ → List RecoveryCode → List RecoveryCode
numbered next [] = []
numbered next (c ∷ cs) = record c { id = next } ∷ numbered (next + 1) cs

abbrev pub count_of : List RecoveryCode → ℕ
count_of [] = 0
count_of (c ∷ cs) = count_of cs + 1

abbrev pub is_empty_list : List RecoveryCode → Bool
is_empty_list [] = true
is_empty_list (c ∷ cs) = false

module _ (tid : String) where
  abbrev pub device_of : World → ℕ → TotpDevice → Bool
  device_of w uid d = owned tid w d.user_id && d.user_id == uid

  unfoldable pub find_by_user_id : ℕ → Action (Option TotpDevice)
  find_by_user_id uid = do query; gets (λ w. first_where (device_of w uid) w.totp_devices)

  -- Of an updated row its id, its owner and its time of creation stay.
  abbrev pub written : TotpDevice → TotpDevice → TotpDevice
  written d old = record d { id = old.id; user_id = old.user_id }

  abbrev pub same_row : World → TotpDevice → TotpDevice → Bool
  same_row w d old = owned tid w old.user_id && old.id == d.id && old.user_id == d.user_id

  -- `Upsert`: a row with no key yet is inserted, at most one for each user.
  unfoldable pub upsert : TotpDevice → Action ⊤
  unfolding require_owner
  upsert d = do
    require_owner tid d.user_id
    query
    taken ← gets (λ w. any_where (λ (o : TotpDevice). o.user_id == d.user_id) w.totp_devices)
    known ← gets (λ w. any_where (same_row w d) w.totp_devices)
    if d.id == 0
        then (do
          raise_if taken duplicate_key
          modify (λ w. record w {
            totp_devices = w.totp_devices ++ record d { id = w.next_id } ∷ [];
            next_id = w.next_id + 1;
          }))
        else (do
          raise_if (not known) record_not_found
          modify (λ w. record w {
            totp_devices = update_where (same_row w d) (written d) w.totp_devices;
          }))

  abbrev pub disabled : TotpDevice → TotpDevice
  disabled d = record d {
    enabled = false;
    secret = "";
    secret_encrypted = "";
    pending_secret_encrypted = "";
  }

  unfoldable pub disable : ℕ → Action ⊤
  unfolding require_owner
  disable uid = do
    require_owner tid uid
    query
    modify (λ w. record w { totp_devices = update_where (device_of w uid) disabled w.totp_devices })

  abbrev pub code_of : World → ℕ → RecoveryCode → Bool
  code_of w uid c = owned tid w c.user_id && c.user_id == uid

  -- `ReplaceRecoveryCodes`: the old set goes and the new one comes, or neither.
  unfoldable pub replace_recovery_codes : ℕ → List RecoveryCode → Action ⊤
  unfolding require_owner transaction
  replace_recovery_codes uid codes = do
    require_owner tid uid
    raise_if (any_where (λ (c : RecoveryCode). not (c.user_id == uid)) codes) record_not_found
    transaction (do
      query
      modify (λ w. record w { recovery_codes = delete_where (code_of w uid) w.recovery_codes })
      if is_empty_list codes then pure tt else (do
        query
        modify (λ w. record w {
          recovery_codes = w.recovery_codes ++ numbered w.next_id codes;
          next_id = w.next_id + count_of codes;
        })))

  abbrev pub active_of : World → ℕ → RecoveryCode → Bool
  active_of w uid c = code_of w uid c && is_unused c

  unfoldable pub active_recovery_codes : ℕ → Action (List RecoveryCode)
  active_recovery_codes uid = do query; gets (λ w. filter_where (active_of w uid) w.recovery_codes)

  abbrev pub to_mark : World → RecoveryCode → RecoveryCode → Bool
  to_mark w c r = owned tid w r.user_id && r.id == c.id && is_unused r

  -- `MarkRecoveryCodeUsed`: the database decides which of two requests comes first.
  unfoldable pub mark_recovery_code_used : ℕ → RecoveryCode → Action ⊤
  mark_recovery_code_used now c = do
    query
    won ← gets (λ w. any_where (to_mark w c) w.recovery_codes)
    modify (λ w. record w {
      recovery_codes =
          update_where (to_mark w c) (λ r. record r { used_at = some now }) w.recovery_codes;
    })
    raise_if (not won) recovery_code_used
