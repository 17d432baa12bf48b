-- ===== src/Services/Totp/Enrol.antt =====
-- internal/services/totp_service.go: enrolment (`Enable`) and its confirmation (`VerifyEnable`).
use finn_api_go.Prelude.{
  ℕ, String, is_empty, Bool, true, false, not, ◌&&◌, Option, none, some, List, if◌then◌else◌,
}
use finn_api_go.Models.{TotpDevice}
use finn_api_go.Database.{
  Action, ok, err, ◌>>=◌, ◌>>◌, pure, raise, raise_if, attempt, when, ignore, invalid_code,
  invalid_input, sealing, generating,
}
use finn_api_go.Repositories.Totp
use finn_api_go.Crypto.{encrypt, decrypt}
use finn_api_go.Services.{Env}
use finn_api_go.Services.Support.{audit, draw}
use finn_api_go.Services.Totp.{
  TotpService, totp_valid, with_rotation_lock, verify_sudo_token, guard_brute_force, fail_with,
  open_active_secret, new_recovery_codes, record_success,
}

abbrev pub fresh_device : ℕ → String → TotpDevice
fresh_device uid sealed = record {
  id = 0;
  user_id = uid;
  secret = "";
  secret_encrypted = sealed;
  pending_secret_encrypted = "";
  enabled = false;
}

module _ (env : Env) (svc : TotpService) (tid : String) (now : ℕ) where
  -- The device as `Enable` writes it: staged beside an active secret, or instead of one that was
  -- never confirmed.
  unfoldable pub stage : Option TotpDevice → ℕ → String → String → Action TotpDevice
  stage none uid sudo_token sealed = pure (fresh_device uid sealed)
  stage (some old) uid sudo_token sealed =
      if old.enabled
      then (do
        verify_sudo_token env svc tid now sudo_token uid
        pure (record old { pending_secret_encrypted = sealed }))
      else pure
          (record old { secret = ""; secret_encrypted = sealed; pending_secret_encrypted = "" })

  unfoldable pub generate_key : String → Action (String × String)
  generate_key email = do
    n ← draw
    elim (svc.otp.generate n svc.issuer email) [ none ↦ raise generating | some key ↦ pure key ]

  -- `Enable` under its lock: the secret and the provisioning URL.
  unfoldable pub enable_locked : ℕ → String → String → Action (String × String)
  enable_locked uid email sudo_token = do
    old ← Totp.find_by_user_id tid uid
    key ← generate_key email
    sealed ← encrypt svc.enc key.0
    d ← stage old uid sudo_token sealed
    Totp.upsert tid d
    when svc.audits_wired (audit (some uid) "" "totp_staged" "" true "")
    pure key

  unfoldable pub enable : ℕ → String → String → Action (String × String)
  enable uid email sudo_token =
      with_rotation_lock env svc tid now uid (enable_locked uid email sudo_token)

  abbrev pub confirming : TotpDevice → Bool
  confirming d = not (is_empty d.pending_secret_encrypted)

  -- The secret that the code must match, and the device as it is after reading it.
  unfoldable pub secret_to_confirm : TotpDevice → Action (String × TotpDevice)
  secret_to_confirm d =
      if confirming d
      then elim (decrypt svc.enc d.pending_secret_encrypted) [
        | none ↦ raise sealing
        | some secret ↦ pure (secret, d)
      ]
      else open_active_secret env svc tid now d

  -- The device enabled, with a staged secret promoted.
  abbrev pub activated : TotpDevice → TotpDevice
  activated d =
      if confirming d
      then record d {
        secret_encrypted = d.pending_secret_encrypted;
        pending_secret_encrypted = "";
        secret = "";
        enabled = true;
      }
      else record d { enabled = true }

  -- The way back: a rotation is staged again, a first enrolment is off again.
  abbrev pub rolled_back : TotpDevice → TotpDevice
  rolled_back d =
      if confirming d
      then record (activated d) {
        pending_secret_encrypted = d.pending_secret_encrypted;
        secret_encrypted = d.secret_encrypted;
      }
      else record d { enabled = false }

  -- The device is written, then the codes; if they fail the device goes back.
  unfoldable pub activate : ℕ → TotpDevice → Action (List String)
  activate uid d = do
    Totp.upsert tid (activated d)
    codes ← attempt (new_recovery_codes env svc tid now uid)
    elim codes [
      | err e ↦ do ignore (Totp.upsert tid (rolled_back d)); raise e
      | ok plain ↦ do record_success env svc tid now uid "totp_enabled" "totp enabled"; pure plain
    ]

  -- `VerifyEnable` under its lock.
  unfoldable pub verify_enable_locked : ℕ → String → Action (List String)
  verify_enable_locked uid code = do
    found ← Totp.find_by_user_id tid uid
    elim found [
      | none ↦ fail_with env svc tid now invalid_code uid "no pending device"
      | some d ↦ do
        raise_if (d.enabled && not (confirming d)) invalid_input
        opened ← secret_to_confirm d
        if not (totp_valid svc.otp now code opened.0)
            then fail_with env svc tid now invalid_code uid "bad enable code"
            else activate uid opened.1
    ]

  unfoldable pub verify_enable : ℕ → String → Action (List String)
  verify_enable uid code = do
    guard_brute_force env svc tid now uid
    with_rotation_lock env svc tid now uid (verify_enable_locked uid code)
