-- ===== src/Services/Totp/Validate.antt =====
-- internal/services/totp_service.go: the check of a code, the recovery codes, and the way out.
use finn_api_go.Prelude.{
  ℕ, ◌==◌, String, is_empty, Bool, true, false, not, ◌&&◌, ◌||◌, Option, none, some, List, [], ◌∷◌,
  ltb, length, if◌then◌else◌,
}
use finn_api_go.Models.{User, TotpDevice, RecoveryCode}
use finn_api_go.Database.{
  Action, Result, ok, err, ⊤, security_alert, ◌>>=◌, ◌>>◌, pure, raise, raise_if, attempt, when,
  ignore, invalid_code, invalid_credentials, sudo_required, user_not_found, recovery_code_used,
}
use finn_api_go.Repositories.Totp
use finn_api_go.Repositories.Users
use finn_api_go.Crypto.{decrypt, AeadLib}
use finn_api_go.Services.{Env}
use finn_api_go.Services.Support.{byte_len, check_password, send}
use finn_api_go.Services.Totp.{
  TotpService, totp_valid, match_recovery_code, verify_sudo_token, guard_brute_force, replay_guard,
  fail_with, open_active_secret, new_recovery_codes, record_success,
}

-- `MFAMethodsResult`
pub record MfaMethods : Type 0 where
  pub totp_enabled : Bool
  pub passkeys_count : ℕ
  pub recovery_codes_remaining : ℕ
  pub default_method : String

-- The codes that can be shown again: a row with no seal, or one that does not open, is passed over.
unfoldable pub opened_codes : AeadLib → List RecoveryCode → List String
opened_codes enc [] = []
opened_codes enc (c ∷ cs) =
    let rest = opened_codes enc cs in
    if is_empty c.code_encrypted
    then rest
    else elim (decrypt enc c.code_encrypted) [ none ↦ rest | some plain ↦ plain ∷ rest ]

abbrev pub is_enabled : Option TotpDevice → Bool
is_enabled none = false
is_enabled (some d) = d.enabled

module _ (env : Env) (svc : TotpService) (tid : String) (now : ℕ) where
  -- The six digits: right, and not used before in their window.
  unfoldable pub validate_totp : ℕ → TotpDevice → String → Action ⊤
  validate_totp uid d code = do
    opened ← open_active_secret env svc tid now d
    if not (totp_valid svc.otp now code opened.0)
        then fail_with env svc tid now invalid_code uid "bad totp code"
        else (do
          fresh ← replay_guard env svc tid now uid code
          if not fresh
              then fail_with env svc tid now invalid_code uid "totp replay"
              else record_success env svc tid now uid "totp_validated" "totp validated")

  -- The outcome of marking a recovery code: another request may have been first.
  unfoldable pub recovery_marked : ℕ → Result ⊤ → Action ⊤
  recovery_marked uid (ok u) =
      record_success env svc tid now uid "recovery_code_used" "recovery code used"
  recovery_marked uid (err recovery_code_used) =
      fail_with env svc tid now invalid_code uid "recovery code replay"
  recovery_marked uid (err e) = raise e

  unfoldable pub validate_recovery : ℕ → String → Action ⊤
  validate_recovery uid code = do
    codes ← Totp.active_recovery_codes tid uid
    elim (match_recovery_code env code codes) [
      | none ↦ fail_with env svc tid now invalid_code uid "bad recovery code"
      | some c ↦ do
        marked ← attempt (Totp.mark_recovery_code_used tid now c)
        recovery_marked uid marked
    ]

  unfoldable pub validate_device : ℕ → String → Option TotpDevice → Action ⊤
  validate_device uid code none = fail_with env svc tid now invalid_code uid "device not enabled"
  validate_device uid code (some d) =
      if not d.enabled
      then fail_with env svc tid now invalid_code uid "device not enabled"
      else if byte_len code == 6
      then validate_totp uid d code
      else validate_recovery uid code

  -- `Validate`
  unfoldable pub validate : ℕ → String → Action ⊤
  validate uid code = do
    guard_brute_force env svc tid now uid
    found ← Totp.find_by_user_id tid uid
    validate_device uid code found

  -- `ViewRecoveryCodes`: six digits only, since a recovery code would show its siblings.
  unfoldable pub view_device : ℕ → String → TotpDevice → Action (List String)
  view_device uid code d = do
    opened ← open_active_secret env svc tid now d
    if not (byte_len code == 6) || not (totp_valid svc.otp now code opened.0)
        then fail_with env svc tid now invalid_code uid "view codes: bad totp code"
        else (do
          fresh ← replay_guard env svc tid now uid code
          if not fresh
              then fail_with env svc tid now invalid_code uid "view codes: totp replay"
              else (do
                rows ← Totp.active_recovery_codes tid uid
                record_success env svc tid now uid "recovery_codes_viewed" "recovery codes viewed"
                pure (opened_codes svc.enc rows)))

  unfoldable pub view_recovery_codes : ℕ → String → Action (List String)
  view_recovery_codes uid code = do
    guard_brute_force env svc tid now uid
    found ← Totp.find_by_user_id tid uid
    elim found [
      | none ↦ fail_with env svc tid now invalid_code uid "view codes: device not enabled"
      | some d ↦
          if not d.enabled
          then fail_with env svc tid now invalid_code uid "view codes: device not enabled"
          else view_device uid code d
    ]

  -- `RegenerateRecoveryCodes`
  unfoldable pub regenerate_recovery_codes : ℕ → Action (List String)
  regenerate_recovery_codes uid = do
    found ← Totp.find_by_user_id tid uid
    if not (is_enabled found)
        then fail_with env svc tid now invalid_code uid "regenerate codes: device not enabled"
        else (do
          codes ← new_recovery_codes env svc tid now uid
          record_success env svc tid now uid "recovery_codes_regenerated"
              "recovery codes regenerated"
          pure codes)

  -- An error, or nothing found.
  abbrev found_user : Result (Option User) → Option User
  found_user (err e) = none
  found_user (ok found) = found

  -- Without a sudo token: the password, then a code.
  unfoldable pub authorize_by_password : ℕ → String → String → Action ⊤
  authorize_by_password uid password code =
      if not svc.users_wired || is_empty password then raise sudo_required else (do
        found ← attempt (Users.find_by_id tid uid)
        elim (found_user found) [
          | none ↦ raise user_not_found
          | some user ↦ do
            raise_if (not (check_password env user.password password)) invalid_credentials
            raise_if (is_empty code) invalid_code
            checked ← attempt (validate uid code)
            elim checked [ ok u ↦ pure tt | err e ↦ raise invalid_code ]
        ])

  unfoldable pub authorize_disable : ℕ → String → String → String → Action ⊤
  authorize_disable uid sudo_token password code = do
    proven ← attempt (verify_sudo_token env svc tid now sudo_token uid)
    if not (is_empty sudo_token) && elim proven [ ok u ↦ true | err e ↦ false ]
        then pure tt
        else authorize_by_password uid password code

  unfoldable pub alert_disabled : ℕ → Action ⊤
  alert_disabled uid = when (svc.notify_wired && svc.users_wired) (do
    found ← attempt (Users.find_by_id tid uid)
    elim (found_user found) [
      | none ↦ pure tt
      | some u ↦ send (security_alert u.email "mfa_disabled")
    ])

  -- `Disable`: of a device that is off already, at once.
  unfoldable pub disable : ℕ → String → String → String → Action ⊤
  disable uid sudo_token password code = do
    found ← Totp.find_by_user_id tid uid
    if not (is_enabled found) then pure tt else (do
      authorize_disable uid sudo_token password code
      Totp.disable tid uid
      Totp.replace_recovery_codes tid uid []
      when svc.users_wired (ignore (Users.bump_pwd_version tid uid))
      record_success env svc tid now uid "totp_disabled" "mfa device disabled"
      alert_disabled uid)

  -- `GetMFAMethods`
  unfoldable pub get_mfa_methods : ℕ → Action MfaMethods
  get_mfa_methods uid = do
    found ← Totp.find_by_user_id tid uid
    codes ← Totp.active_recovery_codes tid uid
    counted ← attempt (elim svc.passkeys [ none ↦ pure 0 | some count ↦ count tid uid ])
    let n : ℕ = elim counted [ ok n ↦ n | err e ↦ 0 ]
    pure (record {
      totp_enabled = is_enabled found;
      passkeys_count = n;
      recovery_codes_remaining = length codes;
      default_method = if ltb 0 n then "passkey" else if is_enabled found then "totp" else "none";
    })
