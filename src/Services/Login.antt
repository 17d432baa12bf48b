-- ===== src/Services/Login.antt =====
-- internal/services/auth_service.go: `Login`, its second step and the lockout.
pub mod Lockout
pub mod Sound
mod Tests
use finn_api_go.Prelude.{
  ℕ, ◌+◌, ◌*◌, ◌%◌, ◌^◌, String, str_eq, ◌<>◌, is_empty, Bool, true, false, not, ◌&&◌, ◌||◌, Option,
  none, some, List, [], ◌∷◌, ◌==◌, ltb, leb, if◌then◌else◌,
}
use finn_api_go.Prelude.Int64.{Int64, lt64, show_uint}
use finn_api_go.Prelude.Text.{to_lower, trim_space}
use finn_api_go.Models.{User, TotpDevice}
use finn_api_go.Store
use finn_api_go.Database.{
  World, Action, Result, ok, err, Error, ⊤, ◌>>=◌, ◌>>◌, pure, raise, raise_if, ignore, gets, query,
  when, Metrics, rate_limited, captcha_required, invalid_credentials, email_not_verified,
  account_disabled, account_locked, invalid_token, signing,
}
use finn_api_go.Database.Table.{first_where}
use finn_api_go.Repositories.Scope.{owned}
use finn_api_go.Repositories.Users
use finn_api_go.Jwt.{mfa_pending}
use finn_api_go.Jwt.Keys.{issue_claims, sign}
use finn_api_go.Services.{
  Env, AuthService, TokenPair, UserProfile, from_user, LoginResult, signed_in, mfa_required, hour,
  day,
}
use finn_api_go.Services.Support.{
  audit, count_metric, draw, store_call, store_do, store_counter_value, check_password,
}
use finn_api_go.Services.Issue.{issue_token_pair}

-- `strings.ToLower(strings.TrimSpace(…))`
unfoldable pub normal_email : String → String
normal_email s = to_lower (trim_space s)

-- `isLocked`
unfoldable pub is_locked : ℕ → User → Bool
is_locked now user = elim user.locked_until [ none ↦ false | some t ↦ ltb now t ]

abbrev pub account_key : String → String
account_key email = "login:acct:" <> email

-- `ipCounterKey`
abbrev pub ip_counter_key : Env → String → String → String
ip_counter_key env prefix ip = prefix <> env.canonical_ip ip

-- `TOTPRepository.FindByUserID`
unfoldable pub find_device : String → ℕ → Action (Option TotpDevice)
find_device tid uid = do
  query
  gets (λ w. first_where (λ d. owned tid w d.user_id && d.user_id == uid) w.totp_devices)

abbrev pub enabled : Option TotpDevice → Bool
enabled none = false
enabled (some d) = d.enabled

-- `mult` of `recordFailedLogin`: the count of lockouts, at most the cap and at least 1.
unfoldable pub multiplier : Int64 → ℕ → ℕ
multiplier count cap =
    let capped = if lt64 cap count then cap else count in if lt64 capped 1 then 1 else capped

-- The product is an int64: one that overflows is a time in the past, which locks no more than 0.
unfoldable pub scaled : ℕ → ℕ → ℕ
scaled base mult = let d = (base * mult) % 2 ^ 64 in if ltb d (2 ^ 63) then d else 0

abbrev pub count_success : Metrics → Metrics
count_success m = record m { login_successes = m.login_successes + 1 }

abbrev pub count_failure : Metrics → Metrics
count_failure m = record m { login_failures = m.login_failures + 1 }

module _ (env : Env) (svc : AuthService) (tid : String) (now : ℕ) where
  unfoldable pub record_login_fail_account : String → Action ⊤
  record_login_fail_account email =
      when (not (is_empty email))
        (store_do (λ s. (Store.incr_by now (account_key email) s 1 svc.cfg.login_window).1))

  unfoldable pub record_login_fail_ip : String → Action ⊤
  record_login_fail_ip ip =
      when (not (is_empty ip))
        (store_do (λ s. (Store.incr_by now (ip_counter_key env "loginfail:" ip) s 1 hour).1))

  -- How long the next lockout lasts: the base, scaled by how many there were in a day.
  unfoldable pub lockout_duration : User → Action ℕ
  lockout_duration user = do
    let base = svc.cfg.login_lockout_duration
    if ltb 0 svc.cfg.max_lockout_multiplier
        then store_call base (λ s.
          let (n, s') = Store.incr_by now ("lockouts:" <> show_uint user.id) s 1 day in
          (scaled base (multiplier n svc.cfg.max_lockout_multiplier), s'))
        else pure base

  unfoldable pub lock_until : User → Action (Option ℕ)
  lock_until user =
      if leb svc.cfg.max_login_attempts (user.failed_login_attempts + 1)
      then (do duration ← lockout_duration user; pure (some (now + duration)))
      else pure none

  -- `recordFailedLogin`
  unfoldable pub record_failed_login : User → String → String → Action ⊤
  record_failed_login user email ip = do
    until ← lock_until user
    ignore (Users.increment_failed_attempts tid user until)
    record_login_fail_ip ip
    record_login_fail_account email
    audit (some user.id) email "login_failed" ip false "bad password"

  -- The account's velocity limit, then the captcha of an address that has failed often.
  unfoldable pub throttle_account : String → Action ⊤
  throttle_account email =
      if is_empty email || not (ltb 0 svc.cfg.login_per_account_max) then pure tt else (do
        n ← store_counter_value now (account_key email)
        raise_if (not (lt64 n svc.cfg.login_per_account_max)) rate_limited)

  unfoldable pub require_captcha : String → String → Action ⊤
  require_captcha captcha ip =
      if not svc.captcha_wired || not (ltb 0 svc.cfg.login_captcha_after_fails)
      then pure tt
      else (do
        n ← store_counter_value now (ip_counter_key env "loginfail:" ip)
        raise_if
            (not (lt64 n svc.cfg.login_captcha_after_fails) && not (env.captcha_accepts captcha))
            captcha_required)

  -- A full pair, and the row that says so.
  unfoldable pub issue_signed_in : User → String → String → String → Action LoginResult
  issue_signed_in user ip ua detail = do
    pair ← issue_token_pair env svc tid now user ip ua ""
    audit (some user.id) user.email "login" ip true detail
    pure (signed_in pair (from_user user))

  -- A token for the second factor alone.
  unfoldable pub mfa_token : User → Action String
  mfa_token user = do
    n ← draw
    let claims =
        issue_claims svc.jwt now user.id "" "" mfa_pending svc.cfg.mfa_pending_ttl (tid ∷ [])
          (env.new_uuid n)
    elim (sign env.jwt_lib svc.jwt claims) [ none ↦ raise signing | some token ↦ pure token ]

  unfoldable pub issue_mfa_pending : User → Action LoginResult
  issue_mfa_pending user = do
    token ← mfa_token user
    audit (some user.id) "" "mfa_pending" "" true ""
    pure (mfa_required token)

  -- `CheckMFAOrIssueTokens`
  unfoldable pub check_mfa_or_issue_tokens : User → String → String → String → Action LoginResult
  check_mfa_or_issue_tokens user ip ua detail = do
    raise_if (user.admin_suspended || not user.is_active) account_disabled
    count_metric count_success
    if not svc.totp_wired then issue_signed_in user ip ua detail else (do
      device ← find_device tid user.id
      if enabled device then issue_mfa_pending user else issue_signed_in user ip ua detail)

  -- An OAuth account has an empty hash, which no password matches.
  unfoldable pub password_matches : User → String → Bool
  password_matches user password =
      if is_empty user.password then false else check_password env user.password password

  -- What follows once the account is found.
  unfoldable pub login_user : User → String → String → String → String → Action LoginResult
  login_user user email password ip ua =
      if svc.cfg.require_email_verified && not user.is_email_verified
      then raise email_not_verified
      else if not user.is_active || user.admin_suspended
      then (do
        count_metric count_failure
        audit (some user.id) email "login_failed" ip false "disabled"
        raise account_disabled)
      else if is_locked now user
      then (do audit (some user.id) email "login_failed" ip false "locked"; raise account_locked)
      else if not (password_matches user password)
      then (do
        count_metric count_failure
        record_failed_login user email ip
        raise invalid_credentials)
      else (do
        Users.reset_failed_attempts tid user
        store_do (Store.delete now (account_key email))
        check_mfa_or_issue_tokens user ip ua "")

  unfoldable pub unknown_user : String → String → Action LoginResult
  unknown_user email ip = do
    record_login_fail_ip ip
    record_login_fail_account email
    count_metric count_failure
    audit none email "login_failed" ip false "unknown user"
    raise invalid_credentials

  -- `Login`
  unfoldable pub login : String → String → String → String → String → Action LoginResult
  login given password captcha ip ua = do
    let email = normal_email given
    throttle_account email
    require_captcha captcha ip
    found ← Users.find_by_email tid email
    elim found [ none ↦ unknown_user email ip | some user ↦ login_user user email password ip ua ]

  -- `CompleteMFALogin`: the validator is the TOTP service's.
  unfoldable pub complete_mfa_login :
      Option (String → ℕ → String → Action ⊤)
      → ℕ
      → String
      → String
      → String
      → Action (TokenPair × UserProfile)
  complete_mfa_login none uid code ip ua = raise invalid_token
  complete_mfa_login (some validate) uid code ip ua = do
    validate tid uid code
    found ← Users.find_by_id tid uid
    elim found [
      | none ↦ raise invalid_token
      | some user ↦ if not user.is_active || user.admin_suspended then raise invalid_token else (do
        pair ← issue_token_pair env svc tid now user ip ua ""
        audit (some user.id) user.email "login" ip true "mfa-complete"
        audit (some user.id) "" "token_issued" "" true ""
        pure (pair, from_user user))
    ]
