-- ===== src/Services/Accounts.antt =====
-- internal/services/auth_service.go: the mails that prove an address, and registration.
-- disposable_domains.go: the refused domains. Audit rows are admitted at once, as without an outbox.
pub mod ChangeEmail
pub mod Uniform
pub mod Unique
mod Tests
use finn_api_go.Prelude.{
  ℕ, String, ◌<>◌, str_eq, is_empty, Bool, true, false, not, ◌&&◌, Option, none, some, List, [],
  ◌∷◌, ltb, if◌then◌else◌,
}
use finn_api_go.Prelude.Int64.{lt64}
use finn_api_go.Prelude.Text.{to_lower, trim_space, split}
use finn_api_go.Models.{User, role_user}
use finn_api_go.Store
use finn_api_go.Database.{
  Action, Result, ok, err, Mail, ⊤, ◌>>=◌, ◌>>◌, pure, raise, raise_if, attempt, when,
  password_reset, email_verification, duplicate_register_alert, password_too_weak,
  password_breached, rate_limited, disposable_email, duplicate_key, signing, delivery,
}
use finn_api_go.Repositories.Rbac.{contains}
use finn_api_go.Repositories.Users
use finn_api_go.Jwt.{reset, verify_email}
use finn_api_go.Jwt.Keys.{issue_claims, sign}
use finn_api_go.Services.{Env, AuthService, UserProfile, from_user}
use finn_api_go.Services.Support.{audit, send, draw, store_call, hash_password}
use finn_api_go.Services.Login.{ip_counter_key, normal_email}
use finn_api_go.Services.Passwords.{validate_password, email_local_part}

abbrev pub disposable_domains : List String
disposable_domains =
    "mailinator.com" ∷ "guerrillamail.com" ∷ "10minutemail.com" ∷ "tempmail.com" ∷ "temp-mail.org"
    ∷ "throwawaymail.com" ∷ "yopmail.com" ∷ "getnada.com" ∷ "trashmail.com" ∷ "sharklasers.com"
    ∷ "dispostable.com" ∷ "maildrop.cc" ∷ "fakeinbox.com" ∷ "tempinbox.com" ∷ "mailnesia.com" ∷ []

-- What stands after the last "@": nothing where there is none.
unfoldable pub domain_of : List String → String
domain_of [] = ""
domain_of (p ∷ []) = ""
domain_of (p ∷ q ∷ []) = q
domain_of (p ∷ q ∷ r ∷ rest) = domain_of (q ∷ r ∷ rest)

-- `isDisposableEmail`
unfoldable pub is_disposable_email : String → Bool
is_disposable_email email =
    let domain = domain_of (split b'@' email) in
    not (is_empty domain) && contains (to_lower (trim_space domain)) disposable_domains

-- `RegisterInput`
pub record RegisterInput : Type 0 where
  pub username : String
  pub email : String
  pub password : String
  pub full_name : String
  pub ip : String

abbrev pub is_found : Option User → Bool
is_found none = false
is_found (some u) = true

module _ (env : Env) (svc : AuthService) (tid : String) (now : ℕ) where
  -- A mail whose delivery may fail: the reason.
  unfoldable pub deliver : Mail → Action (Option String)
  deliver m = do send m; n ← draw; pure (env.delivery_fault n m)

  abbrev pub is_fault : Option String → Bool
  is_fault none = false
  is_fault (some reason) = true

  -- One more of the key in its window: whether that is over the maximum. Without a store, never.
  unfoldable pub exceeds : String → ℕ → ℕ → Action Bool
  exceeds key max window =
      store_call false (λ s. let (n, s') = Store.incr_by now key s 1 window in (lt64 max n, s'))

  -- The same where the maximum is set.
  unfoldable pub capped : String → ℕ → ℕ → Action Bool
  capped key max window = if ltb 0 max then exceeds key max window else pure false

  -- A token that is used once, for a mail.
  unfoldable pub mail_token : User → String → ℕ → Action String
  mail_token user token_type ttl = do
    n ← draw
    let claims =
        issue_claims svc.jwt now user.id user.role user.email token_type ttl (tid ∷ [])
          (env.new_uuid n)
    elim (sign env.jwt_lib svc.jwt claims) [ none ↦ raise signing | some t ↦ pure t ]

  -- `shouldThrottleDuplicateRegisterAlert`
  unfoldable pub should_throttle_duplicate : String → String → Action Bool
  should_throttle_duplicate email ip = do
    all ←
        capped "reg:dup:global" svc.cfg.verify_resend_global_max svc.cfg.verify_resend_global_window
    if all then pure true else (do
      one ←
          if is_empty ip
          then pure false
          else capped (ip_counter_key env "reg:dup:ip:" ip) svc.cfg.verify_resend_per_ip_max
              svc.cfg.verify_resend_per_ip_window
      if one
          then pure true
          else if is_empty email
          then pure false
          else capped ("reg:dup:email:" <> email) svc.cfg.verify_resend_per_email_max
              svc.cfg.verify_resend_window)

  -- `handleDuplicateRegistration`: the owner hears of it, and the answer is a made-up profile.
  unfoldable pub handle_duplicate_registration : String → String → String → Action UserProfile
  handle_duplicate_registration owner ip attempted = do
    audit none owner "register_duplicate" ip false (
        "attempted registration with existing email or username (attempted username: " <> attempted
        <> ")")
    throttled ← should_throttle_duplicate owner ip
    when (not throttled && svc.notify_wired) (send (duplicate_register_alert owner))
    pure (record {
      id = 0;
      username = attempted;
      email = owner;
      full_name = "";
      role = role_user;
      is_active = true;
      is_email_verified = false;
    })

  -- After the row is written: a mail that fails is recorded, and the account stays.
  unfoldable pub welcome : User → String → Action UserProfile
  welcome user ip = do
    audit (some user.id) "" "registered" "" true ""
    token ← mail_token user verify_email svc.cfg.verify_ttl
    when svc.notify_wired (do
      fault ← deliver (email_verification user.email token)
      elim fault [
        | none ↦ pure tt
        | some reason ↦ audit (some user.id) user.email "verify_email_send_failed" ip false reason
      ])
    pure (from_user user)

  abbrev pub new_user : RegisterInput → String → String → String → User
  new_user input username email hashed = record {
    id = 0;
    tenant_id = "";
    username = username;
    email = email;
    password = hashed;
    full_name = input.full_name;
    role = role_user;
    is_active = true;
    is_email_verified = false;
    failed_login_attempts = 0;
    locked_until = none;
    auth_epoch = 0;
    admin_suspended = false;
    pwd_version = 0;
  }

  -- Two requests may pass the lookups at once: the index decides.
  unfoldable pub created : RegisterInput → String → String → Result User → Action UserProfile
  created input username email (ok user) = welcome user input.ip
  created input username email (err duplicate_key) =
      handle_duplicate_registration email input.ip username
  created input username email (err e) = raise e

  unfoldable pub create_account : RegisterInput → String → String → Action UserProfile
  create_account input username email = do
    hashed ← hash_password env input.password
    row ← attempt (Users.create tid (new_user input username email hashed))
    created input username email row

  -- The checks that come before any lookup.
  unfoldable pub accept_registration : RegisterInput → String → String → Action ⊤
  accept_registration input username email = do
    raise_if
        (not (
          validate_password env input.password svc.min_password_score
            (username ∷ email_local_part email ∷ [])))
        password_too_weak
    raise_if (svc.breached_wired && env.breached input.password) password_breached
    over ←
        if is_empty input.ip
        then pure false
        else exceeds (ip_counter_key env "reg:ip:" input.ip) svc.cfg.register_per_ip_max
            svc.cfg.register_window
    raise_if over rate_limited
    raise_if (is_disposable_email email) disposable_email

  -- Who has the name: nobody, and the account is made.
  unfoldable pub name_found : RegisterInput → String → String → Option User → Action UserProfile
  name_found input username email (some owner) =
      handle_duplicate_registration owner.email input.ip username
  name_found input username email none = create_account input username email

  unfoldable pub email_found : RegisterInput → String → String → Option User → Action UserProfile
  email_found input username email (some owner) =
      handle_duplicate_registration owner.email input.ip username
  email_found input username email none = do
    same_name ← Users.find_by_username tid username
    name_found input username email same_name

  unfoldable pub register_as : RegisterInput → String → String → Action UserProfile
  register_as input username email = do
    accept_registration input username email
    same_email ← Users.find_by_email tid email
    email_found input username email same_email

  -- `Register`
  unfoldable pub register : RegisterInput → Action UserProfile
  register input = register_as input (trim_space input.username) (normal_email input.email)

  -- A token of the user's, mailed; the answer is nil, or what went wrong.
  unfoldable pub mail_to : User → String → ℕ → (String → Mail) → Action ⊤
  mail_to user token_type ttl make = do
    token ← mail_token user token_type ttl
    fault ← deliver (make token)
    raise_if (is_fault fault) delivery

  -- From the lookup on.
  unfoldable pub forgot_found : String → Option User → Action ⊤
  forgot_found email none = pure tt
  forgot_found email (some user) = mail_to user reset svc.cfg.reset_ttl (password_reset email)

  -- `ForgotPassword`
  unfoldable pub forgot_password : String → Action ⊤
  forgot_password given = do
    audit none "" "password_reset_requested" "" true ""
    found ← Users.find_by_email tid (normal_email given)
    forgot_found (normal_email given) found

  abbrev pub blocked_resend : String → String → String → Action ⊤
  blocked_resend email ip detail = audit none email "verify_resend_blocked" ip false detail

  -- A cap of `ResendVerifyEmail`: over it, the request ends here.
  unfoldable pub cap_resend : Bool → String → ℕ → ℕ → String → String → String → Action ⊤
  cap_resend applies key max window email ip detail = do
    over ← if applies then capped key max window else pure false
    if over then blocked_resend email ip detail >> raise rate_limited else pure tt

  -- From the lookup on.
  unfoldable pub resend_found : Option User → Action ⊤
  resend_found none = pure tt
  resend_found (some user) =
      if user.is_email_verified
      then pure tt
      else mail_to user verify_email svc.cfg.verify_ttl (email_verification user.email)

  -- After the per-email cap the request is admitted, and the address looked up.
  unfoldable pub resend_admitted : String → Action ⊤
  resend_admitted email = do
    audit none "" "verification_requested" "" true ""
    found ← Users.find_by_email tid email
    resend_found found

  unfoldable pub resend_screened : String → String → Action ⊤
  resend_screened email ip =
      if is_disposable_email email then blocked_resend email ip "disposable domain" else (do
        cap_resend (not (is_empty email)) ("verify:resend:" <> email)
            svc.cfg.verify_resend_per_email_max svc.cfg.verify_resend_window email ip
            "per-email cap"
        resend_admitted email)

  unfoldable pub resend_below_global : String → String → Action ⊤
  resend_below_global email ip = do
    cap_resend (not (is_empty ip)) (ip_counter_key env "verify:resend:ip:" ip)
        svc.cfg.verify_resend_per_ip_max svc.cfg.verify_resend_per_ip_window email ip "per-ip cap"
    resend_screened email ip

  unfoldable pub resend_to : String → String → Action ⊤
  resend_to email ip = do
    cap_resend true "verify:resend:global" svc.cfg.verify_resend_global_max
        svc.cfg.verify_resend_global_window email ip "global cap"
    resend_below_global email ip

  -- `ResendVerifyEmail`
  unfoldable pub resend_verify_email : String → String → Action ⊤
  resend_verify_email given ip = resend_to (normal_email given) ip
