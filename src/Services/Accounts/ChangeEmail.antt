-- ===== src/Services/Accounts/ChangeEmail.antt =====
-- internal/services/auth_service.go: `RequestChangeEmail` and `ConfirmChangeEmail`.
use finn_api_go.Prelude.{
  ℕ, ◌^◌, ◌==◌, String, ◌<>◌, str_eq, is_empty, Bool, true, false, not, ◌||◌, Option, none, some,
  List, [], ◌∷◌, ltb, if◌then◌else◌,
}
use finn_api_go.Prelude.Int64.{show_uint}
use finn_api_go.Prelude.Text.{split}
use finn_api_go.Models.{User}
use finn_api_go.Store.{Value, text}
use finn_api_go.Store
use finn_api_go.Database.{
  Action, ⊤, ◌>>=◌, ◌>>◌, pure, raise, raise_if, when, ignore, email_verification, security_alert,
  user_not_found, invalid_credentials, invalid_input, invalid_token, rate_limited, disposable_email,
  email_exists,
}
use finn_api_go.Repositories.Users
use finn_api_go.Repositories.RefreshTokens
use finn_api_go.Repositories.Sessions
use finn_api_go.Services.{Env, AuthService, hour}
use finn_api_go.Services.Support.{
  audit, send, draw, store_call, store_do, check_password, parse_digits,
}
use finn_api_go.Services.Tokens.{bump_pwd_version}
use finn_api_go.Services.Login.{ip_counter_key, normal_email}
use finn_api_go.Services.Accounts.{capped, is_disposable_email, is_found}

abbrev pub change_key : String → String
change_key token = "change_email:" <> token

abbrev pub change_payload : ℕ → String → String → String
change_payload uid old new = show_uint uid <> ":" <> old <> ":" <> new

-- `strconv.ParseUint(s, 10, 64)`
unfoldable pub parse_uint : String → Option ℕ
parse_uint s =
    if is_empty s
    then none
    else elim (parse_digits 0 s) [ none ↦ none | some n ↦ if ltb n (2 ^ 64) then some n else none ]

-- The three fields of a payload.
unfoldable pub payload_of : List String → Option (ℕ × String × String)
payload_of (uid ∷ old ∷ new ∷ []) = elim (parse_uint uid) [
  | none ↦ none
  | some n ↦ some (n, old, new)
]
payload_of other = none

-- What is staged under a token.
unfoldable pub staged_change : Option Value → Option (ℕ × String × String)
staged_change (some (text payload)) =
    if is_empty payload then none else payload_of (split b':' payload)
staged_change other = none

module _ (env : Env) (svc : AuthService) (tid : String) (now : ℕ) where
  -- A cap of the request: over it, the request ends here.
  unfoldable pub cap_change : Bool → String → ℕ → ℕ → User → String → String → Action ⊤
  cap_change applies key max window user ip detail = do
    over ← if applies then capped env svc tid now key max window else pure false
    if over
        then audit (some user.id) user.email "email_change_requested" ip false detail
          >> raise rate_limited
        else pure tt

  -- The new address stays in the store for an hour, and both addresses hear of it.
  unfoldable pub stage_change : User → String → Action ⊤
  stage_change user new_email = do
    n ← draw
    let token = env.new_uuid n
    store_do (λ s.
        Store.set now (change_key token) s (text (change_payload user.id user.email new_email))
          hour)
    audit (some user.id) "" "email_change_requested" "" true ""
    when svc.notify_wired (do
      send (email_verification new_email token)
      send (security_alert user.email "email_change_requested"))

  unfoldable pub request_change : User → String → String → Action ⊤
  request_change user new_email ip = do
    raise_if (is_empty new_email || str_eq new_email user.email) invalid_input
    cap_change true "chgemail:global" svc.cfg.verify_resend_global_max
        svc.cfg.verify_resend_global_window user ip "blocked: global cap"
    cap_change (not (is_empty ip)) (ip_counter_key env "chgemail:ip:" ip)
        svc.cfg.verify_resend_per_ip_max svc.cfg.verify_resend_per_ip_window user ip
        "blocked: per-ip cap"
    cap_change true ("chgemail:email:" <> user.email) svc.cfg.verify_resend_per_email_max
        svc.cfg.verify_resend_window user ip "blocked: per-email cap"
    raise_if (is_disposable_email new_email) disposable_email
    existing ← Users.find_by_email tid new_email
    raise_if (is_found existing) email_exists
    stage_change user new_email

  -- `RequestChangeEmail`
  unfoldable pub request_change_email : ℕ → String → String → String → Action ⊤
  request_change_email uid password new_email ip = do
    found ← Users.find_by_id tid uid
    elim found [
      | none ↦ raise user_not_found
      | some user ↦ do
        raise_if (not (check_password env user.password password)) invalid_credentials
        request_change user (normal_email new_email) ip
    ]

  abbrev pub is_other : ℕ → Option User → Bool
  is_other uid none = false
  is_other uid (some u) = not (u.id == uid)

  -- The address is the user's, and all that was signed in under the old one ends.
  unfoldable pub change_to : User → String → String → String → Action ⊤
  change_to user old_email new_email ip = do
    Users.update_email tid (record user { email = new_email; is_email_verified = true })
    ignore (RefreshTokens.revoke_all_for_user tid user.id)
    when svc.sessions_wired (ignore (Sessions.revoke_all_for_user tid user.id))
    ignore (bump_pwd_version svc tid now user.id)
    when svc.notify_wired (send (security_alert old_email "email_changed"))
    audit (some user.id) new_email "email_changed" ip true ("email changed from " <> old_email)

  unfoldable pub confirm_staged : Option (ℕ × String × String) → String → Action ⊤
  confirm_staged none ip = raise invalid_token
  confirm_staged (some (uid, old_email, new_email)) ip = do
    existing ← Users.find_by_email tid new_email
    raise_if (is_other uid existing) email_exists
    found ← Users.find_by_id tid uid
    elim found [ none ↦ raise user_not_found | some user ↦ change_to user old_email new_email ip ]

  -- `ConfirmChangeEmail`: the token is taken, whatever comes of it.
  unfoldable pub confirm_change_email : String → String → Action ⊤
  confirm_change_email token ip = if is_empty token then raise invalid_token else (do
    staged ← store_call none (Store.take now (change_key token))
    confirm_staged (staged_change staged) ip)
