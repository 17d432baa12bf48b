-- ===== src/Services/Closure.antt =====
-- internal/services/auth_service.go: the end of an account (`DeactivateAccount`, `EraseAccount`),
-- the listing of sessions, the profile, and the pair after a passkey.
pub mod Effects
pub mod Flow
pub mod Erased
mod Tests
use Prim.Native.String.{◌∷◌}
use finn_api_go.Prelude.{
  ℕ, zero, suc, String, ◌<>◌, str_eq, is_empty, Bool, true, false, not, ◌&&◌, ◌||◌, Option, none,
  some, List, [], ◌∷◌, if◌then◌else◌,
}
use finn_api_go.Prelude.Int64.{show_uint}
use finn_api_go.Models.{User, Session, RefreshToken, AuditLog}
use finn_api_go.Database.{
  World, Action, ⊤, ◌>>=◌, ◌>>◌, pure, raise, raise_if, when, ignore, query, modify, security_alert,
  user_not_found, account_disabled,
}
use finn_api_go.Database.Table.{update_where}
use finn_api_go.Repositories.Users
use finn_api_go.Repositories.RefreshTokens
use finn_api_go.Repositories.Sessions
use finn_api_go.Repositories.Totp
use finn_api_go.Services.{Env, AuthService, TokenPair, UserProfile, from_user}
use finn_api_go.Services.Support.{audit, send, draw}
use finn_api_go.Services.Tokens.{bump_pwd_version, denylist_access_token}
use finn_api_go.Services.Issue.{issue_token_pair}
use finn_api_go.Services.Passwords.{verify_sudo_or_password}

-- internal/repositories/audit_repository.go: `AnonymizeUser`, over rows that are not versioned. Ids
-- of users are unique across tenants, and the rows of a user are in the user's tenant.
abbrev pub erasure_marker : String
erasure_marker = "anonymized@gdpr.local"

abbrev pub is_of : ℕ → AuditLog → Bool
is_of uid a = elim a.user_id [ none ↦ false | some id ↦ finn_api_go.Prelude.◌==◌ id uid ]

unfoldable pub anonymize_user : ℕ → Action ⊤
anonymize_user uid = do
  query
  modify (λ w. record w {
    audits =
        update_where (is_of uid)
          (λ a. record a { email = erasure_marker; ip_address = ""; detail = "" }) w.audits;
  })

-- The first characters of a text: `erasedSuffix[:12]` of a uuid.
unfoldable pub first_chars : ℕ → String → String
first_chars zero s = ""
first_chars (suc n) String.[] = ""
first_chars (suc n) (String.◌∷◌ c s) = String.◌∷◌ c (first_chars n s)

-- `SessionInfo`
pub record SessionInfo : Type 0 where
  pub id : String
  pub ip_address : String
  pub user_agent : String
  pub device_name : String
  pub location_estimate : String
  pub last_active_at : ℕ
  pub expires_at : ℕ
  pub is_current : Bool

abbrev pub session_info : String → Session → SessionInfo
session_info current s = record {
  id = s.id;
  ip_address = s.ip_address;
  user_agent = s.user_agent;
  device_name = s.device_name;
  location_estimate = s.location_estimate;
  last_active_at = s.last_active_at;
  expires_at = s.expires_at;
  is_current = str_eq s.id current;
}

abbrev pub token_info : RefreshToken → SessionInfo
token_info t = record {
  id = show_uint t.id;
  ip_address = t.ip_address;
  user_agent = t.user_agent;
  device_name = t.device_name;
  location_estimate = t.location_estimate;
  last_active_at = t.last_active_at;
  expires_at = t.expires_at;
  is_current = false;
}

unfoldable pub session_infos : String → List Session → List SessionInfo
session_infos current [] = []
session_infos current (s ∷ rest) = session_info current s ∷ session_infos current rest

unfoldable pub token_infos : List RefreshToken → List SessionInfo
token_infos [] = []
token_infos (t ∷ rest) = token_info t ∷ token_infos rest

abbrev pub call_if : Option (String → ℕ → Action ⊤) → String → ℕ → Action ⊤
call_if none tid uid = pure tt
call_if (some f) tid uid = ignore (f tid uid)

module _ (env : Env) (svc : AuthService) (tid : String) (now : ℕ) where
  -- `Me`
  unfoldable pub me : ℕ → Action UserProfile
  me uid = do
    found ← Users.find_by_id tid uid
    elim found [ none ↦ raise user_not_found | some user ↦ pure (from_user user) ]

  -- `ListSessions`: without sessions, the refresh tokens are listed.
  unfoldable pub list_sessions : ℕ → String → Action (List SessionInfo)
  list_sessions uid current =
      if svc.sessions_wired
      then (do rows ← Sessions.find_active_by_user tid now uid; pure (session_infos current rows))
      else (do rows ← RefreshTokens.find_active_by_user tid now uid; pure (token_infos rows))

  -- The user behind the request, proven by a sudo token or the password.
  unfoldable pub proven_user : ℕ → String → String → Action User
  proven_user uid sudo_token password = do
    found ← Users.find_by_id tid uid
    elim found [
      | none ↦ raise user_not_found
      | some user ↦ do verify_sudo_or_password env svc now user sudo_token password; pure user
    ]

  -- Whatever was signed in ends; what fails is passed over.
  unfoldable pub end_sign_ins : ℕ → String → Action ⊤
  end_sign_ins uid jti = do
    ignore (RefreshTokens.revoke_all_for_user tid uid)
    when svc.sessions_wired (ignore (Sessions.revoke_all_for_user tid uid))
    ignore (bump_pwd_version svc tid now uid)
    denylist_access_token svc tid now jti

  -- `DeactivateAccount`
  unfoldable pub deactivate_account : ℕ → String → String → String → String → Action ⊤
  deactivate_account uid sudo_token password jti ip = do
    user ← proven_user uid sudo_token password
    Users.deactivate tid uid
    end_sign_ins uid jti
    audit (some user.id) user.email "account_deactivated" ip true "account self-deactivated"
    when svc.notify_wired (send (security_alert user.email "account_deactivated"))

  abbrev pub erased_email : String → String
  erased_email suffix = "deleted_" <> suffix <> "@anonymized.invalid"

  abbrev pub erased_user : User → String → User
  erased_user user suffix = record user {
    email = erased_email suffix;
    username = "deleted_" <> first_chars 12 suffix;
    password = "";
    full_name = "";
    is_active = false;
    is_email_verified = false;
  }

  -- The second factor, passkeys, linked identities and audit rows; what fails is passed over.
  unfoldable pub purge : ℕ → Action ⊤
  purge uid = do
    when svc.totp_wired
        (do ignore (Totp.disable tid uid); ignore (Totp.replace_recovery_codes tid uid []))
    call_if svc.passkeys tid uid
    call_if svc.oauth_idents tid uid
    ignore (anonymize_user uid)

  -- `EraseAccount`
  unfoldable pub erase_account : ℕ → String → String → String → String → Action ⊤
  erase_account uid sudo_token password jti ip = do
    user ← proven_user uid sudo_token password
    n ← draw
    Users.erase tid (erased_user user (env.new_uuid n))
    purge uid
    end_sign_ins uid jti
    audit (some user.id) erasure_marker "account_erased" ip true
        "account erased via GDPR right-to-erasure"
    when svc.notify_wired (send (security_alert user.email "account_erased"))

  -- `IssuePasskeyTokenPair`
  unfoldable pub issue_passkey_token_pair :
      User → String → String → Action (TokenPair × UserProfile)
  issue_passkey_token_pair user ip ua = do
    raise_if (not user.is_active || user.admin_suspended) account_disabled
    pair ← issue_token_pair env svc tid now user ip ua ""
    audit (some user.id) "" "token_issued" "" true ""
    pure (pair, from_user user)
