-- ===== src/Services.antt =====
-- internal/services: the authentication service. Its dependencies that may be nil are Booleans or
-- options of the record; what it calls outside the repository is a parameter.
pub mod AsyncAudit
pub mod Support
pub mod Tokens
pub mod Issue
pub mod Refresh
pub mod Login
pub mod Passwords
pub mod Totp
pub mod Accounts
pub mod Closure
pub mod Admin
pub mod TrustedDevices
pub mod Webhooks
pub mod Oauth
pub mod Passkeys
pub mod Example
use finn_api_go.Prelude.{ℕ, ◌*◌, String, Bool, Option, List}
use finn_api_go.Models.{User}
use finn_api_go.Database.{Action, Mail, ⊤}
use finn_api_go.Jwt.{Claims, JwtLib, JwtManager}

-- bcrypt, SHA-256, the random sources (by the number of the draw), zxcvbn, the breach screen, the
-- captcha, the device and location labels and the canonical form of an address.
pub record Env : Type 0 where
  pub jwt_lib : JwtLib
  pub sha256_hex : String → String
  pub bcrypt_matches : String → String → Bool
  pub bcrypt_generate : ℕ → String → Option String
  pub new_uuid : ℕ → String
  pub random_hex : ℕ → Option String
  pub strength : String → List String → ℕ
  pub breached : String → Bool
  pub captcha_accepts : String → Bool
  pub device_name : String → String
  pub resolve_location : String → String
  pub canonical_ip : String → String
  -- Why the delivery of a mail fails, if it does, by the number of the draw.
  pub delivery_fault : ℕ → Mail → Option String

-- The knobs of internal/config that the service reads; durations in nanoseconds.
pub record AuthConfig : Type 0 where
  pub require_email_verified : Bool
  pub notify_new_ip_login : Bool
  pub max_login_attempts : ℕ
  pub login_lockout_duration : ℕ
  pub max_lockout_multiplier : ℕ
  pub access_ttl : ℕ
  pub refresh_ttl : ℕ
  pub mfa_pending_ttl : ℕ
  pub login_per_account_max : ℕ
  pub login_window : ℕ
  pub login_captcha_after_fails : ℕ
  pub reset_ttl : ℕ
  pub verify_ttl : ℕ
  pub register_per_ip_max : ℕ
  pub register_window : ℕ
  pub verify_resend_per_email_max : ℕ
  pub verify_resend_window : ℕ
  pub verify_resend_global_max : ℕ
  pub verify_resend_global_window : ℕ
  pub verify_resend_per_ip_max : ℕ
  pub verify_resend_per_ip_window : ℕ

pub record AuthService : Type 0 where
  pub jwt : JwtManager
  pub cfg : AuthConfig
  pub access_state : Option (String → ℕ → Claims → Action ⊤)
  pub access_revoker : Option (String → String → ℕ → Action ⊤)
  pub permissions_wired : Bool
  pub sessions_wired : Bool
  pub used_tokens_wired : Bool
  pub totp_wired : Bool
  pub notify_wired : Bool
  pub captcha_wired : Bool
  pub breached_wired : Bool
  pub min_password_score : ℕ
  -- `RevokeAllForUser` of the passkeys, `DeleteAllByUserID` of the OAuth identities.
  pub passkeys : Option (String → ℕ → Action ⊤)
  pub oauth_idents : Option (String → ℕ → Action ⊤)

pub record TokenPair : Type 0 where
  pub access_token : String
  pub refresh_token : String
  pub expires_at : ℕ

pub record UserProfile : Type 0 where
  pub id : ℕ
  pub username : String
  pub email : String
  pub full_name : String
  pub role : String
  pub is_active : Bool
  pub is_email_verified : Bool

-- `FromUser`
unfoldable pub from_user : User → UserProfile
from_user u = record {
  id = u.id;
  username = u.username;
  email = u.email;
  full_name = u.full_name;
  role = u.role;
  is_active = u.is_active;
  is_email_verified = u.is_email_verified;
}

-- What `Login` answers: a pair of tokens, or a token that only the second factor completes.
pub data LoginResult : Type 0 where
  signed_in : TokenPair → UserProfile → LoginResult
  mfa_required : String → LoginResult

abbrev pub minute : ℕ
minute = 60_000_000_000

abbrev pub hour : ℕ
hour = 60 * minute

abbrev pub day : ℕ
day = 24 * hour

-- `newIPLookbackWindow`, `pwdVerCacheTTL`
abbrev pub new_ip_lookback_window : ℕ
new_ip_lookback_window = 30 * day

abbrev pub pwd_ver_cache_ttl : ℕ
pwd_ver_cache_ttl = minute
