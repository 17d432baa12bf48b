-- ===== src/Models.antt =====
-- internal/models: the rows of the tables that the services read and write.
-- Times count nanoseconds; an id and a version is a number that does not wrap.
use finn_api_go.Prelude.{ℕ, String, Bool, Option}

pub record User : Type 0 where
  pub id : ℕ
  pub tenant_id : String
  pub username : String
  pub email : String
  -- The bcrypt hash; empty for an account that has only signed in by OAuth.
  pub password : String
  pub full_name : String
  pub role : String
  pub is_active : Bool
  pub is_email_verified : Bool
  pub failed_login_attempts : ℕ
  pub locked_until : Option ℕ
  pub auth_epoch : ℕ
  pub admin_suspended : Bool
  pub pwd_version : ℕ

pub record Session : Type 0 where
  pub id : String
  pub tenant_id : String
  pub user_id : ℕ
  pub ip_address : String
  pub user_agent : String
  pub device_name : String
  pub location_estimate : String
  pub revoked : Bool
  pub last_active_at : ℕ
  pub expires_at : ℕ

pub record RefreshToken : Type 0 where
  pub id : ℕ
  pub user_id : ℕ
  pub token_hash : String
  pub expires_at : ℕ
  pub revoked : Bool
  pub ip_address : String
  pub user_agent : String
  pub device_name : String
  pub location_estimate : String
  pub last_active_at : ℕ
  -- Empty for a row from before the session table.
  pub session_id : String

pub record UsedToken : Type 0 where
  pub jti : String
  pub token_type : String
  pub user_id : ℕ
  pub expires_at : ℕ

pub record Tenant : Type 0 where
  pub id : String
  pub is_active : Bool

pub record AccessRevocation : Type 0 where
  pub tenant_id : String
  pub jti : String
  pub expires_at : ℕ

pub record TotpDevice : Type 0 where
  pub id : ℕ
  pub user_id : ℕ
  pub secret : String
  pub secret_encrypted : String
  pub pending_secret_encrypted : String
  pub enabled : Bool

pub record RecoveryCode : Type 0 where
  pub id : ℕ
  pub user_id : ℕ
  pub code_hash : String
  pub code_encrypted : String
  pub used_at : Option ℕ

pub record OauthIdentity : Type 0 where
  pub id : ℕ
  pub user_id : ℕ
  pub provider : String
  pub provider_user_id : String

-- The credential id and the key are bytes, as texts.
pub record PasskeyCredential : Type 0 where
  pub id : ℕ
  pub user_id : ℕ
  pub credential_id : String
  pub public_key : String
  pub sign_count : ℕ
  pub display_name : String
  pub transports : String
  pub attestation_type : String
  pub last_used_at : Option ℕ
  pub revoked : Bool

pub record TrustedDevice : Type 0 where
  pub id : ℕ
  pub user_id : ℕ
  pub device_hash : String
  pub device_name : String
  pub ip_address : String
  pub last_used_at : Option ℕ
  pub expires_at : ℕ
  pub revoked : Bool
  pub created_at : ℕ

pub record WebhookEndpoint : Type 0 where
  pub id : String
  pub tenant_id : String
  pub url : String
  pub secret : String
  pub events : String
  pub is_active : Bool
  pub created_at : ℕ

pub data DeliveryStatus : Type 0 where
  pending failed delivered : DeliveryStatus

pub record WebhookDelivery : Type 0 where
  pub id : String
  pub endpoint_id : String
  pub event : String
  pub payload : String
  pub status : DeliveryStatus
  pub attempts : ℕ
  pub next_retry_at : Option ℕ
  pub response_status : Option ℕ
  pub error_msg : String
  pub created_at : ℕ
  pub updated_at : ℕ

pub record Role : Type 0 where
  pub id : ℕ
  pub tenant_id : String
  pub name : String

pub record Permission : Type 0 where
  pub id : ℕ
  pub name : String

pub record AuditLog : Type 0 where
  pub user_id : Option ℕ
  pub email : String
  pub event : String
  pub ip_address : String
  pub success : Bool
  pub detail : String

-- `RoleUser`, `RoleAdmin`
abbrev pub role_user : String
role_user = "user"

abbrev pub role_admin : String
role_admin = "admin"
