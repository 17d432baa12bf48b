-- ===== src/Database/Example.antt =====
-- A small state of the database for the tests.
use finn_api_go.Prelude.{true, false, none, some, [], ◌∷◌}
use finn_api_go.Models.{User, Session, RefreshToken}
use finn_api_go.Store.{new_in_memory_store}
use finn_api_go.Database.{World}

abbrev pub ada : User
ada = record {
  id = 7;
  tenant_id = "acme";
  username = "ada";
  email = "ada@example.org";
  password = "hash:lovelace1";
  full_name = "Ada";
  role = "user";
  is_active = true;
  is_email_verified = true;
  failed_login_attempts = 4;
  locked_until = none;
  auth_epoch = 0;
  admin_suspended = false;
  pwd_version = 3;
}

abbrev pub laptop : Session
laptop = record {
  id = "s1";
  tenant_id = "acme";
  user_id = 7;
  ip_address = "";
  user_agent = "";
  device_name = "";
  location_estimate = "";
  revoked = false;
  last_active_at = 0;
  expires_at = 1000;
}

abbrev pub token_row : RefreshToken
token_row = record {
  id = 1;
  user_id = 7;
  token_hash = "sha:tok";
  expires_at = 1000;
  revoked = false;
  ip_address = "";
  user_agent = "";
  device_name = "";
  location_estimate = "";
  last_active_at = 0;
  session_id = "s1";
}

abbrev pub acme : World
acme = record {
  users = ada ∷ [];
  sessions = laptop ∷ record laptop { id = "s2" } ∷ [];
  refresh_tokens =
      token_row ∷ record token_row { id = 2; token_hash = "sha:other"; session_id = "s2" } ∷ [];
  used_tokens = [];
  tenants = record { id = "acme"; is_active = true } ∷ [];
  access_revocations = [];
  totp_devices = [];
  recovery_codes = [];
  roles = [];
  permissions = [];
  role_permissions = [];
  user_roles = [];
  oauth_identities = [];
  passkeys = [];
  trusted_devices = [];
  webhook_endpoints = [];
  webhook_deliveries = [];
  store = some new_in_memory_store;
  audits = [];
  mails = [];
  metrics = record {
    login_successes = 0;
    login_failures = 0;
    refresh_rotations = 0;
    token_reuse_detections = 0;
    totp_failures = 0;
  };
  faults = [];
  draws = 0;
  next_id = 10;
}
