-- ===== src/Services/Example.antt =====
-- A small authentication service for the tests.
use finn_api_go.Prelude.{◌<>◌, str_eq, true, false, none, some, [], ◌∷◌}
use finn_api_go.Jwt.{Claims, JwtLib}
use finn_api_go.Services.{Env, AuthService}

-- Every token reads as these claims.
abbrev pub reset_claims : Claims
reset_claims = record {
  user_id = 7;
  role = "user";
  email = "ada@example.org";
  token_type = "reset";
  pwd_ver = 0;
  auth_epoch = 0;
  contract_version = 0;
  sid = "";
  tenant_id = "acme";
  permissions = none;
  issuer = "finnapigo";
  subject = "7";
  audience = [];
  expires_at = some 900;
  not_before = none;
  issued_at = none;
  jti = "j1";
}

abbrev pub lib : JwtLib
lib = record {
  sign = λ kid key c. some ("signed:" <> c.token_type);
  peek_kid = λ token. "k1";
  parse_with_claims = λ strict issuer now key token. some reset_claims;
  raw_url_decode = λ part. none;
  object_members = λ bytes. none;
}

abbrev pub env : Env
env = record {
  jwt_lib = lib;
  sha256_hex = λ s. "sha:" <> s;
  bcrypt_matches = λ hash plain. str_eq hash ("hash:" <> plain);
  bcrypt_generate = λ salt plain. some ("hash:" <> plain);
  new_uuid = λ n. "uuid";
  random_hex = λ n. some "fresh";
  strength = λ pw inputs. 4;
  breached = λ pw. false;
  captcha_accepts = λ c. true;
  device_name = λ ua. "Device";
  resolve_location = λ ip. "";
  canonical_ip = λ ip. ip;
  delivery_fault = λ n m. none;
}

abbrev pub svc : AuthService
svc = record {
  jwt = record {
    strict = false;
    previous_id = "";
    previous_retires = 0;
    issuer = "finnapigo";
    current = "secret";
    current_kid = "k1";
    keys = ("k1", "secret") ∷ [];
    try_order = "k1" ∷ [];
  };
  cfg = record {
    require_email_verified = true;
    notify_new_ip_login = true;
    max_login_attempts = 5;
    login_lockout_duration = 60;
    max_lockout_multiplier = 4;
    access_ttl = 15;
    refresh_ttl = 500;
    mfa_pending_ttl = 5;
    login_per_account_max = 10;
    login_window = 60;
    login_captcha_after_fails = 3;
    reset_ttl = 100;
    verify_ttl = 100;
    register_per_ip_max = 5;
    register_window = 60;
    verify_resend_per_email_max = 3;
    verify_resend_window = 60;
    verify_resend_global_max = 100;
    verify_resend_global_window = 60;
    verify_resend_per_ip_max = 10;
    verify_resend_per_ip_window = 60;
  };
  access_state = none;
  access_revoker = none;
  permissions_wired = true;
  sessions_wired = true;
  used_tokens_wired = true;
  totp_wired = true;
  notify_wired = true;
  captcha_wired = true;
  breached_wired = true;
  min_password_score = 3;
  passkeys = none;
  oauth_idents = none;
}
