-- ===== src/Services/TrustedDevices.antt =====
-- internal/services/trusted_device_service.go: tokens of devices that are remembered.
pub mod Trust
mod Tests
use finn_api_go.Prelude.{
  ℕ, ◌+◌, ◌*◌, ◌==◌, String, is_empty, Bool, true, false, not, ◌||◌, ltb, Option, none, some, List,
  [], ◌∷◌, if◌then◌else◌,
}
use finn_api_go.Models.{TrustedDevice}
use finn_api_go.Database.{Action, ⊤, ◌>>=◌, ◌>>◌, pure, raise, when, ignore, generating}
use finn_api_go.Repositories.TrustedDevices
use finn_api_go.Services.{Env, day}
use finn_api_go.Services.Support.{audit, draw}

pub record TrustedDeviceInfo : Type 0 where
  pub id : ℕ
  pub device_name : String
  pub ip_address : String
  pub last_used_at : Option ℕ
  pub expires_at : ℕ
  pub created_at : ℕ

abbrev pub device_info : TrustedDevice → TrustedDeviceInfo
device_info d = record {
  id = d.id;
  device_name = d.device_name;
  ip_address = d.ip_address;
  last_used_at = d.last_used_at;
  expires_at = d.expires_at;
  created_at = d.created_at;
}

unfoldable pub device_infos : List TrustedDevice → List TrustedDeviceInfo
device_infos [] = []
device_infos (d ∷ rest) = device_info d ∷ device_infos rest

pub record TrustedDeviceService : Type 0 where
  pub repo_wired : Bool
  pub audits_wired : Bool
  pub ttl : ℕ

-- `NewTrustedDeviceService`
abbrev pub new_trusted_device_service : Bool → Bool → TrustedDeviceService
new_trusted_device_service repo audits = record {
  repo_wired = repo;
  audits_wired = audits;
  ttl = 30 * day;
}

-- The 32 random bytes, in hexadecimal.
unfoldable pub device_token : Env → Action String
device_token env = do
  n ← draw
  elim (env.random_hex n) [ none ↦ raise generating | some t ↦ pure t ]

module _ (env : Env) (svc : TrustedDeviceService) (tid : String) (now : ℕ) where
  abbrev pub record_use : ℕ → String → Action ⊤
  record_use uid event = when svc.audits_wired (audit (some uid) "" event "" true "")

  -- `issueAudited`
  unfoldable pub issue : ℕ → String → String → Action (String × ℕ)
  issue uid device_name ip = do
    token ← device_token env
    let expires_at = now + svc.ttl
    when svc.repo_wired (
        TrustedDevices.create tid (record {
          id = 0;
          user_id = uid;
          device_hash = env.sha256_hex token;
          device_name = device_name;
          ip_address = ip;
          last_used_at = none;
          expires_at = expires_at;
          revoked = false;
          created_at = now;
        }))
    record_use uid "trusted_device_issued"
    pure (token, expires_at)

  abbrev pub is_refused : ℕ → TrustedDevice → Bool
  is_refused uid d = not (d.user_id == uid) || d.revoked || ltb d.expires_at now

  -- `validateAudited`
  unfoldable pub validate : ℕ → String → Action Bool
  validate uid token = if not svc.repo_wired || is_empty token then pure false else (do
    found ← TrustedDevices.find_by_device_hash tid now (env.sha256_hex token)
    elim found [
      | none ↦ pure false
      | some d ↦ if is_refused uid d then pure false else (do
        ignore (TrustedDevices.touch_usage tid d.id now)
        record_use uid "trusted_device_used"
        pure true)
    ])

  -- `ListByUser`
  unfoldable pub list_by_user : ℕ → Action (List TrustedDeviceInfo)
  list_by_user uid =
      if svc.repo_wired
      then (do rows ← TrustedDevices.list_by_user tid now uid; pure (device_infos rows))
      else pure []

  -- `revokeAudited`
  unfoldable pub revoke : ℕ → ℕ → Action ⊤
  revoke id uid =
      when svc.repo_wired
        (do TrustedDevices.revoke tid id uid; record_use uid "trusted_device_revoked")
