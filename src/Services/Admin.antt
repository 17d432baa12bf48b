-- ===== src/Services/Admin.antt =====
-- internal/services/admin_service.go: what an administrator does to a user of the bound tenant. The
-- export of the audit log and the paginated listing are left out.
pub mod Reach
mod Tests
use finn_api_go.Prelude.{
  ℕ, ◌+◌, ◌*◌, ◌==◌, String, ◌<>◌, str_eq, Bool, true, false, not, ◌||◌, ltb, Option, none, some,
  List, [], ◌∷◌, if◌then◌else◌,
}
use finn_api_go.Prelude.Int64.{Int64, lt64, show_uint}
use finn_api_go.Models.{User, Session}
use finn_api_go.Database.{
  Action, ⊤, ◌>>=◌, ◌>>◌, pure, raise, raise_if, when, user_not_found, cannot_lock_self,
}
use finn_api_go.Repositories.Users
use finn_api_go.Repositories.Sessions
use finn_api_go.Repositories.RefreshTokens
use finn_api_go.Store
use finn_api_go.Services.Tokens.{password_version_key}
use finn_api_go.Services.{day}
use finn_api_go.Services.Support.{audit, store_do}
use finn_api_go.Services.Closure.{SessionInfo, session_info}

-- `AdminService`: which of its dependencies are there, and the layout of a time in RFC 3339.
pub record AdminService : Type 0 where
  pub sessions_wired : Bool
  pub tokens_wired : Bool
  pub audits_wired : Bool
  pub rfc3339 : ℕ → String

-- A duration that is not positive stands for ten years.
abbrev pub lock_term : Int64 → ℕ
lock_term d = if lt64 0 d then d else 365 * 10 * day

abbrev pub tenant_session : Session → SessionInfo
tenant_session s = record (session_info "" s) { is_current = false }

unfoldable pub tenant_sessions : List Session → List SessionInfo
tenant_sessions [] = []
tenant_sessions (s ∷ rest) = tenant_session s ∷ tenant_sessions rest

module _ (svc : AdminService) (tid : String) (now : ℕ) where
  -- The user, of the bound tenant.
  unfoldable pub target_user : ℕ → Action User
  target_user uid = do
    found ← Users.find_by_id tid uid
    elim found [
      | none ↦ raise user_not_found
      | some u ↦ do raise_if (not (str_eq u.tenant_id tid)) user_not_found; pure u
    ]

  abbrev pub admin_action : ℕ → User → String → String → Action ⊤
  admin_action uid u ip detail =
      when svc.audits_wired (audit (some uid) u.email "admin_action" ip true detail)

  -- `lockUserAudited`
  unfoldable pub lock_user : ℕ → ℕ → Int64 → String → Action ⊤
  lock_user admin uid duration ip = do
    raise_if (admin == uid) cannot_lock_self
    u ← target_user uid
    let until = now + lock_term duration
    Users.set_lock tid uid (some until)
    admin_action uid u ip ("locked user " <> show_uint uid <> " until " <> svc.rfc3339 until)

  -- `unlockUserAudited`
  unfoldable pub unlock_user : ℕ → ℕ → String → Action ⊤
  unlock_user admin uid ip = do
    u ← target_user uid
    Users.set_lock tid uid none
    admin_action uid u ip ("unlocked user " <> show_uint uid)

  -- `forceLogoutAudited`
  unfoldable pub force_logout : ℕ → ℕ → String → Action ⊤
  force_logout admin uid ip = do
    u ← target_user uid
    when svc.tokens_wired (RefreshTokens.revoke_all_for_user tid uid)
    when svc.sessions_wired (Sessions.revoke_all_for_user tid uid)
    Users.bump_pwd_version tid uid
    store_do (Store.delete now (password_version_key tid uid))
    admin_action uid u ip
        ("forced logout for user " <> show_uint uid <> " (sessions and tokens revoked)")

  -- `ListTenantSessions`
  unfoldable pub list_tenant_sessions : Action (List SessionInfo)
  list_tenant_sessions =
      if svc.sessions_wired
      then (do rows ← Sessions.find_all_active_by_tenant tid now tid; pure (tenant_sessions rows))
      else pure []
