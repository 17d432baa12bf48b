-- ===== src/Services/Passwords/Change.antt =====
-- A change of credentials of internal/services/auth_service.go is all or nothing, and ends what was
-- signed in before.
use finn_api_go.Prelude.{ℕ, ◌+◌, ◌==◌, ◌≡◌, String, str_eq, Bool, true, not, ◌&&◌, none, some, List}
use finn_api_go.Prelude.Dict.{lookup}
use finn_api_go.Models.{User, Session, RefreshToken}
use finn_api_go.Store.{InMemoryStore, int64}
use finn_api_go.Store
use finn_api_go.Database.{World}
use finn_api_go.Database.Table.{any_where, update_where}
use finn_api_go.Database.Rows.{AllRevoked}
use finn_api_go.Repositories.Scope.{is_user, owned}
use finn_api_go.Repositories.Users
use finn_api_go.Repositories.Sessions
use finn_api_go.Repositories.RefreshTokens
use finn_api_go.Services.{AuthService}
use finn_api_go.Services.Tokens.{apply_credential_change, password_version_key}

-- The user's row after the change.
abbrev pub changed : String → User → User
changed hashed u = record u {
  password = hashed;
  failed_login_attempts = 0;
  locked_until = none;
  pwd_version = u.pwd_version + 1;
}

-- What the change has done: the row, the user's refresh tokens and sessions, the cached version.
abbrev pub IsDone : AuthService → String → User → String → World → World → Type 0
IsDone svc tid user hashed w w' =
    (w'.users ≡ update_where (is_user tid user.id) (changed hashed) w.users)
    × AllRevoked (λ t. owned tid w' t.user_id && t.user_id == user.id) (λ t. t.revoked)
        w'.refresh_tokens
    × (svc.sessions_wired ≡ true
        → AllRevoked (λ s. str_eq s.tenant_id tid && s.user_id == user.id) (λ s. s.revoked)
            w'.sessions)
    × ((s : InMemoryStore)
        → w'.store ≡ some s
        → lookup (password_version_key tid user.id) s.entries ≡ none)

module _ (svc : AuthService) (tid : String) (now : ℕ) (user : User) (hashed : String)
    (w : World) where
  abbrev users_after : List User
  users_after = update_where (is_user tid user.id) (changed hashed) w.users

  abbrev mine : List User → RefreshToken → Bool
  mine us t = any_where (is_user tid t.user_id) us && t.user_id == user.id

  abbrev mine_live : List User → RefreshToken → Bool
  mine_live us t = any_where (is_user tid t.user_id) us && t.user_id == user.id && not t.revoked

  abbrev mine_session : Session → Bool
  mine_session s = str_eq s.tenant_id tid && s.user_id == user.id

  abbrev after : World
  after = (apply_credential_change svc tid now user hashed w).1
