-- ===== src/Services/Login/Lockout.antt =====
-- The lockout of internal/services/auth_service.go: `recordFailedLogin`, and `Login` while it lasts.
use finn_api_go.Prelude.{ℕ, ◌+◌, ◌*◌, ◌^◌, ◌<◌, String, some}
use finn_api_go.Models.{User}
use finn_api_go.Store
use finn_api_go.Repositories.Users
use finn_api_go.Services.{Env, AuthService}

module _ (env : Env) (svc : AuthService) (tid : String) (now : ℕ)
    (small : svc.cfg.max_lockout_multiplier < 2 ^ 63)
    (fits : svc.cfg.login_lockout_duration * svc.cfg.max_lockout_multiplier < 2 ^ 63) where
  -- The row of the user after a failure at the threshold.
  abbrev locked_row : ℕ → User → User
  locked_row d v = record v {
    failed_login_attempts = v.failed_login_attempts + 1;
    locked_until = some (now + d);
  }
