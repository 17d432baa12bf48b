-- ===== src/Services/Refresh/Revocation.antt =====
-- `RevokeSession` of internal/services/auth_service.go: only the owner ends a session.
use finn_api_go.Prelude.{ℕ, ◌≡◌, ◌≢◌, String, some, [], arith, Option-cases, inl, inr}
use finn_api_go.Models.{Session}
use finn_api_go.Database.{World, ok, err, query, session_not_found}
use finn_api_go.Database.Table.{first_where}
use finn_api_go.Repositories.Sessions
use finn_api_go.Services.{Env, AuthService}
use finn_api_go.Services.Refresh.{revoke_session}

module _ (env : Env) (svc : AuthService) (tid : String) (now : ℕ) where
  -- The session is not one of the user's.
  abbrev pub NotOwn : String → ℕ → World → Type 0
  NotOwn sid uid w =
      (s : Session)
      → first_where (Sessions.is_session tid sid) w.sessions ≡ some s
      → s.user_id ≢ uid

  -- A user who names a session of somebody else, or none at all, is told that it is not found, or
  -- that the database failed, and nothing has changed.
  pub revoke_session_foreign :
      (sid : String) (uid : ℕ) (ip : String) (w : World)
      → NotOwn sid uid w
      → let (r, w') = revoke_session env svc tid now sid uid ip w in
        (r ≢ ok tt)
        × (w.faults ≡ [] → r ≡ err session_not_found)
        × (w' ≡ record w { faults = w'.faults })
  unfolding revoke_session Sessions.find_by_id query
  revoke_session_foreign sid uid ip w ne =
      elim (Option-cases (first_where (Sessions.is_session tid sid) w.sessions)) [
        | inl unknown ↦
            (λ h. ground (arith, unknown), λ f. ground (arith, unknown), ground (arith, unknown))
        | inr (s, e) ↦ (
          λ h. ground (arith, e, ne s e),
          λ f. ground (arith, e, ne s e),
          ground (arith, e, ne s e),
        )
      ]
