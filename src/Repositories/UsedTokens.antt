-- ===== src/Repositories/UsedTokens.antt =====
-- internal/repositories/used_token_repository.go: the consumed single-use tokens.
use finn_api_go.Prelude.{ℕ, String, str_eq, Bool, true, false, ◌∷◌, if◌then◌else◌, ltb}
use finn_api_go.Models.{UsedToken}
use finn_api_go.Database.{Action, ⊤, ◌>>=◌, ◌>>◌, gets, query, pure, modify}
use finn_api_go.Database.Table.{any_where, delete_where}

abbrev pub is_jti : String → UsedToken → Bool
is_jti jti t = str_eq t.jti jti

-- The unique index decides: whether this call recorded the jti.
unfoldable pub mark_used : UsedToken → Action Bool
unfolding query any_where
mark_used row = do
  query
  known ← gets (λ w. any_where (is_jti row.jti) w.used_tokens)
  modify (λ w. record w { used_tokens = if known then w.used_tokens else row ∷ w.used_tokens })
  pure (if known then false else true)

unfoldable pub is_used : String → Action Bool
unfolding query any_where
is_used jti = do query; gets (λ w. any_where (is_jti jti) w.used_tokens)

-- `PurgeExpired`, as one delete.
unfoldable pub purge_expired : ℕ → Action ⊤
unfolding query delete_where
purge_expired before = do
  query
  modify (λ w. record w { used_tokens = delete_where (λ t. ltb t.expires_at before) w.used_tokens })
