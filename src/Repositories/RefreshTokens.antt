-- ===== src/Repositories/RefreshTokens.antt =====
-- internal/repositories/refresh_token_repository.go
use finn_api_go.Prelude.{
  ℕ, ◌+◌, ◌==◌, String, str_eq, Bool, true, not, ◌&&◌, Option, List, [], ◌∷◌, ◌++◌, ltb,
}
use finn_api_go.Models.{RefreshToken}
use finn_api_go.Database.{
  World, Action, ⊤, ◌>>=◌, ◌>>◌, gets, query, raise_if, modify, duplicate_key, record_not_found,
  token_already_revoked,
}
use finn_api_go.Database.Table.{first_where, any_where, update_where, filter_where, delete_where}
use finn_api_go.Repositories.Scope.{require_owner, owned}

module _ (tid : String) where
  -- The unique index on the hash rejects a second row.
  unfoldable pub create : RefreshToken → Action ⊤
  unfolding require_owner query any_where
  create rt = do
    require_owner tid rt.user_id
    query
    taken ← gets (λ w. any_where (λ t. str_eq t.token_hash rt.token_hash) w.refresh_tokens)
    raise_if taken duplicate_key
    modify (λ w. record w {
      refresh_tokens = w.refresh_tokens ++ record rt { id = w.next_id } ∷ [];
      next_id = w.next_id + 1;
    })

  abbrev pub has_hash : World → String → RefreshToken → Bool
  has_hash w hash t = owned tid w t.user_id && str_eq t.token_hash hash

  unfoldable pub find_by_hash : String → Action (Option RefreshToken)
  unfolding query first_where any_where
  find_by_hash hash = do query; gets (λ w. first_where (has_hash w hash) w.refresh_tokens)

  unfoldable pub find_active_by_user : ℕ → ℕ → Action (List RefreshToken)
  unfolding query filter_where any_where
  find_active_by_user now uid = do
    query
    gets (λ w.
        filter_where
          (λ t. owned tid w t.user_id && t.user_id == uid && not t.revoked && ltb now t.expires_at)
          w.refresh_tokens)

  abbrev pub revoked_row : RefreshToken → RefreshToken
  revoked_row t = record t { revoked = true }

  -- MySQL counts the rows that change.
  unfoldable pub revoke_by_id : ℕ → ℕ → Action ⊤
  unfolding query any_where update_where
  revoke_by_id id uid = do
    query
    w₀ ← gets (λ w. w)
    let mine = λ (t : RefreshToken). owned tid w₀ t.user_id && t.id == id && t.user_id == uid
    changes ← gets (λ w. any_where (λ t. mine t && not t.revoked) w.refresh_tokens)
    modify (λ w. record w { refresh_tokens = update_where mine revoked_row w.refresh_tokens })
    raise_if (not changes) record_not_found

  abbrev pub is_open : World → RefreshToken → RefreshToken → Bool
  is_open w rt t = owned tid w t.user_id && t.id == rt.id && not t.revoked

  -- Compare and set: the update matches only while the row is not revoked.
  unfoldable pub revoke : RefreshToken → Action ⊤
  unfolding query any_where update_where
  revoke rt = do
    query
    w₀ ← gets (λ w. w)
    won ← gets (λ w. any_where (is_open w₀ rt) w.refresh_tokens)
    modify (λ w. record w {
      refresh_tokens = update_where (is_open w₀ rt) revoked_row w.refresh_tokens;
    })
    raise_if (not won) token_already_revoked

  -- The update that `RevokeAllForUserTx` makes inside the caller's transaction.
  unfoldable pub revoke_all_for_user_tx : ℕ → Action ⊤
  unfolding query any_where update_where
  revoke_all_for_user_tx uid = do
    query
    w₀ ← gets (λ w. w)
    modify (λ w. record w {
      refresh_tokens =
          update_where (λ t. owned tid w₀ t.user_id && t.user_id == uid && not t.revoked)
            revoked_row w.refresh_tokens;
    })

  unfoldable pub revoke_all_for_user : ℕ → Action ⊤
  unfolding require_owner revoke_all_for_user_tx
  revoke_all_for_user uid = do require_owner tid uid; revoke_all_for_user_tx uid

  unfoldable pub revoke_by_session : String → Action ⊤
  unfolding query any_where update_where
  revoke_by_session sid = do
    query
    w₀ ← gets (λ w. w)
    modify (λ w. record w {
      refresh_tokens =
          update_where (λ t. owned tid w₀ t.user_id && str_eq t.session_id sid && not t.revoked)
            revoked_row w.refresh_tokens;
    })

-- `PurgeExpired`, for every tenant: the expired rows, then the revoked ones, each as one delete.
unfoldable pub purge_expired : ℕ → Action ⊤
unfolding query delete_where
purge_expired before = do
  query
  modify (λ w. record w {
    refresh_tokens = delete_where (λ t. ltb t.expires_at before) w.refresh_tokens;
  })
  query
  modify (λ w. record w { refresh_tokens = delete_where (λ t. t.revoked) w.refresh_tokens })
