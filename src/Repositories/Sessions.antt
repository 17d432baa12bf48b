-- ===== src/Repositories/Sessions.antt =====
-- internal/repositories/session_repository.go
use finn_api_go.Prelude.{
  ℕ, ◌==◌, String, str_eq, Bool, true, not, ◌&&◌, Option, List, [], ◌∷◌, ◌++◌, ltb,
}
use finn_api_go.Models.{Session}
use finn_api_go.Database.{
  Action, ⊤, ◌>>=◌, ◌>>◌, gets, query, raise_if, modify, duplicate_key, record_not_found,
}
use finn_api_go.Database.Table.{first_where, any_where, update_where, filter_where}
use finn_api_go.Repositories.Scope.{require_owner, scope_tenant}

module _ (tid : String) where
  abbrev pub is_session : String → Session → Bool
  is_session sid s = str_eq s.tenant_id tid && str_eq s.id sid

  -- The primary key is the id alone.
  unfoldable pub create : Session → Action ⊤
  unfolding scope_tenant require_owner query any_where
  create s = do
    scope_tenant tid s.tenant_id
    require_owner tid s.user_id
    query
    taken ← gets (λ w. any_where (λ t. str_eq t.id s.id) w.sessions)
    raise_if taken duplicate_key
    modify (λ w. record w { sessions = w.sessions ++ record s { tenant_id = tid } ∷ [] })

  unfoldable pub find_by_id : String → Action (Option Session)
  unfolding query first_where
  find_by_id sid = do query; gets (λ w. first_where (is_session sid) w.sessions)

  -- The order of the rows by their last activity is left out, here and below.
  unfoldable pub find_active_by_user : ℕ → ℕ → Action (List Session)
  unfolding query filter_where
  find_active_by_user now uid = do
    query
    gets (λ w.
        filter_where
          (λ s. str_eq s.tenant_id tid && s.user_id == uid && not s.revoked && ltb now s.expires_at)
          w.sessions)

  unfoldable pub find_all_active_by_tenant : ℕ → String → Action (List Session)
  unfolding scope_tenant query filter_where
  find_all_active_by_tenant now requested = do
    scope_tenant tid requested
    query
    gets (λ w.
        filter_where (λ s. str_eq s.tenant_id tid && not s.revoked && ltb now s.expires_at)
          w.sessions)

  unfoldable pub touch : String → String → String → String → String → ℕ → Action ⊤
  unfolding query any_where update_where
  touch sid ip ua device location at = do
    query
    known ← gets (λ w. any_where (is_session sid) w.sessions)
    raise_if (not known) record_not_found
    modify (λ w. record w {
      sessions =
          update_where (is_session sid)
            (λ s. record s {
              ip_address = ip;
              user_agent = ua;
              device_name = device;
              location_estimate = location;
              last_active_at = at;
            })
            w.sessions;
    })

  abbrev pub revoke : Session → Session
  revoke s = record s { revoked = true }

  -- MySQL counts the rows that change: a session already revoked counts as not found.
  unfoldable pub revoke_by_id : String → ℕ → Action ⊤
  unfolding query any_where update_where
  revoke_by_id sid uid = do
    query
    let mine = λ (s : Session). is_session sid s && s.user_id == uid
    changes ← gets (λ w. any_where (λ s. mine s && not s.revoked) w.sessions)
    modify (λ w. record w { sessions = update_where mine revoke w.sessions })
    raise_if (not changes) record_not_found

  abbrev pub is_live_of : ℕ → Session → Bool
  is_live_of uid s = str_eq s.tenant_id tid && s.user_id == uid && not s.revoked

  -- The update that `RevokeAllForUserTx` makes inside the caller's transaction.
  unfoldable pub revoke_all_for_user_tx : ℕ → Action ⊤
  unfolding query update_where
  revoke_all_for_user_tx uid = do
    query
    modify (λ w. record w { sessions = update_where (is_live_of uid) revoke w.sessions })

  unfoldable pub revoke_all_for_user : ℕ → Action ⊤
  unfolding require_owner revoke_all_for_user_tx
  revoke_all_for_user uid = do require_owner tid uid; revoke_all_for_user_tx uid
