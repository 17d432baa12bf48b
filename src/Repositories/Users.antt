-- ===== src/Repositories/Users.antt =====
-- internal/repositories/user_repository.go
use finn_api_go.Prelude.{
  ℕ, ◌+◌, String, str_eq, is_empty, Bool, false, ◌&&◌, ◌||◌, Option, none, some, [], ◌∷◌, ◌++◌,
}
use finn_api_go.Models.{User}
use finn_api_go.Database.{
  Action, ⊤, ◌>>=◌, ◌>>◌, gets, query, raise_if, pure, modify, transaction, duplicate_key,
}
use finn_api_go.Database.Table.{first_where, any_where, update_where}
use finn_api_go.Repositories.Scope.{is_user, update_user, scope_tenant}

module _ (tid : String) where
  -- The unique indices on email and on username reject a second row in the tenant.
  unfoldable pub create : User → Action User
  unfolding scope_tenant query any_where
  create u = do
    scope_tenant tid u.tenant_id
    query
    taken ← gets (λ w.
        any_where
          (λ v. str_eq v.tenant_id tid && (str_eq v.email u.email || str_eq v.username u.username))
          w.users)
    raise_if taken duplicate_key
    id ← gets (λ w. w.next_id)
    let row = record u { id = id; tenant_id = tid }
    modify (λ w. record w { users = w.users ++ row ∷ []; next_id = w.next_id + 1 })
    pure row

  unfoldable pub find_by_id : ℕ → Action (Option User)
  unfolding query first_where
  find_by_id uid = do query; gets (λ w. first_where (is_user tid uid) w.users)

  unfoldable pub find_by_email : String → Action (Option User)
  unfolding query first_where
  find_by_email email = do
    query
    gets (λ w. first_where (λ u. str_eq u.email email && str_eq u.tenant_id tid) w.users)

  unfoldable pub find_by_username : String → Action (Option User)
  unfolding query first_where
  find_by_username name = do
    query
    gets (λ w. first_where (λ u. str_eq u.username name && str_eq u.tenant_id tid) w.users)

  -- `Update`: only the ordinary profile fields.
  unfoldable pub update : User → Action ⊤
  unfolding scope_tenant update_user
  update user = do
    scope_tenant tid user.tenant_id
    update_user tid user.id (λ u. record u { username = user.username; full_name = user.full_name })

  unfoldable pub update_email : User → Action ⊤
  unfolding scope_tenant update_user
  update_email user = do
    scope_tenant tid user.tenant_id
    update_user tid user.id
        (λ u. record u { email = user.email; is_email_verified = user.is_email_verified })

  unfoldable pub deactivate : ℕ → Action ⊤
  unfolding update_user
  deactivate uid = update_user tid uid (λ u. record u { is_active = false })

  unfoldable pub erase : User → Action ⊤
  unfolding scope_tenant update_user
  erase user = do
    scope_tenant tid user.tenant_id
    update_user tid user.id (λ u. record u {
      email = user.email;
      username = user.username;
      password = "";
      full_name = "";
      is_active = false;
      is_email_verified = false;
    })

  unfoldable pub update_password : User → String → Action ⊤
  unfolding update_user
  update_password user hashed = update_user tid user.id (λ u. record u { password = hashed })

  -- The counter grows in SQL, not from the caller's copy.
  unfoldable pub increment_failed_attempts : User → Option ℕ → Action ⊤
  unfolding update_user
  increment_failed_attempts user lock_until = update_user tid user.id (λ u. record u {
    failed_login_attempts = u.failed_login_attempts + 1;
    locked_until = elim lock_until [ none ↦ u.locked_until | some t ↦ some t ];
  })

  unfoldable pub reset_failed_attempts : User → Action ⊤
  unfolding update_user
  reset_failed_attempts user =
      update_user tid user.id (λ u. record u { failed_login_attempts = 0; locked_until = none })

  unfoldable pub bump_pwd_version : ℕ → Action ⊤
  unfolding update_user
  bump_pwd_version uid = update_user tid uid (λ u. record u { pwd_version = u.pwd_version + 1 })

  -- `CredentialChangeTx`: all of it, or nothing.
  unfoldable pub credential_change_tx : ℕ → String → Action ⊤ → Action ⊤
  unfolding transaction update_user
  credential_change_tx uid hashed revoke_refresh = transaction (do
    update_user tid uid (λ u. record u {
      password = hashed;
      failed_login_attempts = 0;
      locked_until = none;
      pwd_version = u.pwd_version + 1;
    })
    revoke_refresh)

  -- The conditional update of a first password: whether it found an account without one.
  unfoldable pub set_first_password : ℕ → String → Action Bool
  unfolding query any_where update_user
  set_first_password uid hashed = do
    query
    let open_row = λ (u : User). is_user tid uid u && is_empty u.password
    hit ← gets (λ w. any_where open_row w.users)
    modify (λ w. record w {
      users = update_where open_row (λ u. record u { password = hashed }) w.users;
    })
    pure hit

  unfoldable pub set_email_verified : User → Bool → Action ⊤
  unfolding update_user
  set_email_verified user verified =
      update_user tid user.id (λ u. record u { is_email_verified = verified })

  unfoldable pub set_lock : ℕ → Option ℕ → Action ⊤
  unfolding update_user
  set_lock uid locked_until = update_user tid uid (λ u. record u {
    locked_until = locked_until;
    failed_login_attempts = elim locked_until [ none ↦ 0 | some t ↦ u.failed_login_attempts ];
  })
