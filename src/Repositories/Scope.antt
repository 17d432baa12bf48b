-- ===== src/Repositories/Scope.antt =====
-- internal/repositories/scope.go: what binds a query to its tenant.
use finn_api_go.Prelude.{ℕ, ◌==◌, String, str_eq, is_empty, Bool, not, ◌&&◌}
use finn_api_go.Models.{User}
use finn_api_go.Database.{
  World, Action, ⊤, ◌>>=◌, ◌>>◌, gets, query, raise_if, modify, record_not_found,
}
use finn_api_go.Database.Table.{any_where, update_where}

-- `id = ? AND tenant_id = ?`
abbrev pub is_user : String → ℕ → User → Bool
is_user tid uid u = u.id == uid && str_eq u.tenant_id tid

-- `ownedRows`: the user id of a row belongs to the tenant.
abbrev pub owned : String → World → ℕ → Bool
owned tid w uid = any_where (is_user tid uid) w.users

-- `requireOwner`
unfoldable pub require_owner : String → ℕ → Action ⊤
unfolding query any_where
require_owner tid uid = do
  query
  mine ← gets (λ w. owned tid w uid)
  raise_if (not mine) record_not_found

-- `scopeTenant`
unfoldable pub scope_tenant : String → String → Action ⊤
scope_tenant tid requested =
    raise_if (not (is_empty requested) && not (str_eq requested tid)) record_not_found

-- `updateScoped` on the users of the tenant with this id: it never inserts, and says when there is
-- no such row.
unfoldable pub update_user : String → ℕ → (User → User) → Action ⊤
unfolding query any_where update_where
update_user tid uid f = do
  query
  mine ← gets (λ w. owned tid w uid)
  raise_if (not mine) record_not_found
  modify (λ w. record w { users = update_where (is_user tid uid) f w.users })
