-- ===== src/Repositories/Rbac.antt =====
-- internal/repositories/rbac_repository.go: the permissions of a user.
use finn_api_go.Prelude.{
  ℕ, ◌==◌, String, str_eq, Bool, true, false, ◌&&◌, List, [], ◌∷◌, map, if◌then◌else◌,
}
use finn_api_go.Models.{Role, Permission}
use finn_api_go.Database.{World, Action, ◌>>◌, gets, query}
use finn_api_go.Database.Table.{any_where, filter_where}
use finn_api_go.Repositories.Scope.{owned}

unfoldable pub contains : String → List String → Bool
contains p [] = false
contains p (q ∷ qs) = if str_eq q p then true else contains p qs

-- `DISTINCT`
unfoldable pub distinct : List String → List String
unfolding contains
distinct [] = []
distinct (p ∷ ps) = let rest = distinct ps in if contains p rest then rest else p ∷ rest

-- The role is one of the tenant's, and both the user and the permission are joined to it.
abbrev grants : String → World → ℕ → Permission → Bool
grants tid w uid p =
    any_where
      (λ (ur : ℕ × ℕ).
        ur.0 == uid
        && any_where (λ (r : Role). r.id == ur.1 && str_eq r.tenant_id tid) w.roles
        && any_where (λ (rp : ℕ × ℕ). rp.0 == ur.1 && rp.1 == p.id) w.role_permissions)
      w.user_roles

-- `GetUserPermissions`
unfoldable pub permissions_of : String → ℕ → World → List String
unfolding any_where filter_where distinct
permissions_of tid uid w =
    if owned tid w uid
    then distinct (map (λ p. p.name) (filter_where (grants tid w uid) w.permissions))
    else []

unfoldable pub get_user_permissions : String → ℕ → Action (List String)
unfolding query permissions_of
get_user_permissions tid uid = do query; gets (permissions_of tid uid)
