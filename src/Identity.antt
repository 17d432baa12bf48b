-- ===== src/Identity.antt =====
-- internal/identity/state.go: the authority on whether a v1 access token still stands.
-- A call of the shared store may fail as one of the database may, and takes a fault like one.
pub mod Contained
mod Tests
use Prim.Native.String.{compare}
use Prim.Native.Nat.{Ordering}
use finn_api_go.Prelude.{
  ℕ, ◌+◌, ◌==◌, String, str_eq, is_empty, Bool, true, false, not, ◌&&◌, ◌||◌, Option, none, some,
  List, [], ◌∷◌, ltb, if◌then◌else◌,
}
use finn_api_go.Models.{User, Session, Tenant, AccessRevocation}
use finn_api_go.Store.{InMemoryStore, revoked}
use finn_api_go.Database.{
  World, Action, Result, ok, err, ⊤, ◌>>=◌, ◌>>◌, pure, raise, raise_if, gets, modify, query,
  transaction, inactive, identity_unavailable,
}
use finn_api_go.Database.Table.{any_where, first_where, update_where}
use finn_api_go.Repositories.Scope.{is_user, owned}
use finn_api_go.Repositories.Rbac.{get_user_permissions}
use finn_api_go.Jwt.{Claims}

-- `slices.Sort`: of texts any sort gives the same list.
unfoldable pub insert_sorted : String → List String → List String
insert_sorted p [] = p ∷ []
insert_sorted p (q ∷ qs) =
    let rest = insert_sorted p qs in elim (compare p q) [ Ordering.gt ↦ q ∷ rest | _ ↦ p ∷ q ∷ qs ]

unfoldable pub sort : List String → List String
unfolding insert_sorted
sort [] = []
sort (p ∷ ps) = insert_sorted p (sort ps)

-- `slices.Compact`, and `slices.Equal`.
unfoldable pub compact : List String → List String
compact [] = []
compact (p ∷ []) = p ∷ []
compact (p ∷ q ∷ qs) = let rest = compact (q ∷ qs) in if str_eq p q then rest else p ∷ rest

unfoldable pub equal : List String → List String → Bool
equal [] [] = true
equal (p ∷ ps) (q ∷ qs) = str_eq p q && equal ps qs
equal _ _ = false

unfoldable pub same_grants : List String → List String → Bool
unfolding sort compact equal
same_grants actual signed = equal (compact (sort actual)) (compact (sort signed))

abbrev pub signed_grants : Claims → List String
signed_grants c = elim c.permissions [ none ↦ [] | some ps ↦ ps ]

abbrev pub is_tenant : String → Tenant → Bool
is_tenant tid t = str_eq t.id tid

abbrev pub is_session_of : Claims → Session → Bool
is_session_of c s = str_eq s.id c.sid && str_eq s.tenant_id c.tenant_id && s.user_id == c.user_id

abbrev pub is_revocation_of : Claims → AccessRevocation → Bool
is_revocation_of c r = str_eq r.tenant_id c.tenant_id && str_eq r.jti c.jti

-- `a.Store.Revoked`
unfoldable pub store_revoked : ℕ → Claims → Action Bool
store_revoked now c = do
  query
  kv ← gets (λ w. w.store)
  elim kv [
    | none ↦ raise identity_unavailable
    | some s ↦ do
      modify (λ w. record w { store = some (revoked now c.jti c.sid s).1 })
      pure (revoked now c.jti c.sid s).0
  ]

unfoldable pub check_user : Claims → Action ⊤
check_user c = do
  query
  found ← gets (λ w. first_where (is_user c.tenant_id c.user_id) w.users)
  elim found [
    | none ↦ raise inactive
    | some u ↦
        raise_if
          (not u.is_active
            || u.admin_suspended
            || not (u.pwd_version == c.pwd_ver)
            || not (u.auth_epoch == c.auth_epoch))
          inactive
  ]

unfoldable pub check_tenant : Claims → Action ⊤
check_tenant c = do
  query
  found ← gets (λ w. first_where (is_tenant c.tenant_id) w.tenants)
  elim found [ none ↦ raise inactive | some t ↦ raise_if (not t.is_active) inactive ]

unfoldable pub check_session : ℕ → Claims → Action ⊤
check_session now c = do
  query
  found ← gets (λ w. first_where (is_session_of c) w.sessions)
  elim found [
    | none ↦ raise inactive
    | some s ↦ raise_if (s.revoked || not (ltb now s.expires_at)) inactive
  ]

unfoldable pub check_revocations : Claims → Action ⊤
check_revocations c = do
  query
  hit ← gets (λ w. any_where (is_revocation_of c) w.access_revocations)
  raise_if hit inactive

unfoldable pub check_grants : Claims → Action ⊤
check_grants c = do
  perms ← get_user_permissions c.tenant_id c.user_id
  raise_if (not (same_grants perms (signed_grants c))) inactive

-- `Check`: the store, then one snapshot of the database.
unfoldable pub check : ℕ → Claims → Action ⊤
check now c = do
  raise_if (is_empty c.tenant_id || is_empty c.sid || is_empty c.jti) inactive
  denied ← store_revoked now c
  raise_if denied inactive
  check_user c
  check_tenant c
  check_session now c
  check_revocations c
  check_grants c

-- `RevokeAccess`: a second row of the same tenant and jti is not written.
unfoldable pub revoke_access : String → String → ℕ → Action ⊤
revoke_access tid jti exp = do
  raise_if (is_empty jti) inactive
  query
  modify (λ w. record w {
    access_revocations =
        if any_where (λ r. str_eq r.tenant_id tid && str_eq r.jti jti) w.access_revocations
        then w.access_revocations
        else record { tenant_id = tid; jti = jti; expires_at = exp } ∷ w.access_revocations;
  })

abbrev pub suspended : User → User
suspended u = record u {
  admin_suspended = true;
  auth_epoch = u.auth_epoch + 1;
  pwd_version = u.pwd_version + 1;
}

abbrev pub ended : Session → Session
ended s = record s { revoked = true }

-- `Suspend`: the user and all the sessions, or nothing.
unfoldable pub suspend : String → ℕ → Action ⊤
suspend tid uid = transaction (do
  query
  known ← gets (λ w. owned tid w uid)
  modify (λ w. record w { users = update_where (is_user tid uid) suspended w.users })
  raise_if (not known) inactive
  query
  modify (λ w. record w {
    sessions = update_where (λ s. s.user_id == uid && str_eq s.tenant_id tid) ended w.sessions;
  }))
