-- ===== src/Identity/Contained.antt =====
-- What `Check` of internal/identity/state.go vouches for, and what ends that.
use finn_api_go.Prelude.{
  ℕ, ◌≡◌, ◌≢◌, ◌<◌, refl, ap, sym, ◌∙◌, eq_refl, true, false, some, arith, Option-cases, inl, inr,
}
use finn_api_go.Models.{User, Session, Tenant}
use finn_api_go.Store.{InMemoryStore, revoked}
use finn_api_go.Database.{World, ok, query, transaction}
use finn_api_go.Database.Table.{any_where, first_where, update_where}
use finn_api_go.Database.Rows.{first_where-updated}
use finn_api_go.Repositories.Scope.{is_user}
use finn_api_go.Repositories.Rbac.{get_user_permissions, permissions_of}
use finn_api_go.Jwt.{Claims}
use finn_api_go.Identity.{
  same_grants, signed_grants, is_tenant, is_session_of, is_revocation_of, store_revoked, check_user,
  check_tenant, check_session, check_revocations, check_grants, check, revoke_access, suspended,
  suspend,
}

-- An action that may change the faults and the store alone.
abbrev pub Reads : World → World → Type 0
Reads w w' = w' ≡ record w { faults = w'.faults; store = w'.store }

module _ (now : ℕ) (c : Claims) where
  abbrev pub UserStands : World → Type 0
  UserStands w =
      (u : User) × (first_where (is_user c.tenant_id c.user_id) w.users ≡ some u)
      × (u.is_active ≡ true)
      × (u.admin_suspended ≡ false)
      × (u.pwd_version ≡ c.pwd_ver)
      × (u.auth_epoch ≡ c.auth_epoch)

  abbrev pub TenantStands : World → Type 0
  TenantStands w =
      (t : Tenant) × (first_where (is_tenant c.tenant_id) w.tenants ≡ some t) × (t.is_active ≡ true)

  abbrev pub SessionStands : World → Type 0
  SessionStands w =
      (s : Session) × (first_where (is_session_of c) w.sessions ≡ some s)
      × (s.revoked ≡ false)
      × (now < s.expires_at)

  check_user-ok :
      (w : World) → (check_user c w).0 ≡ ok tt → UserStands w × Reads w (check_user c w).1
  unfolding check_user query
  check_user-ok w h = elim (Option-cases (first_where (is_user c.tenant_id c.user_id) w.users)) [
    | inl n ↦ ground (arith, n)
    | inr (u, e) ↦ (
      (u, e, ground (arith, e), ground (arith, e), ground (arith, e), ground (arith, e)),
      ground (arith, e),
    )
  ]

  check_tenant-ok :
      (w : World) → (check_tenant c w).0 ≡ ok tt → TenantStands w × Reads w (check_tenant c w).1
  unfolding check_tenant query
  check_tenant-ok w h = elim (Option-cases (first_where (is_tenant c.tenant_id) w.tenants)) [
    | inl n ↦ ground (arith, n)
    | inr (t, e) ↦ ((t, e, ground (arith, e)), ground (arith, e))
  ]

  check_session-ok :
      (w : World)
      → (check_session now c w).0 ≡ ok tt
      → SessionStands w × Reads w (check_session now c w).1
  unfolding check_session query
  check_session-ok w h = elim (Option-cases (first_where (is_session_of c) w.sessions)) [
    | inl n ↦ ground (arith, n)
    | inr (s, e) ↦ ((s, e, ground (arith, e), ground (arith, e)), ground (arith, e))
  ]

  check_revocations-ok :
      (w : World)
      → (check_revocations c w).0 ≡ ok tt
      → (any_where (is_revocation_of c) w.access_revocations ≡ false)
        × Reads w (check_revocations c w).1
  unfolding check_revocations query
  check_revocations-ok w h = (ground arith, ground arith)

  check_grants-ok :
      (w : World)
      → (check_grants c w).0 ≡ ok tt
      → same_grants (permissions_of c.tenant_id c.user_id w) (signed_grants c) ≡ true
  unfolding check_grants get_user_permissions query
  check_grants-ok w h = ground arith

  store_revoked-ok :
      (w : World)
      → (store_revoked now c w).0 ≡ ok false
      → (s : InMemoryStore) × (w.store ≡ some s)
        × ((revoked now c.jti c.sid s).0 ≡ false)
        × Reads w (store_revoked now c w).1
  unfolding store_revoked query
  store_revoked-ok w h = elim (Option-cases w.store) [
    | inl n ↦ ground (arith, n)
    | inr (s, e) ↦ (s, e, ground (arith, e), ground (arith, e))
  ]

  UserStands-Reads : (w w' : World) → Reads w w' → UserStands w' → UserStands w
  UserStands-Reads w w' r (u, e, a, b, d, f) = (u, ground (arith, r, e), a, b, d, f)

  TenantStands-Reads : (w w' : World) → Reads w w' → TenantStands w' → TenantStands w
  TenantStands-Reads w w' r (t, e, a) = (t, ground (arith, r, e), a)

  SessionStands-Reads : (w w' : World) → Reads w w' → SessionStands w' → SessionStands w
  SessionStands-Reads w w' r (s, e, a, b) = (s, ground (arith, r, e), a, b)

  Reads-trans : (w w₁ w₂ : World) → Reads w w₁ → Reads w₁ w₂ → Reads w w₂
  Reads-trans w w₁ w₂ a b = ground (arith, a, b)

  -- What the token says is so in the database, and nothing denies it.
  abbrev pub Vouched : World → Type 0
  Vouched w =
      UserStands w
      × TenantStands w
      × SessionStands w
      × (any_where (is_revocation_of c) w.access_revocations ≡ false)
      × (same_grants (permissions_of c.tenant_id c.user_id w) (signed_grants c) ≡ true)
      × (s : InMemoryStore) × (w.store ≡ some s)
      × ((revoked now c.jti c.sid s).0 ≡ false)

  permissions_of-Reads :
      (w w' : World)
      → Reads w w'
      → permissions_of c.tenant_id c.user_id w' ≡ permissions_of c.tenant_id c.user_id w
  unfolding permissions_of
  permissions_of-Reads w w' r = rw r refl

  -- If `Check` accepts a token, then its user is one of the tenant's, active, not suspended and at
  -- the token's password version and epoch; the tenant is active; the session is the user's, not
  -- revoked and not over; the token has no durable revocation; the user's permissions are, as a
  -- set, those that it carries; and the store denies neither the token nor the session.
  pub check_vouches : (w : World) → (check now c w).0 ≡ ok tt → Vouched w
  unfolding check
  check_vouches w h =
      let free : (store_revoked now c w).0 ≡ ok false = ground arith in
      let w₁ = (store_revoked now c w).1 in
      let (s, se, clear, r₁) = store_revoked-ok w free in
      let okᵤ : (check_user c w₁).0 ≡ ok tt = ground (arith, free) in
      let w₂ = (check_user c w₁).1 in
      let (stands, r₂) = check_user-ok w₁ okᵤ in
      let okₜ : (check_tenant c w₂).0 ≡ ok tt = ground (arith, free, okᵤ) in
      let w₃ = (check_tenant c w₂).1 in
      let (tenant, r₃) = check_tenant-ok w₂ okₜ in
      let okₛ : (check_session now c w₃).0 ≡ ok tt = ground (arith, free, okᵤ, okₜ) in
      let w₄ = (check_session now c w₃).1 in
      let (session, r₄) = check_session-ok w₃ okₛ in
      let okᵣ : (check_revocations c w₄).0 ≡ ok tt = ground (arith, free, okᵤ, okₜ, okₛ) in
      let w₅ = (check_revocations c w₄).1 in
      let (clean, r₅) = check_revocations-ok w₄ okᵣ in
      let ok₅ : (check_grants c w₅).0 ≡ ok tt = ground (arith, free, okᵤ, okₜ, okₛ, okᵣ) in
      let grants = check_grants-ok w₅ ok₅ in
      let r₁₂ = Reads-trans w w₁ w₂ r₁ r₂ in
      let r₁₃ = Reads-trans w w₂ w₃ r₁₂ r₃ in
      let r₁₄ = Reads-trans w w₃ w₄ r₁₃ r₄ in
      let r₁₅ = Reads-trans w w₄ w₅ r₁₄ r₅ in
      (
        UserStands-Reads w w₁ r₁ stands,
        TenantStands-Reads w w₂ r₁₂ tenant,
        SessionStands-Reads w w₃ r₁₃ session,
        ground (arith, r₁₄, clean),
        ground (arith, permissions_of-Reads w w₅ r₁₅, grants),
        s,
        se,
        clear,
      )

  -- Once `Suspend` has succeeded for a user, `Check` accepts no token of that user in that tenant,
  -- whatever else the token says and the database and the store hold, as long as the users are as
  -- it left them.
  pub suspend_refuses :
      (w v : World)
      → (suspend c.tenant_id c.user_id w).0 ≡ ok tt
      → v.users ≡ (suspend c.tenant_id c.user_id w).1.users
      → (check now c v).0 ≢ ok tt
  unfolding suspend transaction query
  suspend_refuses w v h users entered =
      let (u, e, a, b, d, f) = (check_vouches v entered).0 in
      let rows : v.users ≡ update_where (is_user c.tenant_id c.user_id) suspended w.users =
        users ∙ ground arith in
      let q = is_user c.tenant_id c.user_id in
      let bad =
        first_where-updated q (λ u. u.admin_suspended) suspended w.users u (λ t. refl) (λ t. refl)
          (ap (first_where q) (sym rows) ∙ e) in
      ground (arith, bad, b)

  -- Once `RevokeAccess` has succeeded for the tenant and the jti of a token, `Check` never accepts
  -- the token, as long as the revocations are as it left them.
  pub revoke_access_refuses :
      (exp : ℕ) (w v : World)
      → (revoke_access c.tenant_id c.jti exp w).0 ≡ ok tt
      → v.access_revocations ≡ (revoke_access c.tenant_id c.jti exp w).1.access_revocations
      → (check now c v).0 ≢ ok tt
  unfolding revoke_access query any_where
  revoke_access_refuses exp w v h rows entered =
      let clean = (check_vouches v entered).3 in
      let hit : any_where (is_revocation_of c)
            (revoke_access c.tenant_id c.jti exp w).1.access_revocations
          ≡ true =
        ground (arith, eq_refl c.tenant_id, eq_refl c.jti) in
      ground (arith, ap (any_where (is_revocation_of c)) rows, hit, clean)
