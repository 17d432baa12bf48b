-- ===== src/Services/Closure/Erased.antt =====
-- What `EraseAccount` of internal/services/auth_service.go leaves of an account.
use mathlib.Core.Path.{subst}
use finn_api_go.Prelude.{
  ℕ, ◌==◌, ◌≡◌, refl, ap, ◌∙◌, sym, String, str_eq, eq_refl, is_empty, Bool, true, false, not, ◌&&◌,
  [], arith,
}
use finn_api_go.Models.{User, Session, RefreshToken, TotpDevice, RecoveryCode}
use finn_api_go.Database.{World, ok}
use finn_api_go.Database.Rows.{AllRevoked, AllRevoked-update_where}
use finn_api_go.Database.Table.{any_where, update_where}
use finn_api_go.Repositories.Scope.{is_user}
use finn_api_go.Repositories.Totp.{disabled}
use finn_api_go.Repositories.Sessions
use finn_api_go.Repositories.RefreshTokens
use finn_api_go.Services.{Env, AuthService}
use finn_api_go.Services.Closure.{erase_account, erased_email}
use finn_api_go.Services.Closure.Effects.{
  AllRevoked-kept, Own, own, any_where-update_where, any_where-delete_where, bumped,
}
use finn_api_go.Services.Closure.Flow.{Wired, left_of, erasing, erase_account-own, user_there}

module _ (env : Env) (svc : AuthService) (tid : String) (now uid : ℕ) where
  nat_eq : (i j : ℕ) → (i == j) ≡ true → i ≡ j
  nat_eq i j e = ground (arith, e)

  -- What is left of the account in its row.
  abbrev pub is_erased : String → User → Bool
  is_erased suffix u =
      str_eq u.email (erased_email env svc tid now suffix)
      && is_empty u.password
      && is_empty u.full_name
      && not u.is_active
      && not u.is_email_verified

  abbrev pub is_wiped : TotpDevice → Bool
  is_wiped d =
      not d.enabled
      && is_empty d.secret
      && is_empty d.secret_encrypted
      && is_empty d.pending_secret_encrypted

  abbrev pub Gone : String → Own → Type 0
  Gone suffix o =
      AllRevoked (is_user tid uid) (is_erased suffix) o.0
      × AllRevoked (λ (s : Session). str_eq s.tenant_id tid && s.user_id == uid) (λ s. s.revoked)
          o.1
      × AllRevoked (λ (t : RefreshToken). t.user_id == uid) (λ t. t.revoked) o.2
      × AllRevoked (λ (d : TotpDevice). d.user_id == uid) is_wiped o.3
      × (any_where (λ (c : RecoveryCode). c.user_id == uid) o.4 ≡ false)

  gone :
      (user : User) (suffix : String) (o : Own)
      → any_where (is_user tid uid) o.0 ≡ true
      → Gone suffix (left_of env svc tid now uid user suffix o)
  gone user suffix o there =
      let users = update_where (is_user tid uid) (erasing env svc tid now uid user suffix) o.0 in
      let here : any_where (is_user tid uid) users ≡ true =
        any_where-update_where (is_user tid uid) (is_user tid uid)
          (erasing env svc tid now uid user suffix) o.0 (λ u. refl)
        ∙ there in
      let owner : (i : ℕ) → (i == uid) ≡ true → any_where (is_user tid i) users ≡ true =
        λ i e. ap (λ i. any_where (is_user tid i) users) (nat_eq i uid e) ∙ here in
      let written : AllRevoked (is_user tid uid) (is_erased suffix) users =
        AllRevoked-update_where (is_user tid uid) (is_erased suffix) (is_user tid uid)
          (erasing env svc tid now uid user suffix) o.0 (λ u. refl)
          (λ u. ground (arith, eq_refl (erased_email env svc tid now suffix))) (λ u m g. m) in
      (
        AllRevoked-kept (is_user tid uid) (is_erased suffix) (is_user tid uid) (bumped tid uid)
            users (λ u. refl) (λ u. refl) written,
        AllRevoked-update_where (λ (s : Session). str_eq s.tenant_id tid && s.user_id == uid)
            (λ s. s.revoked) (Sessions.is_live_of tid uid) (Sessions.revoke tid) o.1 (λ s. refl)
            (λ s. refl) (λ s m g. ground (arith, m, g)),
        AllRevoked-update_where (λ (t : RefreshToken). t.user_id == uid) (λ t. t.revoked)
            (λ t. any_where (is_user tid t.user_id) users && t.user_id == uid && not t.revoked)
            (RefreshTokens.revoked_row tid) o.2 (λ t. refl) (λ t. refl)
            (λ t m g. ground (arith, m, g, owner t.user_id m)),
        AllRevoked-update_where (λ (d : TotpDevice). d.user_id == uid) is_wiped
            (λ d. any_where (is_user tid d.user_id) users && d.user_id == uid) (disabled tid) o.3
            (λ d. refl) (λ d. refl) (λ d m g. ground (arith, m, owner d.user_id m)),
        any_where-delete_where (λ (c : RecoveryCode). c.user_id == uid)
            (λ c. any_where (is_user tid c.user_id) users && c.user_id == uid) o.4
            (λ c m. ground (arith, m, owner c.user_id m)),
      )

  -- Once `EraseAccount` has answered without an error, the rows of the user have the placeholder
  -- address, no password, no name, and are off; every session and every refresh token of the user is
  -- revoked; the second factor is off and without a secret; and no recovery code of the user is
  -- left. (The database does not fail in the course of it; sessions and the second factor are wired;
  -- the repositories of passkeys and of OAuth identities leave these tables alone.)
  pub erase_account-Gone :
      (sudo_token password jti ip : String) (w : World)
      → Wired env svc tid now uid
      → w.faults ≡ []
      → (erase_account env svc tid now uid sudo_token password jti ip w).0 ≡ ok tt
      → Gone
          (env.new_uuid w.draws)
          (own (erase_account env svc tid now uid sudo_token password jti ip w).1)
  erase_account-Gone sudo_token password jti ip w wired sound h =
      let (user, e) =
        erase_account-own env svc tid now uid sudo_token password jti ip w wired sound h in
      subst (Gone (env.new_uuid w.draws)) (sym e) (
        gone user (env.new_uuid w.draws) (own w)
          (user_there env svc tid now uid sudo_token password jti ip w sound h))
