-- ===== src/Services/Admin/Reach.antt =====
-- What `LockUser` and `ForceLogout` of internal/services/admin_service.go leave of a user's sign-ins.
use mathlib.Core.Path.{subst}
use finn_api_go.Prelude.{
  ℕ, ◌+◌, ◌==◌, ◌≡◌, ◌≢◌, ◌<◌, refl, ap, sym, ◌∙◌, String, str_eq, Bool, true, not, ◌&&◌, ◌<>◌,
  some, List, [], Option-cases, inl, inr, arith,
}
use finn_api_go.Prelude.Int64.{Int64, show_uint}
use finn_api_go.Models.{User, Session, RefreshToken}
use finn_api_go.Store
use finn_api_go.Services.Tokens.{password_version_key}
use finn_api_go.Database.{World, Action, ok, ⊤, ◌>>◌, query}
use finn_api_go.Database.Rows.{
  AllRevoked, AllRevoked-update_where, first_where-update_where, first_where-matches,
  first_where-none,
}
use finn_api_go.Database.Table.{first_where, any_where, update_where}
use finn_api_go.Repositories.Scope.{is_user, owned, require_owner, update_user}
use finn_api_go.Repositories.Users
use finn_api_go.Repositories.Sessions
use finn_api_go.Repositories.RefreshTokens
use finn_api_go.Services.{Env, AuthService, LoginResult}
use finn_api_go.Services.Support.{audit, store_do, store_call}
use finn_api_go.Services.Login.{is_locked, normal_email, login}
use finn_api_go.Services.Login.Sound.{login-Passed}
use finn_api_go.Services.Closure.Effects.{
  Own, own, tokens-own, sessions-own, bumped, Calm, Calm-own,
}
use finn_api_go.Services.Admin.{
  AdminService, admin_action, lock_term, target_user, lock_user, force_logout,
}

module _ (svc : AdminService) (tid : String) (now : ℕ) where
  abbrev pub locked_row : ℕ → User → User
  locked_row until u = record u { locked_until = some until }

  lock_user-users :
      (admin uid : ℕ) (d : Int64) (ip : String) (w : World)
      → (lock_user svc tid now admin uid d ip w).0 ≡ ok tt
      → (lock_user svc tid now admin uid d ip w).1.users
        ≡ update_where (is_user tid uid) (locked_row (now + lock_term d)) w.users
  unfolding lock_user target_user Users.find_by_id Users.set_lock update_user query audit
  lock_user-users admin uid d ip w h = elim (Option-cases (first_where (is_user tid uid) w.users)) [
    | inl n ↦ ground (arith, n, h)
    | inr (u, e) ↦ ground (arith, e, h)
  ]

  locked_row-is_locked :
      (until : ℕ) (u u' : User) (later : ℕ)
      → u' ≡ locked_row until u
      → later < until
      → is_locked later u' ≡ true
  unfolding is_locked
  locked_row-is_locked until u u' later e l = ground (arith, ap (λ v. v.locked_until) e)

  -- After a `LockUser` that has answered without an error, no `Login` for the address of the user
  -- succeeds before the end of the term, ten years if the duration given is not positive, whatever
  -- password and captcha come with it and from whatever address. (The user was found by that
  -- address, and the later login finds the users as the lock has left them.)
  pub lock_user_shuts_out :
      (env : Env) (auth : AuthService) (admin : ℕ) (d : Int64) (ip : String) (u : User)
      (email : String) (w : World)
      → first_where (λ v. str_eq v.email email && str_eq v.tenant_id tid) w.users ≡ some u
      → (lock_user svc tid now admin u.id d ip w).0 ≡ ok tt
      → (later : ℕ) (given password captcha ip' ua : String) (r : LoginResult) (v : World)
      → later < now + lock_term d
      → normal_email given ≡ email
      → v.users ≡ (lock_user svc tid now admin u.id d ip w).1.users
      → (login env auth tid later given password captcha ip' ua v).0 ≢ ok r
  lock_user_shuts_out env auth admin d ip u email w e h later given password captcha ip' ua r v
        early same users entered =
      let q : User → Bool = λ v. str_eq v.email email && str_eq v.tenant_id tid in
      let until = now + lock_term d in
      let m = first_where-matches q w.users u e in
      let mine : is_user tid u.id u ≡ true = ground (arith, m) in
      let found =
        first_where-update_where q (is_user tid u.id) (locked_row until) w.users u (λ v. refl) e
          mine in
      let (u', e', p) = login-Passed env auth tid later given password captcha ip' ua r v entered in
      let again : first_where q v.users ≡ some u' = rw (sym same) e' in
      let there : first_where q v.users ≡ some (locked_row until u) =
        ap (first_where q) (users ∙ lock_user-users admin u.id d ip w h) ∙ found in
      let locked = locked_row-is_locked until u u' later (ground (arith, again, there)) early in
      ground (arith, locked, p.3)

  -- What was signed in is revoked, and the row of the user has the next password version.
  abbrev pub Out : ℕ → Own → Own → Type 0
  Out uid before o =
      AllRevoked (λ (s : Session). str_eq s.tenant_id tid && s.user_id == uid) (λ s. s.revoked) o.1
      × AllRevoked (λ (t : RefreshToken). t.user_id == uid) (λ t. t.revoked) o.2
      × (o.0 ≡ update_where (is_user tid uid) (bumped tid uid) before.0)

  revocations-ok :
      (uid : ℕ) (w : World)
      → Calm tid uid w
      → ((RefreshTokens.revoke_all_for_user tid uid w).0 ≡ ok tt)
        × ((Sessions.revoke_all_for_user tid uid w).0 ≡ ok tt)
  unfolding RefreshTokens.revoke_all_for_user RefreshTokens.revoke_all_for_user_tx
      Sessions.revoke_all_for_user Sessions.revoke_all_for_user_tx require_owner query
  revocations-ok uid w calm = (ground (arith, calm), ground (arith, calm))

  -- `ForceLogout` after the revocations.
  abbrev Rest : ℕ → User → String → Action ⊤
  Rest uid u ip = do
    Users.bump_pwd_version tid uid
    store_do (Store.delete now (password_version_key tid uid))
    admin_action svc tid now uid u ip
        ("forced logout for user " <> show_uint uid <> " (sessions and tokens revoked)")

  Rest-own :
      (uid : ℕ) (u : User) (ip : String) (w : World)
      → Calm tid uid w
      → let (r, w') = Rest uid u ip w in
        (r ≡ ok tt)
        × (own w' ≡ (
          update_where (is_user tid uid) (bumped tid uid) w.users,
          w.sessions,
          w.refresh_tokens,
          w.totp_devices,
          w.recovery_codes,
          [],
        ))
  unfolding Users.bump_pwd_version update_user query store_do store_call audit
  Rest-own uid u ip w calm = (ground (arith, calm), ground (arith, calm))

  force_logout-steps :
      (admin uid : ℕ) (ip : String) (w : World)
      → svc.tokens_wired ≡ true
      → svc.sessions_wired ≡ true
      → (u : User) → first_where (is_user tid uid) w.users ≡ some u
      → w.faults ≡ []
      → let w₀ : World = record w { faults = [] } in
        let a = RefreshTokens.revoke_all_for_user tid uid w₀ in
        let b = Sessions.revoke_all_for_user tid uid a.1 in
        a.0 ≡ ok tt → b.0 ≡ ok tt → force_logout svc tid now admin uid ip w ≡ Rest uid u ip b.1
  unfolding force_logout target_user Users.find_by_id query
  force_logout-steps admin uid ip w tokens sessions u e sound ha hb =
      let m = first_where-matches (is_user tid uid) w.users u e in
      ground (arith, tokens, sessions, e, sound, m, ha, hb)

  abbrev bumped_users : ℕ → Own → Own
  bumped_users uid o = (update_where (is_user tid uid) (bumped tid uid) o.0, o.1, o.2, o.3, o.4, [])

  abbrev revoked_sessions : ℕ → Own → Own
  revoked_sessions uid o =
      (o.0, update_where (Sessions.is_live_of tid uid) (Sessions.revoke tid) o.1, o.2, o.3, o.4, [])

  abbrev open_token_of : ℕ → List User → RefreshToken → Bool
  open_token_of uid users t =
      any_where (is_user tid t.user_id) users && t.user_id == uid && not t.revoked

  out :
      (uid : ℕ) (o : Own)
      → any_where (is_user tid uid) o.0 ≡ true
      → Out uid o (
          bumped_users uid (
            revoked_sessions uid (
              o.0,
              o.1,
              update_where (open_token_of uid o.0) (RefreshTokens.revoked_row tid) o.2,
              o.3,
              o.4,
              [],
            )))
  out uid o there = (
    AllRevoked-update_where (λ (s : Session). str_eq s.tenant_id tid && s.user_id == uid)
        (λ s. s.revoked) (Sessions.is_live_of tid uid) (Sessions.revoke tid) o.1 (λ s. refl)
        (λ s. refl) (λ s m g. ground (arith, m, g)),
    AllRevoked-update_where (λ (t : RefreshToken). t.user_id == uid) (λ t. t.revoked)
        (open_token_of uid o.0) (RefreshTokens.revoked_row tid) o.2 (λ t. refl) (λ t. refl)
        (λ t m g. ground (arith, m, g, owner t.user_id m)),
    refl,
  )
    where
      nat_eq : (i j : ℕ) → (i == j) ≡ true → i ≡ j
      nat_eq i j e = ground (arith, e)

      owner : (i : ℕ) → (i == uid) ≡ true → any_where (is_user tid i) o.0 ≡ true
      owner i e = ap (λ i. any_where (is_user tid i) o.0) (nat_eq i uid e) ∙ there

  -- Where the database is up, sessions and tokens are wired and the user is of the bound tenant,
  -- `ForceLogout` answers without an error and leaves every session and every refresh token of the
  -- user revoked, and the rows of users with the password version of this one raised by one and
  -- nothing else changed.
  pub force_logout-Out :
      (admin uid : ℕ) (ip : String) (w : World)
      → svc.tokens_wired ≡ true
      → svc.sessions_wired ≡ true
      → w.faults ≡ []
      → owned tid w uid ≡ true
      → let (r, w') = force_logout svc tid now admin uid ip w in
        (r ≡ ok tt) × Out uid (own w) (own w')
  force_logout-Out admin uid ip w tokens sessions sound there =
      elim (Option-cases (first_where (is_user tid uid) w.users)) [
        | inl n ↦ absurd (ground (arith, first_where-none (is_user tid uid) w.users n, there))
        | inr (u, e) ↦
            let w₀ : World = record w { faults = [] } in
            let a = RefreshTokens.revoke_all_for_user tid uid w₀ in
            let b = Sessions.revoke_all_for_user tid uid a.1 in
            let ea = tokens-own tid uid w₀ (refl, there) in
            let calm_a = Calm-own tid uid a.1 _ ea refl there in
            let eb = sessions-own tid uid a.1 calm_a in
            let calm_b = Calm-own tid uid b.1 _ eb refl calm_a.1 in
            let run =
              force_logout-steps admin uid ip w tokens sessions u e sound
                (revocations-ok uid w₀ (refl, there)).0 (revocations-ok uid a.1 calm_a).1 in
            let rest = Rest-own uid u ip b.1 calm_b in
            let left = rest.1 ∙ ap (bumped_users uid) (eb ∙ ap (revoked_sessions uid) ea) in
            rw run (rest.0, subst (Out uid (own w)) (sym left) (out uid (own w) there))
      ]
