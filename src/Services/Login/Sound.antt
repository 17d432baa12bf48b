-- ===== src/Services/Login/Sound.antt =====
-- `Login` of internal/services/auth_service.go when it lets somebody in: what it had checked, and
-- that a second factor is never skipped.
use finn_api_go.Prelude.{
  ℕ, ◌==◌, ◌≡◌, refl, sym, ◌∙◌, String, str_eq, true, false, ◌&&◌, Option, none, some, List, [],
  ◌∷◌, arith, Option-cases, Bool-cases, inl, inr,
}
use finn_api_go.Store.{InMemoryStore}
use finn_api_go.Store
use finn_api_go.Models.{User, TotpDevice}
use finn_api_go.Database.{World, ok, err, ◌>>◌, pure, query, tail_faults, invalid_credentials}
use finn_api_go.Database.Table.{any_where, first_where, update_where}
use finn_api_go.Repositories.Scope.{is_user, update_user}
use finn_api_go.Repositories.Users
use finn_api_go.Services.{
  Env, AuthService, LoginResult, signed_in, mfa_required, TokenPair, UserProfile, from_user,
}
use finn_api_go.Services.Issue.{issue_token_pair}
use finn_api_go.Database.Frame.{>>=-ok}
use finn_api_go.Services.Support.{
  audit, count_metric, draw, store_do, store_call, store_counter_value,
}
use finn_api_go.Services.Login.{
  normal_email, is_locked, find_device, enabled, throttle_account, require_captcha, issue_signed_in,
  mfa_token, issue_mfa_pending, check_mfa_or_issue_tokens, password_matches, login_user,
  unknown_user, login, record_login_fail_ip, record_login_fail_account, count_success, account_key,
}

module _ (env : Env) (svc : AuthService) (tid : String) (now : ℕ) where
  -- The tables that the checks read are as before.
  abbrev Same : World → World → Type 0
  Same w w' =
      (w'.users ≡ w.users)
      × (w'.totp_devices ≡ w.totp_devices)
      × (w'.refresh_tokens ≡ w.refresh_tokens)

  throttle_account-Same :
      (email : String) (w : World) → Same w (throttle_account env svc tid now email w).1
  unfolding throttle_account store_counter_value store_call
  throttle_account-Same email w = (ground arith, ground arith, ground arith)

  require_captcha-Same :
      (captcha ip : String) (w : World) → Same w (require_captcha env svc tid now captcha ip w).1
  unfolding require_captcha store_counter_value store_call
  require_captcha-Same captcha ip w = (ground arith, ground arith, ground arith)

  -- The user's second factor.
  abbrev pub device_of : ℕ → List User → List TotpDevice → Option TotpDevice
  device_of uid us ds =
      first_where (λ d. any_where (is_user tid d.user_id) us && d.user_id == uid) ds

  -- What the answer says of the second factor, and of the tokens.
  abbrev pub Factor : User → World → LoginResult → World → Type 0
  Factor u w (signed_in pair profile) w' =
      svc.totp_wired ≡ true → enabled (device_of u.id w.users w.totp_devices) ≡ false
  Factor u w (mfa_required token) w' =
      (enabled (device_of u.id w.users w.totp_devices) ≡ true)
      × (w'.refresh_tokens ≡ w.refresh_tokens)

  issue_signed_in-ok :
      (u : User) (ip ua detail : String) (r : LoginResult) (w : World)
      → (issue_signed_in env svc tid now u ip ua detail w).0 ≡ ok r
      → (pair : TokenPair) × (p : UserProfile) × (r ≡ signed_in pair p)
  unfolding issue_signed_in audit
  issue_signed_in-ok u ip ua detail r w h =
      let (pair, e, k, same) =
        >>=-ok (λ w. w) (issue_token_pair env svc tid now u ip ua "")
          (λ pair.
            audit (some u.id) u.email "login" ip true detail >> pure (signed_in pair (from_user u)))
          w r h in
      (pair, from_user u, ground (arith, e, h))

  mfa_token-frame :
      (u : User) (w : World) → (mfa_token env svc tid now u w).1.refresh_tokens ≡ w.refresh_tokens
  unfolding mfa_token draw
  mfa_token-frame u w = ground arith

  issue_mfa_pending-ok :
      (u : User) (r : LoginResult) (w : World)
      → (issue_mfa_pending env svc tid now u w).0 ≡ ok r
      → (token : String) × (r ≡ mfa_required token)
        × ((issue_mfa_pending env svc tid now u w).1.refresh_tokens ≡ w.refresh_tokens)
  unfolding issue_mfa_pending audit
  issue_mfa_pending-ok u r w h =
      let (token, e, k, same) =
        >>=-ok (λ w. w) (mfa_token env svc tid now u)
          (λ token. audit (some u.id) "" "mfa_pending" "" true "" >> pure (mfa_required token)) w r
          h in
      (token, ground (arith, e, h), ground (arith, e, h, mfa_token-frame u w))

  -- The checks of the account, the last before the tokens.
  abbrev pub Admitted : User → World → LoginResult → World → Type 0
  Admitted u w r w' = (u.is_active ≡ true) × (u.admin_suspended ≡ false) × Factor u w r w'

  check_mfa-ok :
      (u : User) (ip ua detail : String) (r : LoginResult) (w : World)
      → (check_mfa_or_issue_tokens env svc tid now u ip ua detail w).0 ≡ ok r
      → Admitted u w r (check_mfa_or_issue_tokens env svc tid now u ip ua detail w).1
  unfolding check_mfa_or_issue_tokens count_metric find_device query
  check_mfa-ok u ip ua detail r w h =
      let w₁ : World = (count_metric count_success w).1 in
      let w₂ : World = record w₁ { faults = tail_faults w.faults } in
      let may : (u.is_active ≡ true) × (u.admin_suspended ≡ false) = (ground arith, ground arith) in
      elim (Bool-cases svc.totp_wired) [
        | inr unwired ↦
            let issued : (issue_signed_in env svc tid now u ip ua detail w₁).0 ≡ ok r =
              ground (arith, unwired) in
            let (pair, p, e) = issue_signed_in-ok u ip ua detail r w₁ issued in
            (may.0, may.1, rw e (λ wired. ground (arith, wired, unwired)))
        | inl wired ↦ elim (Bool-cases (enabled (device_of u.id w.users w.totp_devices))) [
          | inr off ↦
              let issued : (issue_signed_in env svc tid now u ip ua detail w₂).0 ≡ ok r =
                ground (arith, wired, off) in
              let (pair, p, e) = issue_signed_in-ok u ip ua detail r w₂ issued in
              (may.0, may.1, rw e (λ wired. off))
          | inl on ↦
              let asked : (issue_mfa_pending env svc tid now u w₂).0 ≡ ok r =
                ground (arith, wired, on) in
              let (token, e, kept) = issue_mfa_pending-ok u r w₂ asked in
              let end : (check_mfa_or_issue_tokens env svc tid now u ip ua detail w).1
                  ≡ (issue_mfa_pending env svc tid now u w₂).1 =
                ground (arith, wired, on) in
              (may.0, may.1, rw (e, end) (on, kept))
        ]
      ]

  any_where-update_user :
      (uid id : ℕ) (f : User → User) (us : List User)
      → ((u : User) → is_user tid uid (f u) ≡ is_user tid uid u)
      → any_where (is_user tid uid) (update_where (is_user tid id) f us)
        ≡ any_where (is_user tid uid) us
  unfolding any_where update_where
  any_where-update_user uid id f [] k = refl
  any_where-update_user uid id f (u ∷ us) k =
      ground (arith, k u, any_where-update_user uid id f us k)

  device_of-cong :
      (uid : ℕ) (us us' : List User) (ds : List TotpDevice)
      → ((id : ℕ) → any_where (is_user tid id) us' ≡ any_where (is_user tid id) us)
      → device_of uid us' ds ≡ device_of uid us ds
  unfolding first_where
  device_of-cong uid us us' [] k = refl
  device_of-cong uid us us' (d ∷ ds) k = ground (arith, k d.user_id, device_of-cong uid us us' ds k)

  -- The two writes between the password and the second factor.
  reset_failed_attempts-frame :
      (u : User) (w : World)
      → (Users.reset_failed_attempts tid u w).0 ≡ ok tt
      → let w' = (Users.reset_failed_attempts tid u w).1 in
        ((uid : ℕ) → device_of uid w'.users w'.totp_devices ≡ device_of uid w.users w.totp_devices)
        × (w'.refresh_tokens ≡ w.refresh_tokens)
  unfolding Users.reset_failed_attempts update_user query
  reset_failed_attempts-frame u w h =
      let f : User → User = λ u. record u { failed_login_attempts = 0; locked_until = none } in
      let w' = (Users.reset_failed_attempts tid u w).1 in
      let users : w'.users ≡ update_where (is_user tid u.id) f w.users = ground arith in
      let devices : w'.totp_devices ≡ w.totp_devices = ground arith in
      (
        λ uid.
            rw (users, devices)
              (device_of-cong uid w.users (update_where (is_user tid u.id) f w.users) w.totp_devices
                (λ id. any_where-update_user id u.id f w.users (λ v. refl))),
        ground arith,
      )

  store_do-frame :
      (f : InMemoryStore → InMemoryStore) (w : World)
      → let (r, w') = store_do f w in (r ≡ ok tt) × Same w w'
  unfolding store_do store_call
  store_do-frame f w = (ground arith, (ground arith, ground arith, ground arith))

  Factor-move :
      (u : User) (r : LoginResult) (w w₁ w₂ : World)
      → device_of u.id w₁.users w₁.totp_devices ≡ device_of u.id w.users w.totp_devices
      → w₁.refresh_tokens ≡ w.refresh_tokens
      → Factor u w₁ r w₂
      → Factor u w r w₂
  Factor-move u (signed_in pair p) w w₁ w₂ d t f = λ wired. ground (arith, d, f wired)
  Factor-move u (mfa_required token) w w₁ w₂ d t f = (ground (arith, d, f), f.1 ∙ t)

  -- Everything that stands between a password and a token.
  abbrev pub Passed : User → String → World → LoginResult → World → Type 0
  Passed u password w r w' =
      (svc.cfg.require_email_verified ≡ true → u.is_email_verified ≡ true)
      × (u.is_active ≡ true)
      × (u.admin_suspended ≡ false)
      × (is_locked now u ≡ false)
      × (password_matches env svc tid now u password ≡ true)
      × Factor u w r w'

  login_user-ok :
      (u : User) (email password ip ua : String) (r : LoginResult) (w : World)
      → (login_user env svc tid now u email password ip ua w).0 ≡ ok r
      → Passed u password w r (login_user env svc tid now u email password ip ua w).1
  unfolding login_user count_metric audit
  login_user-ok u email password ip ua r w h =
      let reset : (Users.reset_failed_attempts tid u w).0 ≡ ok tt = ground arith in
      let w₁ = (Users.reset_failed_attempts tid u w).1 in
      let w₂ = (store_do (Store.delete now (account_key email)) w₁).1 in
      let s = store_do-frame (Store.delete now (account_key email)) w₁ in
      let f = reset_failed_attempts-frame u w reset in
      let done : (check_mfa_or_issue_tokens env svc tid now u ip ua "" w₂).0 ≡ ok r =
        ground (arith, reset, s.0) in
      let end : (login_user env svc tid now u email password ip ua w).1
          ≡ (check_mfa_or_issue_tokens env svc tid now u ip ua "" w₂).1 =
        ground (arith, reset, s.0) in
      let admitted = check_mfa-ok u ip ua "" r w₂ done in
      let devices : device_of u.id w₂.users w₂.totp_devices
          ≡ device_of u.id w.users w.totp_devices =
        rw (s.1.0, s.1.1) (f.0 u.id) in
      (
        λ strict. ground arith,
        ground arith,
        ground arith,
        ground arith,
        ground arith,
        rw end (Factor-move u r w w₂ _ devices (s.1.2 ∙ f.1) admitted.2),
      )

  unknown_user-err :
      (email ip : String) (w : World)
      → (unknown_user env svc tid now email ip w).0 ≡ err invalid_credentials
  unfolding unknown_user record_login_fail_ip record_login_fail_account count_metric audit store_do
      store_call
  unknown_user-err email ip w = ground arith

  -- If `Login` succeeds, then the normalized address is that of a user of the tenant who is active,
  -- not suspended and not locked, whose hash the password matches, and whose address is verified if
  -- the policy asks for that; and the answer is a pair of tokens only if the user has no second
  -- factor enabled (where the service looks for one), while with one enabled it is a token for that
  -- step alone, and no refresh token has been stored.
  pub login-Passed :
      (given password captcha ip ua : String) (r : LoginResult) (w : World)
      → (login env svc tid now given password captcha ip ua w).0 ≡ ok r
      → (u : User) × (first_where
            (λ v. str_eq v.email (normal_email given) && str_eq v.tenant_id tid)
            w.users
          ≡ some u)
        × Passed u password w r (login env svc tid now given password captcha ip ua w).1
  unfolding login Users.find_by_email query
  login-Passed given password captcha ip ua r w h =
      let email = normal_email given in
      let w₁ = (throttle_account env svc tid now email w).1 in
      let w₂ = (require_captcha env svc tid now captcha ip w₁).1 in
      let t = throttle_account-Same email w in
      let c = require_captcha-Same captcha ip w₁ in
      let throttled : (throttle_account env svc tid now email w).0 ≡ ok tt = ground arith in
      let human : (require_captcha env svc tid now captcha ip w₁).0 ≡ ok tt =
        ground (arith, throttled) in
      let w₃ : World = record w₂ { faults = tail_faults w₂.faults } in
      elim (Option-cases
        (first_where (λ v. str_eq v.email email && str_eq v.tenant_id tid) w₂.users)) [
          | inl unknown ↦
              let bad = unknown_user-err email ip w₃ in
              ground (arith, throttled, human, unknown, bad)
          | inr (u, e) ↦
              let done : (login_user env svc tid now u email password ip ua w₃).0 ≡ ok r =
                ground (arith, throttled, human, e) in
              let end : (login env svc tid now given password captcha ip ua w).1
                  ≡ (login_user env svc tid now u email password ip ua w₃).1 =
                ground (arith, throttled, human, e) in
              let p = login_user-ok u email password ip ua r w₃ done in
              let devices : device_of u.id w₃.users w₃.totp_devices
                  ≡ device_of u.id w.users w.totp_devices =
                rw (c.0, c.1, t.0, t.1) refl in
              (
                u,
                rw (sym (c.0 ∙ t.0)) e,
                (
                  p.0,
                  p.1,
                  p.2,
                  p.3,
                  p.4,
                  rw end (
                      Factor-move u r w w₃ (login_user env svc tid now u email password ip ua w₃).1
                        devices (c.2 ∙ t.2) p.5),
                ),
              )
        ]
