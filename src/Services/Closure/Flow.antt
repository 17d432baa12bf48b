-- ===== src/Services/Closure/Flow.antt =====
-- `EraseAccount` of internal/services/auth_service.go as one change of the tables.
use finn_api_go.Prelude.{
  ℕ, ◌+◌, ◌==◌, ◌≡◌, refl, ap, ◌∙◌, String, true, false, not, ◌&&◌, Option, none, some, [],
  Option-cases, inl, inr, arith,
}
use finn_api_go.Models.{User}
use finn_api_go.Database.{World, Action, Result, ok, ⊤, ◌>>=◌, ◌>>◌, query, when, security_alert}
use finn_api_go.Database.Frame.{Frame, >>=-ok}
use finn_api_go.Database.Rows.{first_where-matches, first_where-any_where}
use finn_api_go.Database.Table.{first_where, any_where, update_where, delete_where}
use finn_api_go.Repositories.Scope.{owned, is_user, scope_tenant, update_user}
use finn_api_go.Repositories.Users
use finn_api_go.Repositories.Totp
use finn_api_go.Repositories.Totp.{device_of, disabled, code_of}
use finn_api_go.Repositories.Sessions
use finn_api_go.Repositories.RefreshTokens
use finn_api_go.Services.{Env, AuthService}
use finn_api_go.Services.Support.{audit, send, draw, store_call, store_do}
use finn_api_go.Services.Tokens.{bump_pwd_version, denylist_access_token}
use finn_api_go.Services.Passwords.{verify_sudo_or_password}
use finn_api_go.Services.Closure.{
  erase_account, purge, end_sign_ins, proven_user, erased_user, call_if, anonymize_user,
  erasure_marker,
}
use finn_api_go.Services.Closure.Effects.{
  Own, own, any_where-update_where, Calm, disable-own, replace-own, anonymize-own, tokens-own,
  sessions-own, bumped, Calm-own, bump-own,
}

module _ (env : Env) (svc : AuthService) (tid : String) (now uid : ℕ) where
  -- Sessions and the second factor are wired, and the repositories of passkeys and of OAuth
  -- identities leave these tables alone.
  abbrev pub Wired : Type 0
  Wired =
      (svc.totp_wired ≡ true)
      × (svc.sessions_wired ≡ true)
      × Frame own (call_if svc.passkeys tid uid)
      × Frame own (call_if svc.oauth_idents tid uid)

  pub call_if-ok :
      (f : Option (String → ℕ → Action ⊤)) (w : World) → (call_if f tid uid w).0 ≡ ok tt
  call_if-ok none w = refl
  call_if-ok (some f) w = refl

  abbrev pub dropped_codes : Own → Own
  dropped_codes o = (
    o.0,
    o.1,
    o.2,
    o.3,
    delete_where (λ c. any_where (is_user tid c.user_id) o.0 && c.user_id == uid) o.4,
    [],
  )

  abbrev pub revoked_tokens : Own → Own
  revoked_tokens o = (
    o.0,
    o.1,
    update_where (λ t. any_where (is_user tid t.user_id) o.0 && t.user_id == uid && not t.revoked)
        (RefreshTokens.revoked_row tid) o.2,
    o.3,
    o.4,
    [],
  )

  abbrev pub revoked_sessions : Own → Own
  revoked_sessions o =
      (o.0, update_where (Sessions.is_live_of tid uid) (Sessions.revoke tid) o.1, o.2, o.3, o.4, [])

  abbrev pub bumped_users : Own → Own
  bumped_users o = (update_where (is_user tid uid) (bumped tid uid) o.0, o.1, o.2, o.3, o.4, [])

  abbrev pub disabled_devices : Own → Own
  disabled_devices o = (
    o.0,
    o.1,
    o.2,
    update_where (λ d. any_where (is_user tid d.user_id) o.0 && d.user_id == uid) (disabled tid)
        o.3,
    o.4,
    [],
  )

  pub purge-own :
      (w : World)
      → Wired
      → Calm tid uid w
      → own (purge env svc tid now uid w).1 ≡ dropped_codes (disabled_devices (own w))
  unfolding purge
  purge-own w wired calm =
      let a = (Totp.disable tid uid w).1 in
      let b = (Totp.replace_recovery_codes tid uid [] a).1 in
      let c = (call_if svc.passkeys tid uid b).1 in
      let d = (call_if svc.oauth_idents tid uid c).1 in
      let ea = disable-own tid uid w calm in
      let calm_a = Calm-own tid uid a _ ea refl calm.1 in
      let eb = replace-own tid uid a calm_a in
      let calm_b = Calm-own tid uid b _ eb refl calm_a.1 in
      let eb' = eb ∙ ap dropped_codes ea in
      let ed : own d ≡ own b = wired.3 c ∙ wired.2 b in
      let calm_d = Calm-own tid uid d (own b) ed calm_b.0 calm_b.1 in
      let whole : (purge env svc tid now uid w).1 ≡ (anonymize_user uid d).1 =
        ground (arith, wired, call_if-ok svc.passkeys b, call_if-ok svc.oauth_idents c) in
      ap own whole ∙ anonymize-own tid uid d calm_d ∙ ed ∙ eb'

  pub denylist-own : (jti : String) → Frame own (denylist_access_token svc tid now jti)
  unfolding denylist_access_token store_do store_call
  denylist-own jti w = ground arith

  pub end_sign_ins-own :
      (jti : String) (w : World)
      → Wired
      → Calm tid uid w
      → own (end_sign_ins env svc tid now uid jti w).1
        ≡ bumped_users (revoked_sessions (revoked_tokens (own w)))
  unfolding end_sign_ins
  end_sign_ins-own jti w wired calm =
      let a = (RefreshTokens.revoke_all_for_user tid uid w).1 in
      let b = (Sessions.revoke_all_for_user tid uid a).1 in
      let c = (bump_pwd_version svc tid now uid b).1 in
      let ea = tokens-own tid uid w calm in
      let calm_a = Calm-own tid uid a _ ea refl calm.1 in
      let eb = sessions-own tid uid a calm_a in
      let calm_b = Calm-own tid uid b _ eb refl calm_a.1 in
      let ec = bump-own tid uid svc now b calm_b in
      let whole : (end_sign_ins env svc tid now uid jti w).1
          ≡ (denylist_access_token svc tid now jti c).1 =
        ground (arith, wired) in
      ap own whole ∙ denylist-own jti c ∙ ec ∙ ap bumped_users (eb ∙ ap revoked_sessions ea)

  pub proven-ok :
      (sudo_token password : String) (user : User) (w : World)
      → w.faults ≡ []
      → (proven_user env svc tid now uid sudo_token password w).0 ≡ ok user
      → let v = (proven_user env svc tid now uid sudo_token password w).1 in
        (first_where (is_user tid uid) w.users ≡ some user) × (own v ≡ own w) × (v.draws ≡ w.draws)
  unfolding proven_user Users.find_by_id query verify_sudo_or_password
  proven-ok sudo_token password user w sound h =
      elim (Option-cases (first_where (is_user tid uid) w.users)) [
        | inl n ↦ absurd (ground (arith, n, sound, h))
        | inr (u, e) ↦
            let same : u ≡ user = ground (arith, e, sound, h) in
            (e ∙ ap some same, ground (arith, e, sound), ground (arith, e, sound))
      ]

  -- The row as `Erase` writes it, and the rest of the flow.
  abbrev pub erasing : User → String → User → User
  erasing user suffix u =
      let e = erased_user env svc tid now user suffix in
      record u {
        email = e.email;
        username = e.username;
        password = "";
        full_name = "";
        is_active = false;
        is_email_verified = false;
      }

  pub erase-own :
      (user : User) (suffix : String) (w : World)
      → Calm tid uid w
      → user.id ≡ uid
      → (Users.erase tid (erased_user env svc tid now user suffix) w).0 ≡ ok tt
      → own (Users.erase tid (erased_user env svc tid now user suffix) w).1 ≡ (
        update_where (is_user tid uid) (erasing user suffix) w.users,
        w.sessions,
        w.refresh_tokens,
        w.totp_devices,
        w.recovery_codes,
        [],
      )
  unfolding Users.erase scope_tenant update_user query
  erase-own user suffix w calm mine h =
      let there : owned tid w user.id ≡ true = ap (owned tid w) mine ∙ calm.1 in
      let done : own (Users.erase tid (erased_user env svc tid now user suffix) w).1 ≡ (
        update_where (is_user tid user.id) (erasing user suffix) w.users,
        w.sessions,
        w.refresh_tokens,
        w.totp_devices,
        w.recovery_codes,
        [],
      ) =
        ground (arith, calm, there, h) in
      done
      ∙ ap
          (λ i. (
            update_where (is_user tid i) (erasing user suffix) w.users,
            w.sessions,
            w.refresh_tokens,
            w.totp_devices,
            w.recovery_codes,
            [],
          ))
          mine

  pub purge-done : (w : World) → Wired → (purge env svc tid now uid w).0 ≡ ok tt
  unfolding purge
  purge-done w wired =
      let b = (Totp.replace_recovery_codes tid uid [] (Totp.disable tid uid w).1).1 in
      let c = (call_if svc.passkeys tid uid b).1 in
      ground (arith, wired, call_if-ok svc.passkeys b, call_if-ok svc.oauth_idents c)

  pub end_sign_ins-done :
      (jti : String) (w : World) → (end_sign_ins env svc tid now uid jti w).0 ≡ ok tt
  unfolding end_sign_ins denylist_access_token store_do store_call
  end_sign_ins-done jti w = ground arith

  abbrev pub Tail : User → String → String → Action ⊤
  Tail user jti ip = do
    purge env svc tid now uid
    end_sign_ins env svc tid now uid jti
    audit (some user.id) erasure_marker "account_erased" ip true
        "account erased via GDPR right-to-erasure"
    when svc.notify_wired (send (security_alert user.email "account_erased"))

  Tail-own :
      (user : User) (jti ip : String) (w : World)
      → Wired
      → own (Tail user jti ip w).1
        ≡ own (end_sign_ins env svc tid now uid jti (purge env svc tid now uid w).1).1
  unfolding audit send
  Tail-own user jti ip w wired =
      ground (arith, purge-done w wired, end_sign_ins-done jti (purge env svc tid now uid w).1)

  abbrev pub erased_users : User → String → Own → Own
  erased_users user suffix o =
      (update_where (is_user tid uid) (erasing user suffix) o.0, o.1, o.2, o.3, o.4, [])

  -- All the writes, one after the other.
  abbrev pub left_of : User → String → Own → Own
  left_of user suffix o = bumped_users (
      revoked_sessions
        (revoked_tokens (dropped_codes (disabled_devices (erased_users user suffix o)))))

  pub erase_account-own :
      (sudo_token password jti ip : String) (w : World)
      → Wired
      → w.faults ≡ []
      → (erase_account env svc tid now uid sudo_token password jti ip w).0 ≡ ok tt
      → (user : User) × (own (erase_account env svc tid now uid sudo_token password jti ip w).1
          ≡ left_of user (env.new_uuid w.draws) (own w))
  unfolding erase_account draw
  erase_account-own sudo_token password jti ip w wired sound h =
      let proven = proven_user env svc tid now uid sudo_token password in
      let gone = λ (user : User) (n : ℕ).
        Users.erase tid (erased_user env svc tid now user (env.new_uuid n)) in
      let (user, e, h₁, t₁) =
        >>=-ok (λ w. w) proven (λ user. draw >>= λ n. gone user n >> Tail user jti ip) w tt h in
      let p = proven-ok sudo_token password user w sound e in
      let w₁ : World = record (proven w).1 { draws = (proven w).1.draws + 1 } in
      let suffix = env.new_uuid (proven w).1.draws in
      let (done, e₂, h₂, t₂) =
        >>=-ok (λ w. w) (gone user (proven w).1.draws) (λ u. Tail user jti ip) w₁ tt h₁ in
      let w₂ = (gone user (proven w).1.draws w₁).1 in
      let there =
        first_where-any_where (is_user tid uid) (is_user tid uid) w.users user p.0
          (first_where-matches (is_user tid uid) w.users user p.0) in
      let mine : user.id ≡ uid =
        ground (arith, first_where-matches (is_user tid uid) w.users user p.0) in
      let calm₁ = Calm-own tid uid w₁ (own w) p.1 sound there in
      let o₂ = erase-own user suffix w₁ calm₁ mine e₂ in
      let o₂' = o₂ ∙ ap (erased_users user suffix) p.1 in
      let calm₂ = Calm-own tid uid w₂ (erased_users user suffix (own w)) o₂' refl (
        any_where-update_where (is_user tid uid) (is_user tid uid) (erasing user suffix) w.users
          (λ u. refl)
        ∙ there) in
      let w₃ = (purge env svc tid now uid w₂).1 in
      let o₃ = purge-own w₂ wired calm₂ in
      let calm₃ = Calm-own tid uid w₃ _ o₃ refl calm₂.1 in
      let o₄ = end_sign_ins-own jti w₃ wired calm₃ in
      (
        user,
        ap (λ (r : Result ⊤ × World). own r.1) (t₁ ∙ t₂)
            ∙ Tail-own user jti ip w₂ wired
            ∙ o₄
            ∙ ap (λ o. bumped_users (revoked_sessions (revoked_tokens o))) o₃
            ∙ ap
                (λ o.
                  bumped_users
                    (revoked_sessions (revoked_tokens (dropped_codes (disabled_devices o)))))
                o₂'
            ∙ ap (λ n. left_of user (env.new_uuid n) (own w)) p.2,
      )

  pub user_there :
      (sudo_token password jti ip : String) (w : World)
      → w.faults ≡ []
      → (erase_account env svc tid now uid sudo_token password jti ip w).0 ≡ ok tt
      → owned tid w uid ≡ true
  unfolding erase_account
  user_there sudo_token password jti ip w sound h =
      let proven = proven_user env svc tid now uid sudo_token password in
      let gone = λ (user : User) (n : ℕ).
        Users.erase tid (erased_user env svc tid now user (env.new_uuid n)) in
      let (user, e, h₁, t₁) =
        >>=-ok (λ w. w) proven (λ user. draw >>= λ n. gone user n >> Tail user jti ip) w tt h in
      let p = proven-ok sudo_token password user w sound e in
      first_where-any_where (is_user tid uid) (is_user tid uid) w.users user p.0
        (first_where-matches (is_user tid uid) w.users user p.0)
