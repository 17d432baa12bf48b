-- ===== src/Services/Totp/Rotation.antt =====
-- `Enable` of internal/services/totp_service.go on a device that is on.
use finn_api_go.Prelude.{
  ℕ, ◌==◌, ◌≡◌, ◌≢◌, refl, ap, sym, ◌∙◌, String, eq_iff, true, ◌&&◌, Option, some, List, arith,
  Option-cases, Bool-cases, inl, inr,
}
use finn_api_go.Models.{TotpDevice, User}
use finn_api_go.Database.{
  World, Action, Result, ok, ◌>>=◌, ◌>>◌, query, tail_faults, head_fault, pure, when,
}
use finn_api_go.Database.Frame.{>>=-ok}
use finn_api_go.Database.Table.{any_where, first_where}
use finn_api_go.Database.Rows.{first_where-update_where, first_where-matches}
use finn_api_go.Repositories.Scope.{is_user}
use finn_api_go.Repositories.Totp
use finn_api_go.Repositories.Totp.{device_of, same_row, written}
use finn_api_go.Jwt.{Claims, JwtManager, sudo}
use finn_api_go.Jwt.Keys.{verify}
use finn_api_go.Crypto.{encrypt, decrypt, generate_random_bytes}
use finn_api_go.Crypto.RoundTrip.{IsSealing, decrypt-encrypt}
use finn_api_go.Services.{Env}
use finn_api_go.Services.Support.{audit, draw, store_call, store_do}
use finn_api_go.Services.Totp.{
  TotpService, with_rotation_lock, acquire_rotation_lock, release_rotation_lock, verify_sudo_token,
}
use finn_api_go.Services.Totp.Enrol.{stage, generate_key, enable_locked, enable}

module _ (env : Env) (svc : TotpService) (tid : String) (now uid : ℕ) where
  -- A sudo token of the user's own.
  abbrev pub SudoProven : String → Type 0
  SudoProven token =
      (m : JwtManager) × (svc.jwt_mgr ≡ some m)
      × (c : Claims) × (verify env.jwt_lib m now token ≡ some c)
      × (c.token_type ≡ sudo)
      × (c.user_id ≡ uid)

  verify_sudo_token-ok :
      (token : String) (w : World)
      → (verify_sudo_token env svc tid now token uid w).0 ≡ ok tt
      → SudoProven token × (verify_sudo_token env svc tid now token uid w).1 ≡ w
  unfolding verify_sudo_token
  verify_sudo_token-ok token w h = elim (Option-cases svc.jwt_mgr) [
    | inl n ↦ absurd (ground (arith, n, h))
    | inr (m, e) ↦ elim (Option-cases (verify env.jwt_lib m now token)) [
      | inl n ↦ absurd (ground (arith, n, e, h))
      | inr (c, v) ↦ (
        (m, e, c, v, ground (arith, e, v, h, eq_iff c.token_type sudo), ground (arith, e, v, h)),
        ground (arith, e, v, h),
      )
    ]
  ]

  -- What the steps before the write leave alone.
  abbrev Rest : World → World → Type 0
  Rest w v = (v.totp_devices ≡ w.totp_devices) × (v.users ≡ w.users)

  generate_key-Rest : (email : String) (w : World) → Rest w (generate_key env svc tid now email w).1
  unfolding generate_key draw
  generate_key-Rest email w = (ground arith, ground arith)

  encrypt-Rest : (p : String) (w : World) → Rest w (encrypt svc.enc p w).1
  unfolding encrypt generate_random_bytes
  encrypt-Rest p w = (ground arith, ground arith)

  upsert-ok :
      (d d' : TotpDevice) (w : World)
      → first_where (device_of tid w uid) w.totp_devices ≡ some d
      → (d'.id ≡ d.id) × (d'.user_id ≡ d.user_id)
      → d.id ≢ 0
      → (Totp.upsert tid d' w).0 ≡ ok tt
      → first_where (device_of tid w uid) (Totp.upsert tid d' w).1.totp_devices
        ≡ some (record d' { id = d.id; user_id = d.user_id })
  unfolding Totp.upsert query
  upsert-ok d d' w e same keyed h =
      let q = device_of tid w uid in
      let m = first_where-matches q w.totp_devices d e in
      let mine : same_row tid w d' d ≡ true = ground (arith, m, same) in
      let after =
        first_where-update_where q (same_row tid w d') (written tid d') w.totp_devices d (λ t. refl)
          e mine in
      ground (arith, after, same, keyed, h)

  abbrev Write : String → String × String → String → TotpDevice → Action (String × String)
  Write email key sealed d =
      Totp.upsert tid d
      >> when svc.audits_wired (audit (some uid) "" "totp_staged" "" true "")
      >> pure key

  write-ok :
      (email sealed : String) (key out : String × String) (d d' : TotpDevice) (w : World)
      → first_where (device_of tid w uid) w.totp_devices ≡ some d
      → (d'.id ≡ d.id) × (d'.user_id ≡ d.user_id)
      → d.id ≢ 0
      → (Write email key sealed d' w).0 ≡ ok out
      → (key ≡ out)
        × (first_where (device_of tid w uid) (Write email key sealed d' w).1.totp_devices
            ≡ some (record d' { id = d.id; user_id = d.user_id }))
  unfolding audit
  write-ok email sealed key out d d' w e same keyed h =
      let one = upsert-ok d d' w e same keyed (ground (arith, h)) in
      (ground (arith, h), ground (arith, h, one))

  abbrev Stage : String → String → TotpDevice → String × String → String → Action (String × String)
  Stage email token d key sealed =
      stage env svc tid now (some d) uid token sealed >>= Write email key sealed

  abbrev Seal : String → String → TotpDevice → String × String → Action (String × String)
  Seal email token d key = encrypt svc.enc key.0 >>= Stage email token d key

  abbrev device_in : List User → List TotpDevice → Option TotpDevice
  device_in users devices =
      first_where (λ d. any_where (is_user tid d.user_id) users && d.user_id == uid) devices

  stage-ok :
      (d d' : TotpDevice) (token sealed : String) (w : World)
      → d.enabled ≡ true
      → (stage env svc tid now (some d) uid token sealed w).0 ≡ ok d'
      → SudoProven token
        × ((stage env svc tid now (some d) uid token sealed w).1 ≡ w)
        × (d' ≡ record d { pending_secret_encrypted = sealed })
  unfolding stage
  stage-ok d d' token sealed w on h =
      let v = verify_sudo_token-ok token w (ground (arith, h, on)) in
      (v.0, ground (arith, h, on, v.1), ground (arith, h, on))

  enable_locked-found :
      (email token : String) (out : String × String) (d : TotpDevice) (w : World)
      → first_where (device_of tid w uid) w.totp_devices ≡ some d
      → (enable_locked env svc tid now uid email token w).0 ≡ ok out
      → let w₁ : World = record w { faults = tail_faults w.faults } in
        let r = (generate_key env svc tid now email >>= Seal email token d) w₁ in
        (enable_locked env svc tid now uid email token w ≡ r) × (r.0 ≡ ok out)
  unfolding enable_locked Totp.find_by_user_id query
  enable_locked-found email token out d w e h = elim (Bool-cases (head_fault w.faults)) [
    | inl broken ↦ absurd (ground (arith, broken, h))
    | inr sound ↦
        let same : enable_locked env svc tid now uid email token w
            ≡ (generate_key env svc tid now email >>= Seal email token d)
                (record w { faults = tail_faults w.faults }) =
          ground (arith, e, sound) in
        (same, ap (λ (r : Result (String × String) × World). r.0) (sym same) ∙ h)
  ]

  enable_locked-ok :
      (email token : String) (out : String × String) (d : TotpDevice) (w : World)
      → IsSealing svc.enc
      → first_where (device_of tid w uid) w.totp_devices ≡ some d
      → d.enabled ≡ true
      → d.id ≢ 0
      → (enable_locked env svc tid now uid email token w).0 ≡ ok out
      → SudoProven token
        × (sealed : String) × (decrypt svc.enc sealed ≡ some out.0)
        × (first_where
              (device_of tid w uid)
              (enable_locked env svc tid now uid email token w).1.totp_devices
            ≡ some (record d { pending_secret_encrypted = sealed }))
  enable_locked-ok email token out d w laws e on keyed h =
      let w₁ : World = record w { faults = tail_faults w.faults } in
      let found = enable_locked-found email token out d w e h in
      let (key, g, h₁, t₁) =
        >>=-ok (λ w. w) (generate_key env svc tid now email) (Seal email token d) w₁ out found.1 in
      let w₂ = (generate_key env svc tid now email w₁).1 in
      let (sealed, c, h₂, t₂) =
        >>=-ok (λ w. w) (encrypt svc.enc key.0) (Stage email token d key) w₂ out h₁ in
      let w₃ = (encrypt svc.enc key.0 w₂).1 in
      let (d', s, h₃, t₃) =
        >>=-ok (λ w. w) (stage env svc tid now (some d) uid token sealed) (Write email key sealed)
          w₃ out h₂ in
      let st = stage-ok d d' token sealed w₃ on s in
      let rest₂ = generate_key-Rest email w₁ in
      let rest₃ = encrypt-Rest key.0 w₂ in
      let e₃ : first_where (device_of tid w₃ uid) w₃.totp_devices ≡ some d =
        ap (λ us. device_in us w₃.totp_devices) (rest₃.1 ∙ rest₂.1)
        ∙ ap (device_in w.users) (rest₃.0 ∙ rest₂.0)
        ∙ e in
      let wr =
        write-ok email sealed key out d d' w₃ e₃
          (ap (λ (o : TotpDevice). o.id) st.2, ap (λ (o : TotpDevice). o.user_id) st.2) keyed
          (ap (λ v. (Write email key sealed d' v).0) (sym st.1) ∙ h₃) in
      let whole : enable_locked env svc tid now uid email token w ≡ Write email key sealed d' w₃ =
        found.0 ∙ t₁ ∙ t₂ ∙ t₃ ∙ ap (Write email key sealed d') st.1 in
      let staged : record d' { id = d.id; user_id = d.user_id }
          ≡ record d { pending_secret_encrypted = sealed } =
        ap (λ (o : TotpDevice). record o { id = d.id; user_id = d.user_id }) st.2 in
      (
        st.0,
        sealed,
        decrypt-encrypt svc.enc laws key.0 sealed w₂ c
            ∙ ap (λ (o : String × String). some o.0) wr.0,
        ap (λ (r : Result (String × String) × World). device_in w.users r.1.totp_devices) whole
            ∙ ap (λ us. device_in us (Write email key sealed d' w₃).1.totp_devices)
                (sym (rest₃.1 ∙ rest₂.1))
            ∙ wr.1
            ∙ ap some staged,
      )

  acquire-Rest : (w : World) → Rest w (acquire_rotation_lock env svc tid now uid w).1
  unfolding acquire_rotation_lock store_call
  acquire-Rest w = (ground arith, ground arith)

  release-Rest : (w : World) → Rest w (release_rotation_lock env svc tid now uid w).1
  unfolding release_rotation_lock store_do store_call
  release-Rest w = (ground arith, ground arith)

  locked-ok :
      {A : Type 0} (body : Action A) (a : A) (w : World)
      → (with_rotation_lock env svc tid now uid body w).0 ≡ ok a
      → let w₁ = (acquire_rotation_lock env svc tid now uid w).1 in
        let v = (with_rotation_lock env svc tid now uid body w).1 in
        ((body w₁).0 ≡ ok a)
        × (v.users ≡ (body w₁).1.users)
        × (v.totp_devices ≡ (body w₁).1.totp_devices)
        × (w₁.users ≡ w.users)
        × (w₁.totp_devices ≡ w.totp_devices)
  unfolding with_rotation_lock
  locked-ok body a w h =
      let l = acquire_rotation_lock env svc tid now uid w in
      let r = release-Rest (body l.1).1 in
      let b = acquire-Rest w in
      (ground (arith, h), ground (arith, h, r), ground (arith, h, r), b.1, b.0)

  -- `Enable` on a device that is on: where it answers with a secret, the caller has shown a sudo
  -- token of the user's own that is still good, and the device is as it was, switched on and with the
  -- same active secret, but for a staged secret, which opens to exactly the secret that the answer
  -- has. (The cipher opens what it sealed; the row has a key.)
  pub enable_stages :
      (email token : String) (out : String × String) (d : TotpDevice) (w : World)
      → IsSealing svc.enc
      → first_where (device_of tid w uid) w.totp_devices ≡ some d
      → d.enabled ≡ true
      → d.id ≢ 0
      → (enable env svc tid now uid email token w).0 ≡ ok out
      → SudoProven token
        × (sealed : String) × (decrypt svc.enc sealed ≡ some out.0)
        × (first_where
              (device_of tid w uid)
              (enable env svc tid now uid email token w).1.totp_devices
            ≡ some (record d { pending_secret_encrypted = sealed }))
  unfolding enable
  enable_stages email token out d w laws e on keyed h =
      let l = locked-ok (enable_locked env svc tid now uid email token) out w h in
      let w₁ = (acquire_rotation_lock env svc tid now uid w).1 in
      let body = enable_locked env svc tid now uid email token in
      let e₁ : first_where (device_of tid w₁ uid) w₁.totp_devices ≡ some d =
        ap (λ us. device_in us w₁.totp_devices) l.3 ∙ ap (device_in w.users) l.4 ∙ e in
      let (proven, sealed, opens, after) =
        enable_locked-ok email token out d w₁ laws e₁ on keyed l.0 in
      (
        proven,
        sealed,
        opens,
        ap (device_in w.users) l.2
            ∙ ap (λ us. device_in us (body w₁).1.totp_devices) (sym l.3)
            ∙ after,
      )
