-- ===== src/Services/Passkeys/Sound.antt =====
-- Whom `FinishAuthentication` of internal/services/passkey_service.go signs in.
use finn_api_go.Prelude.{
  ℕ, ◌==◌, ◌≡◌, refl, ap, ◌∙◌, sym, String, true, false, not, ◌&&◌, ◌||◌, Option, none, some, List,
  Option-cases, Bool-cases, inl, inr, arith, if◌then◌else◌,
}
use finn_api_go.Models.{User, PasskeyCredential}
use finn_api_go.Database.{
  World, Action, ok, err, ◌>>=◌, ◌>>◌, query, ignore, passkey_credential_revoked,
}
use finn_api_go.Database.Frame.{Frame, >>=-ok}
use finn_api_go.Database.Table.{first_where, filter_where, any_where}
use finn_api_go.Repositories.Scope.{is_user}
use finn_api_go.Repositories.Users
use finn_api_go.Repositories.Passkeys
use finn_api_go.Repositories.Passkeys.{newest_first, listed}
use finn_api_go.Services.{Env, AuthService, TokenPair, UserProfile}
use finn_api_go.Services.Support.{store_call, audit}
use finn_api_go.Services.Closure.{issue_passkey_token_pair}
use finn_api_go.Services.Passkeys.{
  PasskeyService, Request, Credential, auth_session_key, credentials_from_rows, load_user,
  take_staged, run_ceremony, clone_detected, complete_authentication, authenticate, finish_with,
  finish_authentication, row_id_by_credential, client_ip_from,
}

module _ (env : Env) (svc : PasskeyService) (tid : String) (now uid : ℕ) where
  -- The credentials of the user that are not revoked.
  abbrev pub active_in : List User → List PasskeyCredential → List Credential
  active_in users rows = credentials_from_rows env svc tid now (
      newest_first (
        filter_where
          (λ c.
            any_where (is_user tid c.user_id) users && c.user_id == uid && (false || not c.revoked))
          rows))

  -- What a sign-in rests on.
  abbrev pub Proven : World → Request → Type 0
  Proven w r =
      (session : String) × ((take_staged env svc tid now (auth_session_key uid)
          svc.web.unmarshal_login w).0
        ≡ ok session)
      × (user : User) × (first_where (is_user tid uid) w.users ≡ some user)
      × (user.is_active ≡ true)
      × (user.admin_suspended ≡ false)
      × (cred : Credential) × (svc.web.finish_login user (active_in w.users w.passkeys) session r
          ≡ some cred)
      × (cred.clone_warning ≡ false)

  load_user-ok :
      (user : User) (creds : List Credential) (w : World)
      → (load_user env svc tid now uid w).0 ≡ ok (user, creds)
      → (first_where (is_user tid uid) w.users ≡ some user)
        × (user.is_active ≡ true)
        × (creds ≡ active_in w.users w.passkeys)
  unfolding load_user Users.find_by_id Passkeys.list_by_user query
  load_user-ok user creds w h = elim (Option-cases (first_where (is_user tid uid) w.users)) [
    | inl n ↦ absurd (ground (arith, n, h))
    | inr (u, e) ↦
        let same : u ≡ user = ground (arith, e, h) in
        (
          e ∙ ap some same,
          ap (λ (o : User). o.is_active) (sym same) ∙ ground (arith, e, h),
          ground (arith, e, h),
        )
  ]

  take_staged-users :
      {A : Type 0} (key : String) (f : String → Option A)
      → Frame (λ w. w.users) (take_staged env svc tid now key f)
  unfolding take_staged store_call
  take_staged-users key f w = ground arith

  take_staged-passkeys :
      {A : Type 0} (key : String) (f : String → Option A)
      → Frame (λ w. w.passkeys) (take_staged env svc tid now key f)
  unfolding take_staged store_call
  take_staged-passkeys key f w = ground arith

  pub clone_detected-err :
      (r : Request) (cred : Credential) (w : World)
      → (clone_detected env svc tid now uid r cred w).0 ≡ err passkey_credential_revoked
  unfolding clone_detected row_id_by_credential audit
  clone_detected-err r cred w = refl

  issue-enabled :
      (auth : AuthService) (user : User) (ip ua : String) (out : TokenPair × UserProfile)
      (w : World)
      → (issue_passkey_token_pair env auth tid now user ip ua w).0 ≡ ok out
      → user.admin_suspended ≡ false
  unfolding issue_passkey_token_pair
  issue-enabled auth user ip ua out w h = ground (arith, h)

  abbrev Maintain : AuthService → Request → User → Credential → ℕ → Action (TokenPair × UserProfile)
  Maintain auth r user cred id = do
    ignore (Passkeys.touch_usage tid id cred.sign_count now)
    audit (some uid) "" "passkey_login" (client_ip_from r) true cred.attestation_format
    issue_passkey_token_pair env auth tid now user (client_ip_from r) r.user_agent

  complete-ok :
      (auth : AuthService) (r : Request) (user : User) (cred : Credential)
      (out : TokenPair × UserProfile) (w : World)
      → (complete_authentication env svc tid now auth uid r user cred w).0 ≡ ok out
      → (cred.clone_warning ≡ false) × (user.admin_suspended ≡ false)
  unfolding complete_authentication audit
  complete-ok auth r user cred out w h = elim (Bool-cases cred.clone_warning) [
    | inl cloned ↦ absurd (ground (arith, cloned, h, clone_detected-err r cred w))
    | inr fresh ↦
        let (id, e, h₁, t) =
          >>=-ok (λ w. w) (row_id_by_credential env svc tid now uid cred.id)
            (Maintain auth r user cred) w out
            (ap
                (λ b.
                  ((if b
                      then clone_detected env svc tid now uid r cred
                      else (row_id_by_credential env svc tid now uid cred.id
                          >>= Maintain auth r user cred))
                    w).0)
                (sym fresh)
              ∙ h) in
        let v = (row_id_by_credential env svc tid now uid cred.id w).1 in
        (fresh, issue-enabled auth user (client_ip_from r) r.user_agent out _ h₁)
  ]

  abbrev Login :
      AuthService → Request → String → User × List Credential → Action (TokenPair × UserProfile)
  Login auth r session user =
      run_ceremony env svc tid now (svc.web.finish_login user.0 user.1 session r)
      >>= complete_authentication env svc tid now auth uid r user.0

  abbrev Loaded : AuthService → Request → String → Action (TokenPair × UserProfile)
  Loaded auth r session = load_user env svc tid now uid >>= Login auth r session

  run_ceremony-ok :
      (o : Option Credential) (cred : Credential) (w : World)
      → (run_ceremony env svc tid now o w).0 ≡ ok cred
      → o ≡ some cred
  run_ceremony-ok none cred w h = absurd (ground (arith, h))
  run_ceremony-ok (some c) cred w h = ground (arith, h)

  authenticate-Proven :
      (auth : AuthService) (r : Request) (out : TokenPair × UserProfile) (w : World)
      → (authenticate env svc tid now auth uid r w).0 ≡ ok out
      → Proven w r
  unfolding authenticate
  authenticate-Proven auth r out w h =
      let take = take_staged env svc tid now (auth_session_key uid) svc.web.unmarshal_login in
      let (session, e₁, h₁, t₁) = >>=-ok (λ w. w) take (Loaded auth r) w out h in
      let w₁ = (take w).1 in
      let (user, e₂, h₂, t₂) =
        >>=-ok (λ w. w) (load_user env svc tid now uid) (Login auth r session) w₁ out h₁ in
      let w₂ = (load_user env svc tid now uid w₁).1 in
      let (cred, e₃, h₃, t₃) =
        >>=-ok (λ w. w)
          (run_ceremony env svc tid now (svc.web.finish_login user.0 user.1 session r))
          (complete_authentication env svc tid now auth uid r user.0) w₂ out h₂ in
      let l = load_user-ok user.0 user.1 w₁ e₂ in
      let c =
        complete-ok auth r user.0 cred out
          (run_ceremony env svc tid now (svc.web.finish_login user.0 user.1 session r) w₂).1 h₃ in
      let us = take_staged-users (auth_session_key uid) svc.web.unmarshal_login w in
      let ps = take_staged-passkeys (auth_session_key uid) svc.web.unmarshal_login w in
      let creds = l.2 ∙ ap (λ us. active_in us w₁.passkeys) us ∙ ap (active_in w.users) ps in
      (
        session,
        e₁,
        user.0,
        sym (ap (first_where (is_user tid uid)) us) ∙ l.0,
        l.1,
        c.1,
        cred,
        ap (λ cs. svc.web.finish_login user.0 cs session r) (sym creds)
            ∙ run_ceremony-ok _ cred w₂ e₃,
        c.0,
      )

  -- Whoever `FinishAuthentication` signs in has answered a challenge that was staged for the user and
  -- is taken with this request; the user is active and not suspended; the WebAuthn library accepted
  -- the answer against exactly the credentials of the user that are not revoked; and the credential
  -- it was made with is not one whose counter went back.
  pub finish_authentication-Proven :
      (r : Request) (out : TokenPair × UserProfile) (w : World)
      → (finish_authentication env svc tid now uid r w).0 ≡ ok out
      → Proven w r
  unfolding finish_authentication finish_with
  finish_authentication-Proven r out w h = elim (Option-cases svc.tokens) [
    | inl n ↦ absurd (ground (arith, n, h))
    | inr (auth, e) ↦
        authenticate-Proven auth r out w
          (ap (λ o. (finish_with env svc tid now o uid r w).0) (sym e) ∙ h)
  ]
