-- ===== src/Services/Oauth/Vouch.antt =====
-- Whom `HandleCallback` of internal/services/oauth_service.go signs in.
use mathlib.Core.Path.{subst}
use finn_api_go.Prelude.{
  ℕ, ◌≡◌, ◌⊎◌, ap, ◌∙◌, sym, String, str_eq, eq_iff, is_empty, true, not, ◌&&◌, Option, none, some,
  List, Option-cases, Bool-cases, inl, inr, arith, if◌then◌else◌,
}
use finn_api_go.Models.{User, OauthIdentity}
use finn_api_go.Database.{World, Result, ok, err, ◌>>=◌, query, raise, oauth_not_configured}
use finn_api_go.Database.Frame.{Frame, >>=-ok}
use finn_api_go.Database.Table.{first_where, any_where}
use finn_api_go.Repositories.Scope.{is_user}
use finn_api_go.Repositories.Users
use finn_api_go.Repositories.Oauth
use finn_api_go.Repositories.Oauth.{links, is_identity}
use finn_api_go.Services.{Env, LoginResult}
use finn_api_go.Services.Support.{store_call}
use finn_api_go.Services.Login.{normal_email}
use finn_api_go.Services.Oauth.{
  OauthService, OauthChallenge, GoogleIdTokenClaims, google, consume_state, bound_claims,
  id_token_claims, verified_claims, user_of_link, link_new, identity_found, find_or_create_user,
  sign_in, claims_verified, challenged, handle_callback,
}

module _ (env : Env) (svc : OauthService) (tid : String) (now : ℕ) where
  -- The link of an identity that the tenant has, and the account with an address.
  abbrev link_in : List User → List OauthIdentity → String → Option OauthIdentity
  link_in users identities sub =
      first_where (λ i. any_where (is_user tid i.user_id) users && is_identity google sub i)
        identities

  abbrev account_in : List User → String → Option User
  account_in users email = first_where (λ u. str_eq u.email email && str_eq u.tenant_id tid) users

  -- The account behind an identity: the linked one; or, where nothing is linked, the one with the
  -- address, if it has been verified; or one that did not exist.
  abbrev pub OwnerIn : List User → List OauthIdentity → String → String → User → Type 0
  OwnerIn users identities sub email user =
      ((link : OauthIdentity) × (link_in users identities sub ≡ some link)
        × (first_where (is_user tid link.user_id) users ≡ some user))
      ⊎ ((link_in users identities sub ≡ none)
          × (((account_in users email ≡ some user) × (user.is_email_verified ≡ true))
              ⊎ (account_in users email ≡ none)))

  abbrev pub Owner : World → String → String → User → Type 0
  Owner w sub email user = OwnerIn w.users w.oauth_identities sub email user

  -- The token and the claims that a verified callback rests on.
  abbrev pub Redeemed : String → OauthChallenge → GoogleIdTokenClaims → Type 0
  Redeemed code challenge claims =
      (raw : String) × (svc.lib.exchange now code challenge.verifier ≡ some (some raw))
      × (svc.lib.verify now raw ≡ ok claims)
      × (claims.nonce ≡ challenge.nonce)
      × (claims.email_verified ≡ true)

  -- What a sign-in rests on.
  abbrev pub Vouched : World → String → String → Type 0
  Vouched w code state =
      (challenge : OauthChallenge) × ((consume_state env svc tid now state w).0 ≡ ok challenge)
      × (claims : GoogleIdTokenClaims) × Redeemed code challenge claims
      × (user : User) × (user.is_active ≡ true)
      × Owner w claims.sub (normal_email claims.email) user

  consume_state-users :
      (state : String) → Frame (λ w. w.users) (consume_state env svc tid now state)
  unfolding consume_state store_call
  consume_state-users state w = ground arith

  consume_state-identities :
      (state : String) → Frame (λ w. w.oauth_identities) (consume_state env svc tid now state)
  unfolding consume_state store_call
  consume_state-identities state w = ground arith

  find_or_create-Owner :
      (claims : GoogleIdTokenClaims) (email ip : String) (user : User) (w : World)
      → (find_or_create_user env svc tid now claims email ip w).0 ≡ ok user
      → Owner w claims.sub email user
  unfolding find_or_create_user identity_found user_of_link link_new
      Oauth.find_by_provider_and_provider_user_id Users.find_by_id Users.find_by_email query
  find_or_create-Owner claims email ip user w h =
      elim (Option-cases (first_where (links tid w google claims.sub) w.oauth_identities)) [
        | inr (link, e) ↦ elim (Option-cases (first_where (is_user tid link.user_id) w.users)) [
          | inl n ↦ absurd (ground (arith, e, n, h))
          | inr (u, f) ↦
              let same : u ≡ user = ground (arith, e, f, h) in inl (link, e, f ∙ ap some same)
        ]
        | inl n ↦
            elim (Option-cases
              (first_where (λ u. str_eq u.email email && str_eq u.tenant_id tid) w.users)) [
                | inl m ↦ inr (n, inr m)
                | inr (u, f) ↦
                    let same : (u ≡ user) × (u.is_email_verified ≡ true) =
                      ground (arith, n, f, h) in
                    inr (
                      n,
                      inl (
                        f ∙ ap some same.0,
                        ap (λ (o : User). o.is_email_verified) (sym same.0) ∙ same.1,
                      ),
                    )
              ]
      ]

  bound_claims-ok :
      (challenge : OauthChallenge) (r : Result GoogleIdTokenClaims) (claims : GoogleIdTokenClaims)
      (w : World)
      → (bound_claims env svc tid now challenge r w).0 ≡ ok claims
      → (r ≡ ok claims)
        × (claims.nonce ≡ challenge.nonce)
        × (claims.email_verified ≡ true)
        × ((bound_claims env svc tid now challenge r w).1 ≡ w)
  unfolding bound_claims
  bound_claims-ok challenge (err x) claims w h = absurd (ground (arith, h))
  bound_claims-ok challenge (ok c) claims w h =
      let same : c ≡ claims = ground (arith, h) in
      let nonce : c.nonce ≡ challenge.nonce = ground (arith, h, eq_iff c.nonce challenge.nonce) in
      let verified : c.email_verified ≡ true = ground (arith, h) in
      (
        ap ok same,
        ap (λ (o : GoogleIdTokenClaims). o.nonce) (sym same) ∙ nonce,
        ap (λ (o : GoogleIdTokenClaims). o.email_verified) (sym same) ∙ verified,
        ground (arith, h),
      )

  verified_claims-ok :
      (code : String) (challenge : OauthChallenge) (claims : GoogleIdTokenClaims) (w : World)
      → (verified_claims env svc tid now code challenge w).0 ≡ ok claims
      → Redeemed code challenge claims × ((verified_claims env svc tid now code challenge w).1 ≡ w)
  unfolding verified_claims id_token_claims
  verified_claims-ok code challenge claims w h =
      elim (Option-cases (svc.lib.exchange now code challenge.verifier)) [
        | inl n ↦ absurd (ground (arith, n, h))
        | inr (token, e) ↦ elim (Option-cases token) [
          | inl n ↦ absurd (ground (arith, e, n, h))
          | inr (raw, f) ↦ elim (Bool-cases (is_empty raw)) [
            | inl bare ↦ absurd (ground (arith, e, f, bare, h))
            | inr full ↦
                let same : verified_claims env svc tid now code challenge w
                    ≡ bound_claims env svc tid now challenge (svc.lib.verify now raw) w =
                  ground (arith, e, f, full) in
                let b =
                  bound_claims-ok challenge (svc.lib.verify now raw) claims w
                    (ap (λ (r : Result GoogleIdTokenClaims × World). r.0) (sym same) ∙ h) in
                (
                  (raw, e ∙ ap some f, b.0, b.1, b.2),
                  ap (λ (r : Result GoogleIdTokenClaims × World). r.1) same ∙ b.3,
                )
          ]
        ]
      ]

  sign_in-active :
      (ip ua : String) (user : User) (result : LoginResult) (w : World)
      → (sign_in env svc tid now ip ua user w).0 ≡ ok result
      → user.is_active ≡ true
  unfolding sign_in
  sign_in-active ip ua user result w h = ground (arith, h)

  challenged-configured :
      (code ip ua : String) (challenge : OauthChallenge) (result : LoginResult) (w : World)
      → (challenged env svc tid now code ip ua challenge w).0 ≡ ok result
      → ((verified_claims env svc tid now code challenge >>= claims_verified env svc tid now ip ua)
          w).0
        ≡ ok result
  unfolding challenged
  challenged-configured code ip ua challenge result w h = elim (Bool-cases svc.configured) [
    | inl on ↦
        ap
          (λ b.
            ((if not b
                then raise oauth_not_configured
                else (verified_claims env svc tid now code challenge
                    >>= claims_verified env svc tid now ip ua))
              w).0)
          (sym on)
        ∙ h
    | inr off ↦ absurd (ground (arith, off, h))
  ]

  -- Whoever `HandleCallback` signs in, or sends on to the second factor, has come back with a state
  -- that the store had a challenge under; the code was redeemed with the verifier of that challenge,
  -- for an id token that the verifier of Google's tokens accepts, that echoes the nonce of the
  -- challenge, and whose address Google has verified; and there is an active account which is the one
  -- linked to that identity, or else no account is linked to it, and either it is the one with that
  -- address and its address had been verified, or no account had that address.
  pub handle_callback-Vouched :
      (code state ip ua : String) (result : LoginResult) (w : World)
      → (handle_callback env svc tid now code state ip ua w).0 ≡ ok result
      → Vouched w code state
  unfolding handle_callback claims_verified
  handle_callback-Vouched code state ip ua result w h =
      let consume = consume_state env svc tid now state in
      let (challenge, e₁, h₁, t₁) =
        >>=-ok (λ w. w) consume (challenged env svc tid now code ip ua) w result h in
      let w₁ = (consume w).1 in
      let verified = verified_claims env svc tid now code challenge in
      let (claims, e₂, h₂, t₂) =
        >>=-ok (λ w. w) verified (claims_verified env svc tid now ip ua) w₁ result
          (challenged-configured code ip ua challenge result w₁ h₁) in
      let w₂ = (verified w₁).1 in
      let (redeemed, same) = verified_claims-ok code challenge claims w₁ e₂ in
      let email = normal_email claims.email in
      let (user, e₃, h₃, t₃) =
        >>=-ok (λ w. w) (find_or_create_user env svc tid now claims email ip)
          (sign_in env svc tid now ip ua) w₂ result h₂ in
      let owner = find_or_create-Owner claims email ip user w₂ e₃ in
      let owner₁ = subst (λ v. Owner v claims.sub email user) same owner in
      let owner₂ =
        subst (λ us. OwnerIn us w₁.oauth_identities claims.sub email user)
          (consume_state-users state w) owner₁ in
      let owner₃ =
        subst (λ is. OwnerIn w.users is claims.sub email user) (consume_state-identities state w)
          owner₂ in
      (
        challenge,
        e₁,
        claims,
        redeemed,
        user,
        sign_in-active ip ua user result (find_or_create_user env svc tid now claims email ip w₂).1
            h₃,
        owner₃,
      )
