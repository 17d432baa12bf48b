-- ===== src/Services/Refresh/Frame.antt =====
-- What `issueTokenPair` of internal/services/auth_service.go does to the users and refresh tokens.
use finn_api_go.Prelude.{
  ℕ, ◌+◌, ◌≡◌, refl, String, is_empty, false, Option, none, some, Option-cases, inl, inr, List, [],
  ◌∷◌, ◌++◌, arith,
}
use finn_api_go.Models.{User, RefreshToken}
use finn_api_go.Database.{World, Action, ok, ⊤, query}
use finn_api_go.Database.Frame.{>>=-ok}
use finn_api_go.Repositories.Scope.{scope_tenant, require_owner}
use finn_api_go.Repositories.Rbac.{get_user_permissions}
use finn_api_go.Repositories.Sessions
use finn_api_go.Repositories.RefreshTokens
use finn_api_go.Jwt.{Claims, finn_audience}
use finn_api_go.Jwt.Keys.{verify_access_v1}
use finn_api_go.Services.{Env, AuthService, TokenPair}
use finn_api_go.Services.Support.{store_call, send, draw, generate_opaque_token}
use finn_api_go.Services.Issue.{
  issuable, signed_permissions, session_for, access_token, check_issued, check_state, refresh_row,
  prepare, add_refresh_token, issue_token_pair, maybe_notify_new_ip_login,
}

-- The users and the refresh tokens are as before.
abbrev pub Kept : World → World → Type 0
Kept w w' = (w'.users ≡ w.users) × (w'.refresh_tokens ≡ w.refresh_tokens)

-- The check of the state that the service is given, if any, writes neither users nor tokens.
abbrev pub StateReads : AuthService → Type 0
StateReads svc =
    (check : String → ℕ → Claims → Action ⊤)
    → svc.access_state ≡ some check
    → (tid : String) (now : ℕ) (c : Claims) (w : World) → Kept w (check tid now c w).1

module _ (env : Env) (svc : AuthService) (tid : String) (now : ℕ) where
  issuable-Kept : (u : User) (w : World) → Kept w (issuable env svc tid now u w).1
  unfolding issuable
  issuable-Kept u w = (ground arith, ground arith)

  signed_permissions-Kept :
      (u : User) (w : World) → Kept w (signed_permissions env svc tid now u w).1
  unfolding signed_permissions get_user_permissions query
  signed_permissions-Kept u w = (ground arith, ground arith)

  session_for-Kept :
      (u : User) (ip ua reuse : String) (w : World)
      → Kept w (session_for env svc tid now u ip ua reuse w).1
  unfolding session_for draw Sessions.create scope_tenant require_owner query Sessions.touch
  session_for-Kept u ip ua reuse w = (ground arith, ground arith)

  access_token-Kept :
      (u : User) (sid : String) (perms : List String) (w : World)
      → Kept w (access_token env svc tid now u sid perms w).1
  unfolding access_token draw
  access_token-Kept u sid perms w = (ground arith, ground arith)

  check_state-Kept :
      (o : Option (String → ℕ → Claims → Action ⊤)) (c : Claims) (w : World)
      → ((check : String → ℕ → Claims → Action ⊤)
          → o ≡ some check
          → (tid : String) (now : ℕ) (c : Claims) (w : World) → Kept w (check tid now c w).1)
      → Kept w (check_state env svc tid now o c w).1
  unfolding check_state
  check_state-Kept none c w r = (refl, refl)
  check_state-Kept (some check) c w r =
      let k = r check refl tid now c w in (ground (arith, k), ground (arith, k))

  check_issued-Kept :
      StateReads svc
      → (access : String) (w : World) → Kept w (check_issued env svc tid now access w).1
  unfolding check_issued
  check_issued-Kept reads access w =
      let k = λ (c : Claims). check_state-Kept svc.access_state c w reads in
      elim (Option-cases (verify_access_v1 env.jwt_lib svc.jwt now access finn_audience)) [
        | inl bad ↦ (ground (arith, bad), ground (arith, bad))
        | inr good ↦ (ground (arith, good.1, k good.0), ground (arith, good.1, k good.0))
      ]

  prepare-Kept :
      StateReads svc
      → (u : User) (ip ua reuse : String) (w : World)
      → Kept w (prepare env svc tid now u ip ua reuse w).1
  unfolding prepare
  prepare-Kept reads u ip ua reuse w = (
    grind (
      arith,
      issuable-Kept u w,
      signed_permissions-Kept,
      session_for-Kept,
      access_token-Kept,
      check_issued-Kept reads,
    ),
    grind (
      arith,
      issuable-Kept u w,
      signed_permissions-Kept,
      session_for-Kept,
      access_token-Kept,
      check_issued-Kept reads,
    ),
  )

  -- A new row, of the user and the session, that holds the hash of what the client is told.
  abbrev pub Issued : User → String → TokenPair → RefreshToken → Type 0
  Issued u sid pair rt =
      (rt.user_id ≡ u.id)
      × (rt.session_id ≡ sid)
      × (rt.token_hash ≡ env.sha256_hex pair.refresh_token)
      × (rt.revoked ≡ false)
      × (rt.expires_at ≡ now + svc.cfg.refresh_ttl)

  -- The one new token is stored last.
  abbrev pub Adds : User → String → TokenPair → World → World → Type 0
  Adds u sid pair w w' =
      (w'.users ≡ w.users)
      × (rt : RefreshToken) × (w'.refresh_tokens ≡ w.refresh_tokens ++ rt ∷ [])
      × Issued u sid pair rt

  generate-Kept : (w : World) → Kept w (generate_opaque_token env w).1
  unfolding generate_opaque_token draw
  generate-Kept w = elim (Option-cases (env.random_hex w.draws)) [
    | inl n ↦ (ground (arith, n), ground (arith, n))
    | inr s ↦ (ground (arith, s.1), ground (arith, s.1))
  ]

  create-ok :
      (rt : RefreshToken) (w : World)
      → (RefreshTokens.create tid rt w).0 ≡ ok tt
      → let w' = (RefreshTokens.create tid rt w).1 in
        (w'.users ≡ w.users)
        × (w'.refresh_tokens ≡ w.refresh_tokens ++ record rt { id = w.next_id } ∷ [])
  unfolding RefreshTokens.create require_owner query
  create-ok rt w h = (ground arith, ground arith)

  notify-Kept :
      (u : User) (ip ua : String) (w : World)
      → let (r, w') = maybe_notify_new_ip_login env svc tid now u ip ua w in (r ≡ ok tt) × Kept w w'
  unfolding maybe_notify_new_ip_login store_call send
  notify-Kept u ip ua w = (ground arith, (ground arith, ground arith))

  add_refresh_token-Adds :
      (u : User) (ip ua sid access : String) (pair : TokenPair) (w : World)
      → (add_refresh_token env svc tid now u ip ua sid access w).0 ≡ ok pair
      → Adds u sid pair w (add_refresh_token env svc tid now u ip ua sid access w).1
  unfolding add_refresh_token
  add_refresh_token-Adds u ip ua sid access pair w h =
      let row = refresh_row env svc tid now u ip ua sid pair.refresh_token in
      let w₁ = (generate_opaque_token env w).1 in
      let w₂ = (RefreshTokens.create tid row w₁).1 in
      let g = generate-Kept w in
      let c = create-ok row w₁ in
      let n = notify-Kept u ip ua w₂ in
      (
        ground (arith, g, c, n),
        record row { id = w₁.next_id },
        ground (arith, g, c, n),
        (refl, refl, refl, refl, refl),
      )

  session_for-sid :
      (u : User) (ip ua reuse sid : String) (w : World)
      → (session_for env svc tid now u ip ua reuse w).0 ≡ ok sid
      → is_empty reuse ≡ false
      → sid ≡ reuse
  unfolding session_for
  session_for-sid u ip ua reuse sid w h n = ground arith

  prepare-sid :
      (u : User) (ip ua reuse : String) (made : String × String) (w : World)
      → (prepare env svc tid now u ip ua reuse w).0 ≡ ok made
      → is_empty reuse ≡ false
      → made.0 ≡ reuse
  unfolding prepare
  prepare-sid u ip ua reuse made w h n = grind (arith, session_for-sid u ip ua reuse)

  -- A pair that was issued: in the given session, if there is one.
  pub issue_token_pair-Adds :
      StateReads svc
      → (u : User) (ip ua reuse : String) (pair : TokenPair) (w : World)
      → (issue_token_pair env svc tid now u ip ua reuse w).0 ≡ ok pair
      → (sid : String) × (is_empty reuse ≡ false → sid ≡ reuse)
        × Adds u sid pair w (issue_token_pair env svc tid now u ip ua reuse w).1
  unfolding issue_token_pair
  issue_token_pair-Adds reads u ip ua reuse pair w h =
      let (made, e, k, eq) =
        >>=-ok (λ w. w) (prepare env svc tid now u ip ua reuse)
          (λ made. add_refresh_token env svc tid now u ip ua made.0 made.1) w pair h in
      let w₁ = (prepare env svc tid now u ip ua reuse w).1 in
      let kept = prepare-Kept reads u ip ua reuse w in
      let (users, rt, rows, issued) = add_refresh_token-Adds u ip ua made.0 made.1 pair w₁ k in
      (
        made.0,
        prepare-sid u ip ua reuse made w e,
        (ground (arith, users, kept, eq), rt, ground (arith, rows, kept, eq), issued),
      )
