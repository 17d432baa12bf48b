-- ===== src/Services/Issue.antt =====
-- internal/services/auth_service.go: `issueTokenPair`, the one place where a pair of tokens is made.
use finn_api_go.Prelude.{
  ℕ, ◌+◌, String, str_eq, ◌<>◌, is_empty, Bool, true, false, not, ◌&&◌, ◌||◌, Option, none, some,
  List, [], if◌then◌else◌,
}
use finn_api_go.Prelude.Int64.{show_uint}
use finn_api_go.Models.{User, RefreshToken}
use finn_api_go.Store.{text}
use finn_api_go.Store
use finn_api_go.Database.{
  Action, Result, ok, err, ⊤, ◌>>=◌, ◌>>◌, pure, raise, raise_if, attempt, ignore, when,
  new_login_alert, identity_unavailable, account_disabled, user_not_found, signing,
  invalid_credentials,
}
use finn_api_go.Repositories.Sessions
use finn_api_go.Repositories.RefreshTokens
use finn_api_go.Repositories.Rbac.{get_user_permissions}
use finn_api_go.Jwt.{Claims, finn_audience}
use finn_api_go.Jwt.Keys.{access_v1_claims, access_enterprise_claims, sign, verify_access_v1}
use finn_api_go.Services.{Env, AuthService, TokenPair, new_ip_lookback_window}
use finn_api_go.Services.Support.{store_call, send, draw, generate_opaque_token}

module _ (env : Env) (svc : AuthService) (tid : String) (now : ℕ) where
  unfoldable pub resolve_location : String → String
  resolve_location ip =
      if is_empty ip
      then "Unknown"
      else if is_empty (env.resolve_location ip)
      then "Unknown"
      else env.resolve_location ip

  -- The alert leaves at most once in the window for a user and an address.
  unfoldable pub maybe_notify_new_ip_login : User → String → String → Action ⊤
  maybe_notify_new_ip_login user ip ua =
      if not svc.notify_wired || is_empty ip || not svc.cfg.notify_new_ip_login
      then pure tt
      else (do
        let key = "knownip:" <> show_uint user.id <> ":" <> ip
        first ← store_call false (λ s. Store.set_nx now key s (text "seen") new_ip_lookback_window)
        when first (send (new_login_alert user.email ip (env.device_name ua))))

  -- The guards at the top.
  abbrev state_wired : Bool
  state_wired = elim svc.access_state [ none ↦ false | some f ↦ true ]

  unfoldable pub issuable : User → Action ⊤
  issuable user = do
    raise_if
        (svc.jwt.strict && (not svc.sessions_wired || not svc.permissions_wired || not state_wired))
        identity_unavailable
    raise_if (svc.jwt.strict && (not user.is_active || user.admin_suspended)) account_disabled
    raise_if (not (is_empty user.tenant_id) && not (str_eq user.tenant_id tid)) user_not_found

  -- A failed lookup is reported as an outage.
  unfoldable pub signed_permissions : User → Action (List String)
  signed_permissions user = if not svc.permissions_wired then pure [] else (do
    found ← attempt (get_user_permissions tid user.id)
    elim found [ ok perms ↦ pure perms | err e ↦ raise identity_unavailable ])

  -- A new session, or the given one brought up to date.
  unfoldable pub session_for : User → String → String → String → Action String
  session_for user ip ua reuse =
      if not svc.sessions_wired
      then pure reuse
      else if is_empty reuse
      then (do
        n ← draw
        Sessions.create tid (record {
          id = env.new_uuid n;
          tenant_id = "";
          user_id = user.id;
          ip_address = ip;
          user_agent = ua;
          device_name = env.device_name ua;
          location_estimate = resolve_location ip;
          revoked = false;
          last_active_at = now;
          expires_at = now + svc.cfg.refresh_ttl;
        })
        pure (env.new_uuid n))
      else (do
        ignore (Sessions.touch tid reuse ip ua (env.device_name ua) (resolve_location ip) now)
        pure reuse)

  unfoldable pub access_token : User → String → List String → Action String
  access_token user sid perms = do
    n ← draw
    let claims : Option Claims =
        if svc.jwt.strict
        then access_v1_claims svc.jwt now user.id user.role user.email svc.cfg.access_ttl
            user.pwd_version user.auth_epoch sid tid perms (env.new_uuid n)
        else access_enterprise_claims svc.jwt now user.id user.role user.email svc.cfg.access_ttl
            user.pwd_version sid tid perms (env.new_uuid n)
    elim (sign env.jwt_lib svc.jwt claims) [ none ↦ raise signing | some t ↦ pure t ]

  abbrev state_error : Result ⊤ → Action ⊤
  state_error (ok u) = pure tt
  state_error (err invalid_credentials) = raise invalid_credentials
  state_error (err e) = raise identity_unavailable

  -- The state behind a token, as the wired check sees it.
  unfoldable pub check_state : Option (String → ℕ → Claims → Action ⊤) → Claims → Action ⊤
  check_state none claims = raise identity_unavailable
  check_state (some check) claims = do state ← attempt (check tid now claims); state_error state

  -- A strict manager verifies what it has just signed, and the state behind it.
  unfoldable pub check_issued : String → Action ⊤
  check_issued access =
      if not svc.jwt.strict
      then pure tt
      else elim (verify_access_v1 env.jwt_lib svc.jwt now access finn_audience) [
        | none ↦ raise signing
        | some claims ↦ check_state svc.access_state claims
      ]

  abbrev pub refresh_row : User → String → String → String → String → RefreshToken
  refresh_row user ip ua sid plain = record {
    id = 0;
    user_id = user.id;
    token_hash = env.sha256_hex plain;
    expires_at = now + svc.cfg.refresh_ttl;
    revoked = false;
    ip_address = ip;
    user_agent = ua;
    device_name = env.device_name ua;
    location_estimate = resolve_location ip;
    last_active_at = now;
    session_id = sid;
  }

  -- Up to the checked access token: the session, and the token.
  unfoldable pub prepare : User → String → String → String → Action (String × String)
  prepare user ip ua reuse = do
    issuable user
    perms ← signed_permissions user
    sid ← session_for user ip ua reuse
    access ← access_token user sid perms
    check_issued access
    pure (sid, access)

  -- The refresh token of the pair: its hash is stored, and it is told once.
  unfoldable pub add_refresh_token : User → String → String → String → String → Action TokenPair
  add_refresh_token user ip ua sid access = do
    plain ← generate_opaque_token env
    RefreshTokens.create tid (refresh_row user ip ua sid plain)
    maybe_notify_new_ip_login user ip ua
    pure (record {
      access_token = access;
      refresh_token = plain;
      expires_at = now + svc.cfg.access_ttl;
    })

  unfoldable pub issue_token_pair : User → String → String → String → Action TokenPair
  issue_token_pair user ip ua reuse = do
    made ← prepare user ip ua reuse
    add_refresh_token user ip ua made.0 made.1
