-- ===== src/Services/Refresh.antt =====
-- internal/services/auth_service.go: rotation of refresh tokens, reuse of a dead one, and the ways
-- in which a session ends.
pub mod Frame
pub mod Rotation
pub mod Reuse
pub mod Revocation
mod Tests
use finn_api_go.Prelude.{
  ℕ, ◌+◌, ◌==◌, String, str_eq, ◌<>◌, is_empty, Bool, true, false, not, ◌&&◌, ◌||◌, Option, none,
  some, List, [], ltb, leb, if◌then◌else◌,
}
use finn_api_go.Models.{User, Session, RefreshToken}
use finn_api_go.Database.{
  World, Action, Result, ok, err, Error, ⊤, ◌>>=◌, ◌>>◌, pure, raise, raise_if, attempt, ignore,
  when, security_alert, Metrics, invalid_token, session_not_found, token_already_revoked,
  record_not_found, identity_unavailable,
}
use finn_api_go.Repositories.Users
use finn_api_go.Repositories.Sessions
use finn_api_go.Repositories.RefreshTokens
use finn_api_go.Jwt.{key_drain}
use finn_api_go.Services.{Env, AuthService, TokenPair}
use finn_api_go.Services.Support.{audit, send, count_metric}
use finn_api_go.Services.Tokens.{denylist_access_token, denylist_session, bump_pwd_version}
use finn_api_go.Services.Issue.{issue_token_pair}

-- `hash.HashToken`
unfoldable pub hash_token : Env → String → String
hash_token env token = env.sha256_hex token

abbrev pub found_or_none : Result (Option Session) → Option Session
found_or_none (ok s) = s
found_or_none (err e) = none

-- `TokenReuseDetections.Add(1)`, `RefreshRotations.Add(1)`
abbrev pub count_reuse : Metrics → Metrics
count_reuse m = record m { token_reuse_detections = m.token_reuse_detections + 1 }

abbrev count_rotation : Metrics → Metrics
count_rotation m = record m { refresh_rotations = m.refresh_rotations + 1 }

module _ (env : Env) (svc : AuthService) (tid : String) (now : ℕ) where
  unfoldable pub notify_security_async : ℕ → String → String → Action ⊤
  notify_security_async uid event body = if not svc.notify_wired then pure tt else (do
    found ← attempt (Users.find_by_id tid uid)
    elim found [
      | err e ↦ pure tt
      | ok none ↦ pure tt
      | ok (some user) ↦ when (not (is_empty user.email)) (send (security_alert user.email event))
    ])

  -- The session and its tokens are revoked, as far as the database answers.
  unfoldable pub contain_family : RefreshToken → Action (Option Session)
  contain_family rt = do
    lookup ← attempt (Sessions.find_by_id tid rt.session_id)
    ignore (Sessions.revoke_by_id tid rt.session_id rt.user_id)
    ignore (RefreshTokens.revoke_by_session tid rt.session_id)
    pure (found_or_none lookup)

  unfoldable pub notify_owner : RefreshToken → Option Session → Action ⊤
  notify_owner rt none = pure tt
  notify_owner rt (some s) =
      notify_security_async rt.user_id "Suspicious sign-in activity detected"
        "A refresh token from one of your devices was reused after being revoked. That device's session has been ended. If this was not you, change your password immediately."

  -- The policy on a reused token: its session alone ends, and its owner hears of it. A row without
  -- a session ends all the user's tokens.
  unfoldable pub handle_token_reuse : RefreshToken → String → String → Action ⊤
  handle_token_reuse rt ip detail =
      if not (is_empty rt.session_id) && svc.sessions_wired
      then (do
        sess ← contain_family rt
        denylist_session svc tid now sess
        audit (some rt.user_id) "" "token_reuse" ip false (detail <> " (session family revoked)")
        notify_owner rt sess)
      else (do
        ignore (RefreshTokens.revoke_all_for_user tid rt.user_id)
        audit (some rt.user_id) "" "token_reuse" ip false detail)

  abbrev refuse_reuse {ℓ} : {A : Type ℓ} → RefreshToken → String → String → Action A
  refuse_reuse rt ip detail = do
    count_metric count_reuse
    handle_token_reuse rt ip detail
    raise invalid_token

  -- The session that the token belongs to must stand.
  unfoldable pub check_session : RefreshToken → String → Action ⊤
  check_session rt ip = if is_empty rt.session_id || not svc.sessions_wired then pure tt else (do
    sess ← Sessions.find_by_id tid rt.session_id
    elim sess [
      | none ↦ raise invalid_token
      | some s ↦
          if s.revoked || ltb s.expires_at now
          then refuse_reuse rt ip "revoked session presented"
          else pure tt
    ])

  -- The new pair, in the family of the old.
  unfoldable pub renew_pair : RefreshToken → User → String → String → Action TokenPair
  renew_pair rt user ip ua = do
    pair ← issue_token_pair env svc tid now user ip ua rt.session_id
    count_metric count_rotation
    audit (some user.id) "" "refresh_token" ip true ""
    pure pair

  -- From the compare and set on.
  unfoldable pub rotate : RefreshToken → User → String → String → Action TokenPair
  rotate rt user ip ua = do
    won ← attempt (RefreshTokens.revoke tid rt)
    elim won [
      | err token_already_revoked ↦ refuse_reuse rt ip "concurrent refresh lost revoke race"
      | err e ↦ raise e
      | ok u ↦ renew_pair rt user ip ua
    ]

  -- What follows once the row is found.
  unfoldable pub refresh_row : RefreshToken → String → String → Action TokenPair
  refresh_row rt ip ua =
      if rt.revoked
      then refuse_reuse rt ip "revoked refresh token presented"
      else if ltb rt.expires_at now
      then (do ignore (RefreshTokens.revoke tid rt); raise invalid_token)
      else (do
        found ← Users.find_by_id tid rt.user_id
        elim found [
          | none ↦ raise invalid_token
          | some user ↦
              if not user.is_active || user.admin_suspended
              then raise invalid_token
              else (do check_session rt ip; rotate rt user ip ua)
        ])

  -- `Refresh`
  unfoldable pub refresh : String → String → String → Action TokenPair
  refresh token ip ua = do
    found ← RefreshTokens.find_by_hash tid (hash_token env token)
    elim found [ none ↦ raise invalid_token | some rt ↦ refresh_row rt ip ua ]

  abbrev revoke_caller : String → Action ⊤
  revoke_caller jti = elim svc.access_revoker [
    | none ↦ pure tt
    | some revoke ↦ if is_empty jti then pure tt else (do
      done ← attempt (revoke tid jti (now + key_drain))
      elim done [ ok u ↦ pure tt | err e ↦ raise identity_unavailable ])
  ]

  -- The family of a token that has just been revoked.
  unfoldable pub end_family : RefreshToken → Action ⊤
  end_family rt = if is_empty rt.session_id || not svc.sessions_wired then pure tt else (do
    lookup ← attempt (Sessions.find_by_id tid rt.session_id)
    elim lookup [
      | err e ↦ pure tt
      | ok sess ↦ do
        ignore (Sessions.revoke_by_id tid rt.session_id rt.user_id)
        ignore (RefreshTokens.revoke_by_session tid rt.session_id)
        denylist_session svc tid now sess
    ])

  abbrev already_dead : Option RefreshToken → Bool
  already_dead none = true
  already_dead (some rt) = rt.revoked

  -- A token that a concurrent request has revoked is as good as revoked.
  abbrev unless_dead : Result ⊤ → Action ⊤
  unless_dead (ok u) = pure tt
  unless_dead (err token_already_revoked) = pure tt
  unless_dead (err e) = raise e

  abbrev known_session : Result ⊤ → Action ⊤
  known_session (ok u) = pure tt
  known_session (err record_not_found) = raise session_not_found
  known_session (err e) = raise e

  -- `Logout`
  unfoldable pub logout : String → String → String → Action ⊤
  logout token jti ip = do
    revoke_caller jti
    denylist_access_token svc tid now jti
    found ← RefreshTokens.find_by_hash tid (hash_token env token)
    elim found [
      | none ↦ when (not (is_empty jti)) (audit none "" "access_token_revoked" "" true "")
      | some rt ↦
          if rt.revoked
          then when (not (is_empty jti)) (audit none "" "access_token_revoked" "" true "")
          else (do
            won ← attempt (RefreshTokens.revoke tid rt)
            unless_dead won
            end_family rt
            audit (some rt.user_id) "" "logout" ip true ""
            when (not (is_empty jti)) (
                audit (some rt.user_id) "" "access_token_revoked" ip true
                  "logout denylisted access jti"))
    ]

  -- `LogoutAll`
  unfoldable pub logout_all : ℕ → String → Action ⊤
  logout_all uid ip = do
    RefreshTokens.revoke_all_for_user tid uid
    when svc.sessions_wired (Sessions.revoke_all_for_user tid uid)
    bump_pwd_version svc tid now uid
    audit (some uid) "" "logout" ip true "logout-all"

  -- `RevokeSession`, over a session table.
  unfoldable pub revoke_session : String → ℕ → String → Action ⊤
  revoke_session sid uid ip = do
    found ← Sessions.find_by_id tid sid
    elim found [
      | none ↦ raise session_not_found
      | some sess ↦ if not (sess.user_id == uid) then raise session_not_found else (do
        done ← attempt (Sessions.revoke_by_id tid sid uid)
        known_session done
        RefreshTokens.revoke_by_session tid sid
        denylist_session svc tid now (some sess)
        audit (some uid) "" "session_revoked" ip true "")
    ]
