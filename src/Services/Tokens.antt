-- ===== src/Services/Tokens.antt =====
-- internal/services/auth_service.go: what ends a token's life before its time. The denylists, the
-- password version, the single-use tokens, and a change of credentials.
use finn_api_go.Prelude.{
  ℕ, ◌+◌, ◌-◌, String, ◌<>◌, is_empty, Bool, true, false, not, Option, none, some, ltb,
  if◌then◌else◌,
}
use finn_api_go.Prelude.Int64.{Int64, show_uint}
use finn_api_go.Models.{User, Session}
use finn_api_go.Store.{Value, int64, int, text, InMemoryStore}
use finn_api_go.Store
use finn_api_go.Database.{
  Action, ok, err, ⊤, ◌>>=◌, ◌>>◌, pure, raise, attempt, when, user_not_found,
}
use finn_api_go.Repositories.Users
use finn_api_go.Repositories.Sessions
use finn_api_go.Repositories.RefreshTokens
use finn_api_go.Repositories.UsedTokens
use finn_api_go.Jwt.{Claims}
use finn_api_go.Services.{AuthService, hour, day, pwd_ver_cache_ttl}
use finn_api_go.Services.Support.{store_call, store_do, parse_int}

-- `tenant.WithTenant`, then `FromContext`: the empty id is the default one.
unfoldable pub with_tenant : String → String
with_tenant tid = if is_empty tid then "default" else tid

-- `tenant.PasswordVersionKey`
unfoldable pub password_version_key : String → ℕ → String
password_version_key tid uid = "pwdver:" <> tid <> ":" <> show_uint uid

module _ (svc : AuthService) (tid : String) (now : ℕ) where
  unfoldable pub denylist_access_token : String → Action ⊤
  denylist_access_token jti =
      when (not (is_empty jti)) (
        store_do
          (λ s. Store.set now ("denylist:jti:" <> jti) s (text "revoked") svc.cfg.access_ttl))

  -- Up to the end of the session, or for a grace period if it is over.
  unfoldable pub denylist_session : Option Session → Action ⊤
  denylist_session none = pure tt
  denylist_session (some sess) =
      let ttl = if ltb now sess.expires_at then sess.expires_at - now else svc.cfg.access_ttl in
      when (not (is_empty sess.id))
        (store_do (λ s. Store.set now ("denylist:sid:" <> sess.id) s (text "revoked") ttl))

  unfoldable pub bump_pwd_version : ℕ → Action ⊤
  bump_pwd_version uid = do
    Users.bump_pwd_version tid uid
    store_do (Store.delete now (password_version_key tid uid))

  -- A cached value, if it reads as a number.
  unfoldable pub cached_version : Option Value → Option Int64
  cached_version none = none
  cached_version (some (int64 n)) = some n
  cached_version (some (int n)) = some n
  cached_version (some (text s)) = let (n, valid) = parse_int s in if valid then some n else none

  unfoldable pub current_pwd_version : ℕ → Action Int64
  current_pwd_version uid = do
    let key = password_version_key tid uid
    cached ← store_call none (Store.get now key)
    elim (cached_version cached) [
      | some n ↦ pure n
      | none ↦ do
        found ← Users.find_by_id tid uid
        elim found [
          | none ↦ raise user_not_found
          | some user ↦ do
            store_do (λ s. Store.set now key s (int64 user.pwd_version) pwd_ver_cache_ttl)
            pure user.pwd_version
        ]
    ]

  unfoldable pub mark_token_used : String → ℕ → Action Bool
  mark_token_used jti ttl =
      store_call true (λ s. Store.set_nx now ("jti:" <> jti) s (text "used") ttl)

  unfoldable pub jti_store_ttl : Claims → ℕ
  jti_store_ttl c = elim c.expires_at [
    | none ↦ day
    | some t ↦ if ltb now t then (t - now) + hour else day
  ]

  unfoldable pub mark_token_durable : String → String → ℕ → ℕ → Action ⊤
  mark_token_durable jti token_type uid exp =
      if svc.used_tokens_wired
      then (do
        _ ←
            UsedTokens.mark_used
              (record { jti = jti; token_type = token_type; user_id = uid; expires_at = exp })
        pure tt)
      else pure tt

  -- Both guards: the store, and on a miss there the durable table; a lookup that fails refuses.
  unfoldable pub consume_single_use_token : String → ℕ → Action Bool
  consume_single_use_token jti ttl = do
    fresh ← mark_token_used jti ttl
    if not fresh then pure false else if not svc.used_tokens_wired then pure true else (do
      used ← attempt (UsedTokens.is_used jti)
      pure (elim used [ ok b ↦ not b | err e ↦ false ]))

  -- `applyCredentialChange` over the repositories, which have both capabilities: one transaction,
  -- then the cached version goes.
  unfoldable pub apply_credential_change : User → String → Action ⊤
  apply_credential_change user hashed = do
    Users.credential_change_tx tid user.id hashed (do
      RefreshTokens.revoke_all_for_user_tx tid user.id
      when svc.sessions_wired (Sessions.revoke_all_for_user_tx tid user.id))
    store_do (Store.delete now (password_version_key tid user.id))
