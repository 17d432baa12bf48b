-- ===== src/Services/Passwords/SingleUse.antt =====
-- A single-use token of internal/services/auth_service.go is used once.
use finn_api_go.Prelude.{
  ℕ, ◌≡◌, ◌≢◌, ◌⊎◌, inl, inr, Option-cases, String, eq_refl, Bool, true, false, Option, none, some,
  List, arith,
}
use finn_api_go.Store.{InMemoryStore}
use finn_api_go.Database.{
  World, raise, user_not_found, Action, ok, err, ⊤, ◌>>=◌, query, invalid_token,
}
use finn_api_go.Database.Table.{any_where, first_where}
use finn_api_go.Repositories.UsedTokens.{is_jti, is_used, mark_used}
use finn_api_go.Jwt.{Claims}
use finn_api_go.Services.{Env, AuthService}
use finn_api_go.Services.Support.{store_call}
use finn_api_go.Services.Tokens.{mark_token_used, consume_single_use_token, mark_token_durable}
use finn_api_go.Services.Passwords.{
  spend, expiry_of, typed_claims, reset_user, replace_password, reset_password, accept_password,
}
use finn_api_go.Jwt.Keys.{verify}
use finn_api_go.Jwt.{reset}
use finn_api_go.Repositories.Users
use finn_api_go.Repositories.Scope.{update_user, is_user}
use finn_api_go.Repositories.RefreshTokens
use finn_api_go.Repositories.Sessions
use finn_api_go.Services.Support.{store_do, hash_password, draw, audit}
use finn_api_go.Services.Tokens.{apply_credential_change, with_tenant, jti_store_ttl}
use finn_api_go.Models.{User}
use finn_api_go.Database.{transaction}

abbrev pub Spent : String → World → Type 0
Spent jti w = any_where (is_jti jti) w.used_tokens ≡ true

module _ (env : Env) (svc : AuthService) (tid : String)
    (durable : svc.used_tokens_wired ≡ true) where
  mark_token_durable-Spent :
      (now : ℕ) (jti token_type : String) (uid exp : ℕ) (w : World)
      → (mark_token_durable svc tid now jti token_type uid exp w).0 ≡ ok tt
      → Spent jti (mark_token_durable svc tid now jti token_type uid exp w).1
  unfolding mark_token_durable mark_used query any_where
  mark_token_durable-Spent now jti token_type uid exp w h = ground (arith, eq_refl jti)

  consume-Spent :
      (now : ℕ) (jti : String) (ttl : ℕ) (w : World)
      → Spent jti w
      → (consume_single_use_token svc tid now jti ttl w).0 ≡ ok false
  unfolding consume_single_use_token is_used query mark_token_used store_call
  consume-Spent now jti ttl w h = ground arith

  spend-Spent :
      (now : ℕ) (c : Claims) (token_type : String) (uid : ℕ) (w : World)
      → (spend env svc tid now c token_type uid w).0 ≡ ok tt
      → Spent c.jti (spend env svc tid now c token_type uid w).1
  unfolding spend
  spend-Spent now c token_type uid w h =
      let w' = (consume_single_use_token svc tid now c.jti (jti_store_ttl svc tid now c) w).1 in
      ground (arith, mark_token_durable-Spent now c.jti token_type uid (expiry_of env svc c) w')

  spend-refused :
      (now : ℕ) (c : Claims) (token_type : String) (uid : ℕ) (w : World)
      → Spent c.jti w
      → (spend env svc tid now c token_type uid w).0 ≡ err invalid_token
  unfolding spend
  spend-refused now c token_type uid w h =
      ground (arith, consume-Spent now c.jti (jti_store_ttl svc tid now c) w h)

  hash_password-used_tokens :
      (pw : String) (w : World) → (hash_password env pw w).1.used_tokens ≡ w.used_tokens
  unfolding hash_password draw
  hash_password-used_tokens pw w = ground arith

  apply_credential_change-used_tokens :
      (now : ℕ) (user : User) (hashed : String) (w : World)
      → (apply_credential_change svc tid now user hashed w).1.used_tokens ≡ w.used_tokens
  unfolding apply_credential_change Users.credential_change_tx transaction update_user query
      RefreshTokens.revoke_all_for_user_tx Sessions.revoke_all_for_user_tx store_do store_call
  apply_credential_change-used_tokens now user hashed w = ground arith

  -- From the spent token on, nothing gives it back.
  replace_password-used_tokens :
      (now : ℕ) (user : User) (pw event ip : String) (w : World)
      → (replace_password env svc tid now user pw event ip w).1.used_tokens ≡ w.used_tokens
  unfolding replace_password audit
  replace_password-used_tokens now user pw event ip w =
      grind (arith, hash_password-used_tokens, apply_credential_change-used_tokens)

  reset_user-Spent :
      (now : ℕ) (c : Claims) (user : User) (pw ip : String) (w : World)
      → (reset_user env svc tid now c user pw ip w).0 ≡ ok tt
      → Spent c.jti (reset_user env svc tid now c user pw ip w).1
  unfolding reset_user accept_password
  reset_user-Spent now c user pw ip w h =
      let spent = (spend env svc tid now c reset user.id w).1 in
      ground (
        arith,
        spend-Spent now c reset user.id w,
        replace_password-used_tokens now user pw "password_reset" ip spent,
      )

  reset_user-refused :
      (now : ℕ) (c : Claims) (user : User) (pw ip : String) (w : World)
      → Spent c.jti w
      → (reset_user env svc tid now c user pw ip w).0 ≢ ok tt
  unfolding reset_user accept_password
  reset_user-refused now c user pw ip w s = ground (arith, spend-refused now c reset user.id w s)

typed_claims-eq :
    (env : Env) (svc : AuthService) (now : ℕ) (token_type token : String) (c : Claims) (w : World)
    → verify env.jwt_lib svc.jwt now token ≡ some c
    → (typed_claims env svc now token_type token w ≡ (ok c, w))
      ⊎ (typed_claims env svc now token_type token w ≡ (err invalid_token, w))
unfolding typed_claims
typed_claims-eq env svc now token_type token c w v = ground arith

-- The rest of the handler, once it has read the token.
abbrev find_and_reset : Env → AuthService → ℕ → Claims → String → String → Action ⊤
find_and_reset env svc now c pw ip =
    Users.find_by_id (with_tenant c.tenant_id) c.user_id >>= λ found. elim found [
      | none ↦ raise user_not_found
      | some user ↦ reset_user env svc (with_tenant c.tenant_id) now c user pw ip
    ]

module _ (env : Env) (svc : AuthService) (now : ℕ) (c : Claims) (pw ip : String) (w : World)
    (d : svc.used_tokens_wired ≡ true) where
  find_and_reset-Spent :
      (find_and_reset env svc now c pw ip w).0 ≡ ok tt
      → Spent c.jti (find_and_reset env svc now c pw ip w).1
  unfolding Users.find_by_id query
  find_and_reset-Spent h =
      elim (Option-cases (first_where (is_user (with_tenant c.tenant_id) c.user_id) w.users)) [
        | inl unknown ↦ ground (arith, unknown)
        | inr found ↦
            let tid = with_tenant c.tenant_id in
            let w' : World = (Users.find_by_id tid c.user_id w).1 in
            ground (arith, found.1, reset_user-Spent env svc tid d now c found.0 pw ip w')
      ]

  find_and_reset-refused : Spent c.jti w → (find_and_reset env svc now c pw ip w).0 ≢ ok tt
  unfolding Users.find_by_id query
  find_and_reset-refused s h =
      elim (Option-cases (first_where (is_user (with_tenant c.tenant_id) c.user_id) w.users)) [
        | inl unknown ↦ ground (arith, unknown)
        | inr found ↦
            let tid = with_tenant c.tenant_id in
            let w' : World = (Users.find_by_id tid c.user_id w).1 in
            ground (arith, found.1, reset_user-refused env svc tid d now c found.0 pw ip w')
      ]

-- What `ResetPassword` has done by the time it answers with success.
reset_password-Spent :
    (env : Env) (svc : AuthService) (now : ℕ) (token pw ip : String) (c : Claims) (w : World)
    → svc.used_tokens_wired ≡ true
    → verify env.jwt_lib svc.jwt now token ≡ some c
    → (reset_password env svc now token pw ip w).0 ≡ ok tt
    → Spent c.jti (reset_password env svc now token pw ip w).1
unfolding reset_password
reset_password-Spent env svc now token pw ip c w d v h =
    elim (typed_claims-eq env svc now reset token c w v) [
      | inl read ↦ ground (arith, read, find_and_reset-Spent env svc now c pw ip w d)
      | inr bad ↦ ground (arith, bad)
    ]

reset_password_refused :
    (env : Env) (svc : AuthService) (now : ℕ) (token pw ip : String) (c : Claims) (w : World)
    → svc.used_tokens_wired ≡ true
    → verify env.jwt_lib svc.jwt now token ≡ some c
    → Spent c.jti w
    → (reset_password env svc now token pw ip w).0 ≢ ok tt
unfolding reset_password
reset_password_refused env svc now token pw ip c w d v s =
    elim (typed_claims-eq env svc now reset token c w v) [
      | inl read ↦ ground (arith, read, find_and_reset-refused env svc now c pw ip w d s)
      | inr bad ↦ ground (arith, bad)
    ]

-- A reset token that has once changed a password does so never again, whatever its later time,
-- new password and address are, and even if the shared store has meanwhile lost or gained any keys
-- and the database fails anywhere: `ResetPassword` does not succeed. (The durable table is wired,
-- and the later call finds it, and what else the database holds, as the first one left it; the
-- token reads as claims with the same jti.)
pub reset_password_once :
    (env : Env) (svc : AuthService) (now later : ℕ) (token pw pw' ip ip' : String) (c c' : Claims)
    (w : World) (store' : Option InMemoryStore) (faults' : List Bool)
    → svc.used_tokens_wired ≡ true
    → verify env.jwt_lib svc.jwt now token ≡ some c
    → verify env.jwt_lib svc.jwt later token ≡ some c'
    → c'.jti ≡ c.jti
    → (reset_password env svc now token pw ip w).0 ≡ ok tt
    → let w' = (reset_password env svc now token pw ip w).1 in
      (reset_password env svc later token pw' ip'
        (record w' { store = store'; faults = faults' })).0
      ≢ ok tt
reset_password_once env svc now later token pw pw' ip ip' c c' w store' faults' d v v' j h =
    let w' = (reset_password env svc now token pw ip w).1 in
    let spent : Spent c'.jti w' = rw j (reset_password-Spent env svc now token pw ip c w d v h) in
    reset_password_refused env svc later token pw' ip' c'
      (record w' { store = store'; faults = faults' }) d v' spent
