-- ===== src/Services/Refresh/Rotation.antt =====
-- `Refresh` of internal/services/auth_service.go when it succeeds: what it had checked, what it has
-- replaced, and that the old token is spent.
use finn_api_go.Prelude.{
  ℕ, ◌==◌, ◌≡◌, ◌≢◌, ◌≤◌, refl, ◌∙◌, ap, sym, String, str_eq, is_empty, Bool, true, false, not,
  ◌&&◌, Option, some, List, [], ◌∷◌, ◌++◌, arith, Option-cases, inl, inr,
}
use finn_api_go.Models.{User, Session, RefreshToken}
use finn_api_go.Store.{InMemoryStore}
use finn_api_go.Database.{World, ok, query, tail_faults}
use finn_api_go.Database.Table.{any_where, first_where, update_where}
use finn_api_go.Database.Rows.{first_where-update_where, first_where-append, first_where-matches}
use finn_api_go.Repositories.Scope.{is_user}
use finn_api_go.Repositories.Users
use finn_api_go.Repositories.Sessions
use finn_api_go.Repositories.RefreshTokens
use finn_api_go.Repositories.RefreshTokens.{has_hash, is_open, revoked_row}
use finn_api_go.Services.{Env, AuthService, TokenPair}
use finn_api_go.Services.Support.{audit, count_metric}
use finn_api_go.Services.Issue.{issue_token_pair}
use finn_api_go.Services.Refresh.{
  refresh, refresh_row, renew_pair, rotate, check_session, hash_token,
}
use finn_api_go.Services.Refresh.Frame.{StateReads, Kept, Issued, Adds, issue_token_pair-Adds}

module _ (env : Env) (svc : AuthService) (tid : String) (now : ℕ) where
  revoke-ok :
      (rt : RefreshToken) (w : World)
      → (RefreshTokens.revoke tid rt w).0 ≡ ok tt
      → let w' = (RefreshTokens.revoke tid rt w).1 in
        (w'.users ≡ w.users)
        × (w'.refresh_tokens ≡ update_where (is_open tid w rt) (revoked_row tid) w.refresh_tokens)
  unfolding RefreshTokens.revoke query
  revoke-ok rt w h = (ground arith, ground arith)

  -- The presented row is revoked, and the new one comes last.
  abbrev pub Rotated : RefreshToken → User → TokenPair → World → World → Type 0
  Rotated rt u pair w w' =
      (w'.users ≡ w.users)
      × (new : RefreshToken) × (w'.refresh_tokens
          ≡ update_where (is_open tid w rt) (revoked_row tid) w.refresh_tokens ++ new ∷ [])
      × (sid : String) × (is_empty rt.session_id ≡ false → sid ≡ rt.session_id)
      × Issued env svc tid now u sid pair new

  -- The rows after the compare and set, from the users and the rows before it.
  abbrev spent_rows : RefreshToken → List User → List RefreshToken → List RefreshToken
  spent_rows rt us ts =
      update_where (λ t. any_where (is_user tid t.user_id) us && t.id == rt.id && not t.revoked)
        (revoked_row tid) ts

  Rotated-Kept :
      (rt : RefreshToken) (u : User) (pair : TokenPair) (w w₁ w₂ : World)
      → Kept w w₁
      → Rotated rt u pair w₁ w₂
      → Rotated rt u pair w w₂
  Rotated-Kept rt u pair w w₁ w₂ k r = (
    r.0 ∙ k.0,
    r.1,
    r.2
        ∙ ap (λ us. spent_rows rt us w₁.refresh_tokens ++ r.1 ∷ []) k.0
        ∙ ap (λ ts. spent_rows rt w.users ts ++ r.1 ∷ []) k.1,
    r.3,
    r.4,
    r.5,
  )

  renew_pair-Adds :
      StateReads svc
      → (rt : RefreshToken) (u : User) (ip ua : String) (pair : TokenPair) (w : World)
      → (renew_pair env svc tid now rt u ip ua w).0 ≡ ok pair
      → (sid : String) × (is_empty rt.session_id ≡ false → sid ≡ rt.session_id)
        × Adds env svc tid now u sid pair w (renew_pair env svc tid now rt u ip ua w).1
  unfolding renew_pair count_metric audit
  renew_pair-Adds reads rt u ip ua pair w h =
      let issued : (issue_token_pair env svc tid now u ip ua rt.session_id w).0 ≡ ok pair =
        ground arith in
      let (sid, same, adds) =
        issue_token_pair-Adds env svc tid now reads u ip ua rt.session_id pair w issued in
      (sid, same, (ground (arith, issued, adds.0), adds.1, ground (arith, issued, adds.2), adds.3))

  rotate-Rotated :
      StateReads svc
      → (rt : RefreshToken) (u : User) (ip ua : String) (pair : TokenPair) (w : World)
      → (rotate env svc tid now rt u ip ua w).0 ≡ ok pair
      → Rotated rt u pair w (rotate env svc tid now rt u ip ua w).1
  unfolding rotate
  rotate-Rotated reads rt u ip ua pair w h =
      let won : (RefreshTokens.revoke tid rt w).0 ≡ ok tt = ground arith in
      let w₁ = (RefreshTokens.revoke tid rt w).1 in
      let renewed : (renew_pair env svc tid now rt u ip ua w₁).0 ≡ ok pair = ground (arith, won) in
      let (sid, same, adds) = renew_pair-Adds reads rt u ip ua pair w₁ renewed in
      let r = revoke-ok rt w won in
      (ground (arith, won, r, adds.0), adds.1, ground (arith, won, r, adds.2), sid, same, adds.3)

  -- The session of the token, where it has one and sessions are wired, stands.
  abbrev pub SessionStands : RefreshToken → World → Type 0
  SessionStands rt w =
      is_empty rt.session_id ≡ false
      → svc.sessions_wired ≡ true
      → (s : Session) × (first_where (Sessions.is_session tid rt.session_id) w.sessions ≡ some s)
        × (s.revoked ≡ false)
        × (now ≤ s.expires_at)

  check_session-ok :
      (rt : RefreshToken) (ip : String) (w : World)
      → (check_session env svc tid now rt ip w).0 ≡ ok tt
      → let w' = (check_session env svc tid now rt ip w).1 in
        (w' ≡ record w { faults = w'.faults }) × SessionStands rt w
  unfolding check_session Sessions.find_by_id query
  check_session-ok rt ip w h =
      elim (Option-cases (first_where (Sessions.is_session tid rt.session_id) w.sessions)) [
        | inl unknown ↦ (ground (arith, unknown), λ n wired. ground (arith, unknown))
        | inr (s, e) ↦ (ground (arith, e), λ n wired. (s, e, ground (arith, e), ground (arith, e)))
      ]

  -- The user may sign in.
  abbrev pub MaySignIn : RefreshToken → User → World → Type 0
  MaySignIn rt u w =
      (first_where (is_user tid rt.user_id) w.users ≡ some u)
      × (u.is_active ≡ true)
      × (u.admin_suspended ≡ false)

  refresh_row-Rotated :
      StateReads svc
      → (rt : RefreshToken) (ip ua : String) (pair : TokenPair) (w : World)
      → (refresh_row env svc tid now rt ip ua w).0 ≡ ok pair
      → (rt.revoked ≡ false)
        × (now ≤ rt.expires_at)
        × SessionStands rt w
        × (u : User) × MaySignIn rt u w
        × Rotated rt u pair w (refresh_row env svc tid now rt ip ua w).1
  unfolding refresh_row Users.find_by_id query
  refresh_row-Rotated reads rt ip ua pair w h =
      elim (Option-cases (first_where (is_user tid rt.user_id) w.users)) [
        | inl unknown ↦ ground (arith, unknown)
        | inr (u, e) ↦
            let w₁ : World = record w { faults = tail_faults w.faults } in
            let checked : (check_session env svc tid now rt ip w₁).0 ≡ ok tt = ground (arith, e) in
            let c = check_session-ok rt ip w₁ checked in
            let w₂ = (check_session env svc tid now rt ip w₁).1 in
            let rotated : (rotate env svc tid now rt u ip ua w₂).0 ≡ ok pair =
              ground (arith, e, checked) in
            let r = rotate-Rotated reads rt u ip ua pair w₂ rotated in
            let kept : Kept w w₂ = (ground (arith, c.0), ground (arith, c.0)) in
            let same : (refresh_row env svc tid now rt ip ua w).1
                ≡ (rotate env svc tid now rt u ip ua w₂).1 =
              ground (arith, e, checked) in
            (
              ground (arith, e),
              ground (arith, e),
              c.1,
              u,
              (e, ground (arith, e), ground (arith, e)),
              rw same (Rotated-Kept rt u pair w w₂ (rotate env svc tid now rt u ip ua w₂).1 kept r),
            )
      ]

  -- If `Refresh` answers with a pair, then the token was in the table for the tenant, not revoked
  -- and not expired; its session, where it has one, was neither revoked nor over; its user was
  -- active and not suspended; and afterwards the row presented is revoked and one new row has come,
  -- not revoked, of the same user and session, with the hash of the token told to the client.
  -- (The wired check of the state, if any, writes neither users nor refresh tokens.)
  pub refresh_rotates :
      StateReads svc
      → (token ip ua : String) (pair : TokenPair) (w : World)
      → (refresh env svc tid now token ip ua w).0 ≡ ok pair
      → (rt : RefreshToken) × (first_where (has_hash tid w (hash_token env token)) w.refresh_tokens
          ≡ some rt)
        × (rt.revoked ≡ false)
        × (now ≤ rt.expires_at)
        × SessionStands rt w
        × (u : User) × MaySignIn rt u w
        × Rotated rt u pair w (refresh env svc tid now token ip ua w).1
  unfolding refresh RefreshTokens.find_by_hash query
  refresh_rotates reads token ip ua pair w h =
      elim (Option-cases (first_where (has_hash tid w (hash_token env token)) w.refresh_tokens)) [
        | inl unknown ↦ ground (arith, unknown)
        | inr (rt, e) ↦
            let w₁ : World = record w { faults = tail_faults w.faults } in
            let done : (refresh_row env svc tid now rt ip ua w₁).0 ≡ ok pair = ground (arith, e) in
            let same : (refresh env svc tid now token ip ua w).1
                ≡ (refresh_row env svc tid now rt ip ua w₁).1 =
              ground (arith, e) in
            let (live, fresh, stands, u, may, rotated) =
              refresh_row-Rotated reads rt ip ua pair w₁ done in
            (rt, e, live, fresh, stands, u, may, rw same rotated)
      ]

-- The row that a rotated token's hash finds afterwards.
Rotated-spent :
    (env : Env) (svc : AuthService) (tid : String) (now : ℕ) (hash : String) (rt : RefreshToken)
    (u : User) (pair : TokenPair) (w w' : World)
    → first_where (has_hash tid w hash) w.refresh_tokens ≡ some rt
    → rt.revoked ≡ false
    → Rotated env svc tid now rt u pair w w'
    → first_where (has_hash tid w' hash) w'.refresh_tokens ≡ some (revoked_row tid rt)
Rotated-spent env svc tid now hash rt u pair w w' e live r =
    let q : RefreshToken → Bool = has_hash tid w hash in
    let m = first_where-matches q w.refresh_tokens rt e in
    let open_row : is_open tid w rt rt ≡ true = ground (arith, m) in
    let spent =
      first_where-update_where q (is_open tid w rt) (revoked_row tid) w.refresh_tokens rt
        (λ t. refl) e open_row in
    let found =
      first_where-append q (update_where (is_open tid w rt) (revoked_row tid) w.refresh_tokens)
        (r.1 ∷ []) (revoked_row tid rt) spent in
    ap
      (λ us.
        first_where (λ t. any_where (is_user tid t.user_id) us && str_eq t.token_hash hash)
          w'.refresh_tokens)
      r.0
    ∙ ap (λ rows. first_where q rows) r.2
    ∙ found

-- A refresh token that has been rotated is never accepted again: whenever it is presented later,
-- from wherever, and whatever the shared store has lost or gained and the database fails at,
-- `Refresh` does not answer with a pair. (The later call finds the database as the first one left
-- it; the wired check of the state, if any, writes neither users nor refresh tokens.)
pub refresh_once :
    (env : Env) (svc : AuthService) (tid : String) (now later : ℕ) (token ip ip' ua ua' : String)
    (pair pair' : TokenPair) (w : World) (store' : Option InMemoryStore) (faults' : List Bool)
    → StateReads svc
    → (refresh env svc tid now token ip ua w).0 ≡ ok pair
    → let w' = (refresh env svc tid now token ip ua w).1 in
      (refresh env svc tid later token ip' ua' (record w' { store = store'; faults = faults' })).0
      ≢ ok pair'
refresh_once env svc tid now later token ip ip' ua ua' pair pair' w store' faults' reads h again =
    let w' = (refresh env svc tid now token ip ua w).1 in
    let v : World = record w' { store = store'; faults = faults' } in
    let (rt, e, live, fresh, stands, u, may, r) =
      refresh_rotates env svc tid now reads token ip ua pair w h in
    let spent = Rotated-spent env svc tid now (hash_token env token) rt u pair w w' e live r in
    let (rt', e', live', f', st', u', m', r') =
      refresh_rotates env svc tid later reads token ip' ua' pair' v again in
    let same : some rt' ≡ some (revoked_row tid rt) = sym e' ∙ spent in ground (arith, same, live')
