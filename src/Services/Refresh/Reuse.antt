-- ===== src/Services/Refresh/Reuse.antt =====
-- The policy of internal/services/auth_service.go on a refresh token presented after its end: the
-- session dies, and only that session.
use finn_api_go.Prelude.{
  ℕ, ◌-◌, ◌==◌, ◌≡◌, ◌≤◌, ◌<◌, refl, ap, ◌∙◌, String, str_eq, eq_refl, eq_iff, ◌<>◌, is_empty, Bool,
  true, false, not, ◌&&◌, Option, none, some, List, [], arith,
}
use finn_api_go.Prelude.Dict.{lookup-insert, lookup-erase}
use finn_api_go.Models.{User, Session, RefreshToken}
use finn_api_go.Store.{InMemoryStore, text, revoked, expired, expiry}
use finn_api_go.Store
use finn_api_go.Database.{World, ok, err, query, invalid_token, tail_faults}
use finn_api_go.Database.Table.{any_where, first_where, filter_where, update_where}
use finn_api_go.Database.Rows.{AllRevoked, AllRevoked-update_where, filter_where-update_where}
use finn_api_go.Repositories.Scope.{is_user}
use finn_api_go.Repositories.Users
use finn_api_go.Repositories.Sessions
use finn_api_go.Repositories.RefreshTokens
use finn_api_go.Repositories.RefreshTokens.{has_hash, revoked_row}
use finn_api_go.Services.{Env, AuthService}
use finn_api_go.Services.Support.{audit, send, store_do, store_call, count_metric}
use finn_api_go.Services.Tokens.{denylist_session}
use finn_api_go.Services.Refresh.{
  refresh, refresh_row, count_reuse, contain_family, notify_owner, handle_token_reuse,
  notify_security_async, hash_token,
}

module _ (tid : String) where
  -- The family of a session, and everything else.
  abbrev pub in_family : List User → String → RefreshToken → Bool
  in_family us sid t = any_where (is_user tid t.user_id) us && str_eq t.session_id sid

  abbrev family_live : List User → String → RefreshToken → Bool
  family_live us sid t =
      any_where (is_user tid t.user_id) us && str_eq t.session_id sid && not t.revoked

  abbrev pub session_of : RefreshToken → Session → Bool
  session_of rt s = Sessions.is_session tid rt.session_id s && s.user_id == rt.user_id

  -- Every token of the family is revoked, and the session; the other tokens, sessions and the users
  -- are as before.
  abbrev pub Isolated : RefreshToken → World → World → Type 0
  Isolated rt w w' =
      AllRevoked (in_family w.users rt.session_id) (λ t. t.revoked) w'.refresh_tokens
      × AllRevoked (session_of rt) (λ s. s.revoked) w'.sessions
      × (filter_where (λ t. not (in_family w.users rt.session_id t)) w'.refresh_tokens
          ≡ filter_where (λ t. not (in_family w.users rt.session_id t)) w.refresh_tokens)
      × (filter_where (λ s. not (session_of rt s)) w'.sessions
          ≡ filter_where (λ s. not (session_of rt s)) w.sessions)
      × (w'.users ≡ w.users)

  -- The rows that the containment writes.
  abbrev Contained : RefreshToken → World → World → Type 0
  Contained rt w w' =
      (w'.refresh_tokens
        ≡ update_where (family_live w.users rt.session_id) (revoked_row tid) w.refresh_tokens)
      × (w'.sessions ≡ update_where (session_of rt) (Sessions.revoke tid) w.sessions)
      × (w'.users ≡ w.users)

  Contained-Isolated : (rt : RefreshToken) (w w' : World) → Contained rt w w' → Isolated rt w w'
  Contained-Isolated rt w w' c = (
    rw c.0 (
        AllRevoked-update_where (in_family w.users rt.session_id) (λ t. t.revoked)
          (family_live w.users rt.session_id) (revoked_row tid) w.refresh_tokens (λ t. refl)
          (λ t. refl) (λ t m r. ground arith)),
    rw c.1 (
        AllRevoked-update_where (session_of rt) (λ s. s.revoked) (session_of rt)
          (Sessions.revoke tid) w.sessions (λ s. refl) (λ s. refl) (λ s m r. m)),
    rw c.0 (
        filter_where-update_where _ (family_live w.users rt.session_id) (revoked_row tid)
          w.refresh_tokens (λ t. refl) (λ t h. ground arith)),
    rw c.1 (
        filter_where-update_where _ (session_of rt) (Sessions.revoke tid) w.sessions (λ t. refl)
          (λ t h. ground arith)),
    c.2,
  )

module _ (env : Env) (svc : AuthService) (tid : String) (now : ℕ) where
  denylist_session-frame :
      (o : Option Session) (w : World)
      → let (r, w') = denylist_session svc tid now o w in
        (r ≡ ok tt)
        × (w'.users ≡ w.users)
        × (w'.sessions ≡ w.sessions)
        × (w'.refresh_tokens ≡ w.refresh_tokens)
        × (w'.faults ≡ w.faults)
  unfolding denylist_session store_do store_call
  denylist_session-frame none w = (refl, refl, refl, refl, refl)
  denylist_session-frame (some s) w =
      (ground arith, ground arith, ground arith, ground arith, ground arith)

  notify-frame :
      (uid : ℕ) (event body : String) (w : World)
      → let (r, w') = notify_security_async env svc tid now uid event body w in
        (r ≡ ok tt)
        × (w'.users ≡ w.users)
        × (w'.sessions ≡ w.sessions)
        × (w'.refresh_tokens ≡ w.refresh_tokens)
        × (w'.store ≡ w.store)
  unfolding notify_security_async Users.find_by_id query send
  notify-frame uid event body w =
      (ground arith, ground arith, ground arith, ground arith, ground arith)

  contain_family-Contained :
      (rt : RefreshToken) (w : World)
      → w.faults ≡ []
      → let (r, w') = contain_family env svc tid now rt w in
        (r ≡ ok (first_where (Sessions.is_session tid rt.session_id) w.sessions))
        × Contained tid rt w w'
        × (w'.store ≡ w.store)
  unfolding contain_family Sessions.find_by_id Sessions.revoke_by_id query
      RefreshTokens.revoke_by_session
  contain_family-Contained rt w f =
      (ground arith, (ground arith, ground arith, ground arith), ground arith)

  -- A token of the session is denied by the store up to the end of the session.
  abbrev pub Denied : Session → World → Type 0
  Denied s w =
      (kv : InMemoryStore) × (w.store ≡ some kv)
      × ((later : ℕ) (jti : String) → later ≤ s.expires_at → (revoked later jti s.id kv).0 ≡ true)

  set-revoked :
      (s : Session) (kv : InMemoryStore)
      → now < s.expires_at
      → (later : ℕ) (jti : String) → later ≤ s.expires_at
      → let kv' =
          Store.set now ("denylist:sid:" <> s.id) kv (text "revoked") (s.expires_at - now) in
        (revoked later jti s.id kv').0 ≡ true
  unfolding revoked Store.get Store.set expired expiry
  set-revoked s kv l later jti h = grind (arith, lookup-insert, lookup-erase, eq_refl, eq_iff)

  denylist_session-Denied :
      (s : Session) (kv : InMemoryStore) (w : World)
      → w.store ≡ some kv
      → is_empty s.id ≡ false
      → now < s.expires_at
      → Denied s (denylist_session svc tid now (some s) w).1
  unfolding denylist_session store_do store_call
  denylist_session-Denied s kv w e n l =
      let ttl = s.expires_at - now in
      (
        Store.set now ("denylist:sid:" <> s.id) kv (text "revoked") ttl,
        ground arith,
        set-revoked s kv l,
      )

  notify_owner-frame :
      (rt : RefreshToken) (o : Option Session) (w : World)
      → let (r, w') = notify_owner env svc tid now rt o w in
        (r ≡ ok tt)
        × (w'.users ≡ w.users)
        × (w'.sessions ≡ w.sessions)
        × (w'.refresh_tokens ≡ w.refresh_tokens)
        × (w'.store ≡ w.store)
  unfolding notify_owner
  notify_owner-frame rt none w = (refl, refl, refl, refl, refl)
  notify_owner-frame rt (some s) w = notify-frame rt.user_id _ _ w

  handle_token_reuse-Contained :
      (rt : RefreshToken) (ip detail : String) (w : World)
      → w.faults ≡ []
      → is_empty rt.session_id ≡ false
      → svc.sessions_wired ≡ true
      → let (r, w') = handle_token_reuse env svc tid now rt ip detail w in
        (r ≡ ok tt)
        × Contained tid rt w w'
        × (w'.store
            ≡ (denylist_session svc tid now
                (first_where (Sessions.is_session tid rt.session_id) w.sessions)
                (contain_family env svc tid now rt w).1).1.store)
  unfolding handle_token_reuse audit
  handle_token_reuse-Contained rt ip detail w f n wired =
      let sess = first_where (Sessions.is_session tid rt.session_id) w.sessions in
      let w₁ = (contain_family env svc tid now rt w).1 in
      let w₂ = (denylist_session svc tid now sess w₁).1 in
      let w₃ : World =
        (audit (some rt.user_id) "" "token_reuse" ip false (detail <> " (session family revoked)")
          w₂).1 in
      let c = contain_family-Contained rt w f in
      let d = denylist_session-frame sess w₁ in
      let k = notify_owner-frame rt sess w₃ in
      (
        ground (arith, c.0, d, k),
        (ground (arith, c, d, k), ground (arith, c, d, k), ground (arith, c, d, k)),
        ground (arith, c, d, k),
      )

  -- The session of the row, if it is found and runs on, is denied by the store, if there is one.
  abbrev pub DeniedIfLive : RefreshToken → World → World → Type 0
  DeniedIfLive rt w w' =
      (s : Session) (kv : InMemoryStore)
      → first_where (Sessions.is_session tid rt.session_id) w.sessions ≡ some s
      → w.store ≡ some kv
      → is_empty s.id ≡ false
      → now < s.expires_at
      → Denied s w'

  refresh_row-Contained :
      (rt : RefreshToken) (ip ua : String) (w : World)
      → w.faults ≡ []
      → rt.revoked ≡ true
      → is_empty rt.session_id ≡ false
      → svc.sessions_wired ≡ true
      → let (r, w') = refresh_row env svc tid now rt ip ua w in
        (r ≡ err invalid_token) × Contained tid rt w w' × DeniedIfLive rt w w'
  unfolding refresh_row count_metric
  refresh_row-Contained rt ip ua w f dead n wired =
      let w₁ : World = (count_metric count_reuse w).1 in
      let h = handle_token_reuse-Contained rt ip "revoked refresh token presented" w₁ f n wired in
      (
        ground (arith, h.0),
        (ground (arith, h), ground (arith, h), ground (arith, h)),
        λ s kv e store id runs.
            let c = contain_family-Contained rt w₁ f in
            let w₂ = (contain_family env svc tid now rt w₁).1 in
            let kept : w₂.store ≡ some kv = c.2 ∙ store in
            let (kv', put, denied) = denylist_session-Denied s kv w₂ kept id runs in
            (kv', ground (arith, h.2, e, put), denied),
      )

  -- A refresh token that is presented after it was revoked is refused, and its session dies: every
  -- refresh token of the session and the session itself are revoked, the store denies every access
  -- token of the session up to the session's end, and nothing else changes among the tenant's users,
  -- sessions and refresh tokens. (The row belongs to a session, sessions are wired, and no call of
  -- the database fails; the store denies where there is one and the session is found and runs on.)
  pub reuse_isolates :
      (token ip ua : String) (rt : RefreshToken) (w : World)
      → w.faults ≡ []
      → first_where (has_hash tid w (hash_token env token)) w.refresh_tokens ≡ some rt
      → rt.revoked ≡ true
      → is_empty rt.session_id ≡ false
      → svc.sessions_wired ≡ true
      → let (r, w') = refresh env svc tid now token ip ua w in
        (r ≡ err invalid_token) × Isolated tid rt w w' × DeniedIfLive rt w w'
  unfolding refresh RefreshTokens.find_by_hash query
  reuse_isolates token ip ua rt w f e dead n wired =
      let w₁ : World = record w { faults = tail_faults w.faults } in
      let none_left : w₁.faults ≡ [] = ground (arith, f) in
      let h = refresh_row-Contained rt ip ua w₁ none_left dead n wired in
      let same : refresh env svc tid now token ip ua w ≡ refresh_row env svc tid now rt ip ua w₁ =
        ground (arith, e, f) in
      (
        ap (λ p. p.0) same ∙ h.0,
        rw same (Contained-Isolated tid rt w₁ (refresh_row env svc tid now rt ip ua w₁).1 h.1),
        rw same h.2,
      )
