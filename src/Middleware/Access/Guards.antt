-- ===== src/Middleware/Access/Guards.antt =====
-- What a request has shown when the handlers of internal/middleware let it go on.
use finn_api_go.Prelude.{
  ℕ, ◌≡◌, ◌⊎◌, refl, String, eq_iff, is_empty, Bool, true, false, none, some, if◌then◌else◌, arith,
  Option-cases, Bool-cases, inl, inr, ◌<>◌,
}
use finn_api_go.Prelude.Int64.{Int64, lt64}
use finn_api_go.Database.{World, Result, ok, err, Action, ⊤}
use finn_api_go.Jwt.{Claims, JwtLib, JwtManager, access}
use finn_api_go.Jwt.Keys.{verify}
use finn_api_go.Identity.{check, suspend}
use finn_api_go.Identity.Contained.{suspend_refuses}
use finn_api_go.Middleware.Access.{
  Context, next, bound_tenant, bearer_token, pass, AuthOptions, check_state, check_denylist,
  check_version, check_account, authenticated, auth_middleware,
}

-- The state after the jti has been looked up.
abbrev pub jti_read : (String → World → Bool × World) → Claims → World → World
jti_read get c w = if is_empty c.jti then w else (get ("denylist:jti:" <> c.jti) w).1

module _ (lib : JwtLib) (m : JwtManager) (now : ℕ) (opt : AuthOptions) (header : String) where
  -- The header carries a token of the manager's, of the given type.
  abbrev pub Carries : String → Claims → Type 0
  Carries token_type c =
      (token : String) × (bearer_token header ≡ some token)
      × (verify lib m now token ≡ some c)
      × (c.token_type ≡ token_type)

  auth_middleware-next :
      (ctx ctx' : Context) (w : World)
      → (auth_middleware lib m now opt header ctx w).0 ≡ next ctx'
      → (c : Claims) × Carries access c
        × ((check_account opt c m.strict w).0 ≡ pass)
        × (ctx' ≡ authenticated c ctx)
  unfolding auth_middleware
  auth_middleware-next ctx ctx' w h = elim (Option-cases (bearer_token header)) [
    | inl n ↦ ground (arith, n)
    | inr (token, e) ↦ elim (Option-cases (verify lib m now token)) [
      | inl n ↦ ground (arith, n, e)
      | inr (c, v) ↦ (
        c,
        (token, e, v, ground (arith, e, v, eq_iff c.token_type access)),
        ground (arith, e, v),
        ground (arith, e, v),
      )
    ]
  ]

  check_account-state :
      (c : Claims) (w : World) (state : Claims → Action ⊤)
      → opt.state ≡ some state
      → (check_account opt c m.strict w).0 ≡ pass
      → (state c w).0 ≡ ok tt
  unfolding check_account check_state
  check_account-state c w state s h = ground (arith, s)

  check-tenant : (c : Claims) (w : World) → (check now c w).0 ≡ ok tt → bound_tenant c ≡ c.tenant_id
  unfolding check
  check-tenant c w h = ground arith

  -- Where the authority is wired, once `Suspend` has succeeded for a user no request goes on as that
  -- user of that tenant, whatever its header, as long as the users are as `Suspend` left them.
  pub suspended_stays_out :
      opt.state ≡ some (check now)
      → (tid : String) (uid : ℕ) (ctx ctx' : Context) (w v : World) → (suspend tid uid w).0 ≡ ok tt
      → v.users ≡ (suspend tid uid w).1.users
      → (auth_middleware lib m now opt header ctx v).0 ≡ next ctx'
      → ¬ ((ctx'.user_id ≡ some uid) × (ctx'.tenant_id ≡ tid))
  suspended_stays_out s tid uid ctx ctx' w v sus users h (as_user, as_tenant) =
      let (c, carries, account, seen) = auth_middleware-next ctx ctx' v h in
      let accepted = check_account-state c v (check now) s account in
      let t : c.tenant_id ≡ tid = ground (arith, check-tenant c v accepted, seen, as_tenant) in
      let u : c.user_id ≡ uid = ground (arith, seen, as_user) in
      suspend_refuses now c w v (rw (t, u) sus) (rw (t, u) users) accepted

  check_denylist-ok :
      (c : Claims) (get : String → World → Bool × World) (w : World)
      → opt.state ≡ none
      → opt.denylist ≡ some get
      → (check_denylist opt c w).0 ≡ pass
      → ((is_empty c.jti ≡ true) ⊎ ((get ("denylist:jti:" <> c.jti) w).0 ≡ false))
        × ((is_empty c.sid ≡ true)
            ⊎ ((get ("denylist:sid:" <> c.sid) (jti_read get c w)).0 ≡ false))
  unfolding check_denylist
  check_denylist-ok c get w s d h = (
    elim (Bool-cases (is_empty c.jti)) [ inl n ↦ inl n | inr n ↦ inr (ground (arith, s, d, n)) ],
    elim (Bool-cases (is_empty c.sid)) [ inl n ↦ inl n | inr n ↦ inr (ground (arith, s, d, n)) ],
  )

  check_version-ok :
      (c : Claims) (version : String → ℕ → Action Int64) (w : World)
      → opt.state ≡ none
      → opt.pwd_version ≡ some version
      → (check_version opt c w).0 ≡ pass
      → (current : Int64) × ((version (bound_tenant c) c.user_id w).0 ≡ ok current)
        × (lt64 c.pwd_ver current ≡ false)
  unfolding check_version
  check_version-ok c version w s p h = go (version (bound_tenant c) c.user_id w).0 refl
    where
      go :
          (r : Result Int64)
          → (version (bound_tenant c) c.user_id w).0 ≡ r
          → (current : Int64) × ((version (bound_tenant c) c.user_id w).0 ≡ ok current)
            × (lt64 c.pwd_ver current ≡ false)
      go (ok current) e = (current, e, ground (arith, s, p, e))
      go (err x) e = ground (arith, s, p, e)

  -- Where no authority is wired but a denylist and a source of password versions are, a request
  -- goes on only if neither the jti nor the session of its access token is denied (an empty one is
  -- not looked up), and if the source has answered with a version that the token is not behind; in
  -- particular an outage of the source stops the request.
  pub auth_undenied :
      (get : String → World → Bool × World) (version : String → ℕ → Action Int64)
      → opt.state ≡ none
      → opt.denylist ≡ some get
      → opt.pwd_version ≡ some version
      → (ctx ctx' : Context) (w : World)
      → (auth_middleware lib m now opt header ctx w).0 ≡ next ctx'
      → (c : Claims) × Carries access c
        × (m.strict ≡ false)
        × ((is_empty c.jti ≡ true) ⊎ ((get ("denylist:jti:" <> c.jti) w).0 ≡ false))
        × ((is_empty c.sid ≡ true)
            ⊎ ((get ("denylist:sid:" <> c.sid) (jti_read get c w)).0 ≡ false))
        × (current : Int64) × ((version (bound_tenant c) c.user_id (check_denylist opt c w).1).0
            ≡ ok current)
        × (lt64 c.pwd_ver current ≡ false)
  unfolding check_account check_state
  auth_undenied get version s d p ctx ctx' w h =
      let (c, carries, account, seen) = auth_middleware-next ctx ctx' w h in
      let lax : m.strict ≡ false = ground (arith, s, account) in
      let clear : (check_denylist opt c w).0 ≡ pass = ground (arith, s, account) in
      let w₂ = (check_denylist opt c w).1 in
      let current : (check_version opt c w₂).0 ≡ pass = ground (arith, s, account, clear) in
      let (jti, sid) = check_denylist-ok c get w s d clear in
      let (n, answered, fresh) = check_version-ok c version w₂ s p current in
      (c, carries, lax, jti, sid, n, answered, fresh)
