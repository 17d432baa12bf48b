-- ===== src/Middleware/Access/Purposes.antt =====
-- internal/middleware: tokens of other purposes, sudo mode and exact permissions.
use finn_api_go.Prelude.{
  ℕ, ◌≡◌, ◌≢◌, ◌↔◌, ◌⊎◌, ap, String, str_eq, eq_iff, is_empty, true, false, Any, some, List, [],
  ◌∷◌, arith, Option-cases, Bool-cases, inl, inr,
}
use finn_api_go.Database.{World}
use finn_api_go.Jwt.{Claims, JwtLib, JwtManager, access, mfa_pending, sudo}
use finn_api_go.Jwt.Keys.{verify}
use finn_api_go.Repositories.Rbac.{contains}
use finn_api_go.Middleware.Access.{
  Context, abort, next, bearer_token, AuthOptions, auth_middleware, mfa_pending_middleware,
  sudo_middleware, require_permission,
}

module _ (lib : JwtLib) (m : JwtManager) (now : ℕ) where
  -- A header that AuthMiddleware lets go on is refused by MFAPendingMiddleware with 401, and the token
  -- in it by SudoMiddleware with 403, whatever their contexts.
  pub access_opens_no_other :
      (opt : AuthOptions) (header token : String) (ctx ctx' a b : Context) (w : World)
      → bearer_token header ≡ some token
      → (auth_middleware lib m now opt header ctx w).0 ≡ next ctx'
      → (mfa_pending_middleware lib m now header a ≡ abort 401 "invalid token type")
        × (sudo_middleware lib m now token b ≡ abort 403 "sudo verification required")
  unfolding auth_middleware mfa_pending_middleware sudo_middleware
  access_opens_no_other opt header token ctx ctx' a b w e h =
      elim (Option-cases (verify lib m now token)) [
        | inl n ↦ ground (arith, e, n, h)
        | inr (c, v) ↦
            let t : c.token_type ≡ access = ground (arith, e, v, h, eq_iff c.token_type access) in
            ground (arith, e, v, ap (λ x. str_eq x mfa_pending) t, ap (λ x. str_eq x sudo) t)
      ]

  -- A header that MFAPendingMiddleware lets go on is refused by AuthMiddleware with 401 before it has
  -- looked anything up, and the token in it by SudoMiddleware with 403, whatever their contexts.
  pub pending_opens_no_other :
      (opt : AuthOptions) (header token : String) (ctx ctx' a b : Context) (w : World)
      → bearer_token header ≡ some token
      → mfa_pending_middleware lib m now header ctx ≡ next ctx'
      → (auth_middleware lib m now opt header a w ≡ (abort 401 "invalid token type", w))
        × (sudo_middleware lib m now token b ≡ abort 403 "sudo verification required")
  unfolding auth_middleware mfa_pending_middleware sudo_middleware
  pending_opens_no_other opt header token ctx ctx' a b w e h =
      elim (Option-cases (verify lib m now token)) [
        | inl n ↦ ground (arith, e, n, h)
        | inr (c, v) ↦
            let t : c.token_type ≡ mfa_pending =
              ground (arith, e, v, h, eq_iff c.token_type mfa_pending) in
            ground (arith, e, v, ap (λ x. str_eq x access) t, ap (λ x. str_eq x sudo) t)
      ]

  -- SudoMiddleware lets a request go on exactly if its token is one of the manager's, of type sudo,
  -- of the user that the context names and, for a strict manager, of the context's tenant, and has
  -- an expiry, which is then all that it adds to the context.
  pub sudo_iff :
      (token : String) (ctx ctx' : Context)
      → (sudo_middleware lib m now token ctx ≡ next ctx') ↔ (
          (is_empty token ≡ false)
          × (c : Claims) × (verify lib m now token ≡ some c)
          × (c.token_type ≡ sudo)
          × ((m.strict ≡ false) ⊎ (c.tenant_id ≡ ctx.tenant_id))
          × (ctx.user_id ≡ some c.user_id)
          × (t : ℕ) × (c.expires_at ≡ some t)
          × (ctx' ≡ record ctx { sudo_until = some t }))
  unfolding sudo_middleware
  sudo_iff token ctx ctx' = (
    λ h. elim (Option-cases (verify lib m now token)) [
      | inl n ↦ ground (arith, n)
      | inr (c, v) ↦ elim (Option-cases ctx.user_id) [
        | inl n ↦ ground (arith, n, v)
        | inr (uid, u) ↦ elim (Option-cases c.expires_at) [
          | inl n ↦ ground (arith, n, v, u)
          | inr (t, x) ↦ (
            ground (arith, v),
            c,
            v,
            ground (arith, v, u, x, eq_iff c.token_type sudo),
            elim (Bool-cases m.strict) [
              | inl s ↦ inr (ground (arith, v, u, x, s, eq_iff c.tenant_id ctx.tenant_id))
              | inr s ↦ inl s
            ],
            ground (arith, v, u, x),
            t,
            x,
            ground (arith, v, u, x),
          )
        ]
      ]
    ],
    λ (named, c, v, purpose, same, u, t, x, e).
        let type = eq_iff c.token_type sudo in
        elim same [
          | inl s ↦ ground (arith, v, purpose, u, x, e, s, type)
          | inr s ↦ ground (arith, v, purpose, u, x, e, s, type, eq_iff c.tenant_id ctx.tenant_id)
        ],
  )

abbrev Has : String → List String → Type 0
Has p ps = Any (λ q. q ≡ p) ps

contains-Has : (p : String) (ps : List String) → contains p ps ≡ true → Has p ps
unfolding contains
contains-Has p [] h = ground arith
contains-Has p (q ∷ qs) h = elim (Bool-cases (str_eq q p)) [
  | inl e ↦ inl (ground (arith, e, eq_iff q p))
  | inr n ↦ inr (contains-Has p qs (ground (arith, n)))
]

Has-contains : (p : String) (ps : List String) → Has p ps → contains p ps ≡ true
unfolding contains
Has-contains p [] h = elim h [ ]
Has-contains p (q ∷ qs) (inl e) = ground (arith, e, eq_iff q p)
Has-contains p (q ∷ qs) (inr i) = ground (arith, Has-contains p qs i)

-- RequirePermission lets a request go on, with the context as it was, exactly if the context names a
-- user other than 0 and its list of permissions has the very permission asked for.
pub require_permission_iff :
    (p : String) (ctx ctx' : Context)
    → (require_permission p ctx ≡ next ctx') ↔ (
        (ctx' ≡ ctx)
        × (uid : ℕ) × (ctx.user_id ≡ some uid)
        × (uid ≢ 0)
        × (ps : List String) × (ctx.permissions ≡ some ps)
        × Any (λ q. q ≡ p) ps)
unfolding require_permission
require_permission_iff p ctx ctx' = (
  λ h. elim (Option-cases ctx.user_id) [
    | inl n ↦ ground (arith, n)
    | inr (uid, u) ↦ elim (Option-cases ctx.permissions) [
      | inl n ↦ ground (arith, n, u)
      | inr (ps, e) ↦ (
        ground (arith, u, e),
        uid,
        u,
        ground (arith, u, e),
        ps,
        e,
        contains-Has p ps (ground (arith, u, e)),
      )
    ]
  ],
  λ (same, uid, u, named, ps, e, i). ground (arith, same, u, named, e, Has-contains p ps i),
)
