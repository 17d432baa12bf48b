-- ===== src/Middleware/Access.antt =====
-- internal/middleware/auth.go, mfa_pending.go, sudo.go and rbac.go: who may go on.
-- A handler answers `abort` with a status and a message, or `next` with the context that the later
-- handlers of the request see.
pub mod Guards
pub mod Purposes
mod Tests
use Prim.Native.Char.{code}
use finn_api_go.Prelude.{
  ℕ, ◌==◌, String, str_eq, is_empty, ◌<>◌, Bool, true, false, not, ◌&&◌, ◌||◌, Option, none, some,
  List, [], ◌∷◌, leb, length, if◌then◌else◌,
}
use finn_api_go.Prelude.Int64.{Int64, lt64}
use finn_api_go.Prelude.Text.{split, equal_fold, trim_space, to_lower}
use finn_api_go.Database.{World, Error, Action, ok, err, ⊤, inactive, user_not_found}
use finn_api_go.Repositories.Rbac.{contains}
use finn_api_go.Jwt.{Claims, JwtLib, JwtManager, access, mfa_pending, sudo}
use finn_api_go.Jwt.Keys.{verify}
use finn_api_go.Identity.{signed_grants}

-- The keys that the handlers set on gin's context, and the audit actor; `none` is a key not set.
-- A nil list of permissions is an empty one: they are only ranged over.
pub record Context : Type 0 where
  pub user_id : Option ℕ
  pub role : Option String
  pub email : Option String
  pub jti : Option String
  pub sid : Option String
  pub permissions : Option (List String)
  pub sudo_until : Option ℕ
  -- `GetString("tenant_id")`: "" when it is not set.
  pub tenant_id : String
  pub actor : Option ℕ

pub data Reply : Type 0 where
  abort : ℕ → String → Reply
  next : Context → Reply

abbrev pub default_tenant_id : String
default_tenant_id = "default"

abbrev pub bound_tenant : Claims → String
bound_tenant c = if is_empty c.tenant_id then default_tenant_id else c.tenant_id

-- `strings.SplitN(header, " ", 2)` with two parts: around the first space.
unfoldable pub cut_space : String → Option (String × String)
cut_space String.[] = none
cut_space (String.◌∷◌ c s) =
    let rest = cut_space s in
    if code c == 32
    then some ("", s)
    else elim rest [ none ↦ none | some (before, after) ↦ some (String.◌∷◌ c before, after) ]

unfoldable pub bearer_token : String → Option String
bearer_token header = elim (cut_space header) [
  | none ↦ none
  | some (scheme, token) ↦
      if not (equal_fold scheme "Bearer") || is_empty token then none else some token
]

-- What a check says of the request: nothing, or how to refuse it.
pub data Verdict : Type 0 where
  pass : Verdict
  refuse : ℕ → String → Verdict

abbrev pub Check : Type 0
Check = World → Verdict × World

-- The next check is made only after the one before it has passed.
abbrev pub after : Check → Check → Check
after p q w = let (v, w') = p w in elim v [ pass ↦ q w' | refuse n s ↦ (refuse n s, w') ]

-- `authOptions`, and the source of password versions; each may be missing.
pub record AuthOptions : Type 0 where
  pub denylist : Option (String → World → Bool × World)
  pub state : Option (Claims → Action ⊤)
  -- The tenant of the context, and the user.
  pub pwd_version : Option (String → ℕ → Action Int64)

-- `errors.Is(err, identity.ErrInactive)`
abbrev pub state_refusal : Error → Verdict
state_refusal inactive = refuse 401 "inactive credential"
state_refusal _ = refuse 503 "identity state unavailable"

-- `errors.Is(err, services.ErrUserNotFound)`
abbrev pub version_refusal : Error → Verdict
version_refusal user_not_found = refuse 401 "invalid subject for tenant"
version_refusal _ = refuse 503 "account state unavailable"

module _ (opt : AuthOptions) (c : Claims) where
  unfoldable pub check_state : Bool → Check
  check_state strict w = elim opt.state [
    | none ↦ (if strict then refuse 503 "identity state unavailable" else pass, w)
    | some state ↦ let (r, w') = state c w in (elim r [ ok u ↦ pass | err e ↦ state_refusal e ], w')
  ]

  abbrev denied : (String → World → Bool × World) → String → String → String → Check
  denied get prefix id message w =
      if is_empty id
      then (pass, w)
      else let (hit, w') = get (prefix <> id) w in (if hit then refuse 401 message else pass, w')

  unfoldable pub check_denylist : Check
  check_denylist w = elim opt.state [
    | some state ↦ (pass, w)
    | none ↦ elim opt.denylist [
      | none ↦ (pass, w)
      | some get ↦
          after (denied get "denylist:jti:" c.jti "token revoked")
            (denied get "denylist:sid:" c.sid "session revoked") w
    ]
  ]

  unfoldable pub check_version : Check
  check_version w = elim opt.state [
    | some state ↦ (pass, w)
    | none ↦ elim opt.pwd_version [
      | none ↦ (pass, w)
      | some version ↦
          let (r, w') = version (bound_tenant c) c.user_id w in
          (
            elim r [
              | err e ↦ version_refusal e
              | ok current ↦
                  if lt64 c.pwd_ver current
                  then refuse 401 "credentials changed, please sign in again"
                  else pass
            ],
            w',
          )
    ]
  ]

  -- The checks between the type of the token and `c.Next()`, in their order.
  unfoldable pub check_account : Bool → Check
  check_account strict = after (check_state strict) (after check_denylist check_version)

-- The keys that `AuthMiddleware` sets: what the token says, whatever was there.
abbrev pub authenticated : Claims → Context → Context
authenticated c ctx = record ctx {
  tenant_id = bound_tenant c;
  user_id = some c.user_id;
  actor = some c.user_id;
  role = some c.role;
  email = some c.email;
  jti = some c.jti;
  sid = some c.sid;
  permissions = some (signed_grants c);
}

module _ (lib : JwtLib) (m : JwtManager) (now : ℕ) where
  -- `AuthMiddleware`, at the header `Authorization`.
  unfoldable pub auth_middleware : AuthOptions → String → Context → World → Reply × World
  auth_middleware opt header ctx w =
      if is_empty header
      then (abort 401 "missing authorization header", w)
      else elim (bearer_token header) [
        | none ↦ (abort 401 "invalid authorization header format", w)
        | some token ↦ elim (verify lib m now token) [
          | none ↦ (abort 401 "invalid or expired token", w)
          | some c ↦
              if not (str_eq c.token_type access)
              then (abort 401 "invalid token type", w)
              else let (v, w') = check_account opt c m.strict w in
                (elim v [ refuse n s ↦ abort n s | pass ↦ next (authenticated c ctx) ], w')
        ]
      ]

  -- `MFAPendingMiddleware`
  unfoldable pub mfa_pending_middleware : String → Context → Reply
  mfa_pending_middleware header ctx =
      if is_empty header
      then abort 401 "missing authorization header"
      else elim (bearer_token header) [
        | none ↦ abort 401 "invalid authorization header format"
        | some token ↦ elim (verify lib m now token) [
          | none ↦ abort 401 "invalid or expired token"
          | some c ↦
              if not (str_eq c.token_type mfa_pending)
              then abort 401 "invalid token type"
              else next (record ctx { user_id = some c.user_id; tenant_id = bound_tenant c })
        ]
      ]

  -- `SudoMiddleware`, at the header `X-Sudo-Token`.
  unfoldable pub sudo_middleware : String → Context → Reply
  sudo_middleware token ctx =
      let no : Reply = abort 403 "sudo verification required" in
      if is_empty token then no else elim (verify lib m now token) [
        | none ↦ no
        | some c ↦
            if not (str_eq c.token_type sudo)
              || (m.strict && not (str_eq c.tenant_id ctx.tenant_id))
            then no
            else elim ctx.user_id [
              | none ↦ no
              | some uid ↦ if not (c.user_id == uid) then no else elim c.expires_at [
                | none ↦ no
                | some t ↦ next (record ctx { sudo_until = some t })
              ]
            ]
      ]

-- `RequirePermission`: an exact signed grant.
unfoldable pub require_permission : String → Context → Reply
require_permission permission ctx =
    let no : Reply = abort 403 ("permission denied: " <> permission <> " required") in
    elim ctx.user_id [
      | none ↦ abort 401 "authentication required"
      | some uid ↦ if uid == 0 then abort 401 "authentication required" else elim ctx.permissions [
        | none ↦ no
        | some ps ↦ if contains permission ps then next ctx else no
      ]
    ]

-- `RequireRole`
unfoldable pub require_role : List String → Context → Reply
require_role roles ctx = elim ctx.role [
  | none ↦ abort 401 "authentication required"
  | some role ↦ if contains role roles then next ctx else abort 403 "insufficient permissions"
]

-- `HasRole`
unfoldable pub has_role : Context → String → Bool
has_role ctx role = elim ctx.role [ none ↦ false | some r ↦ str_eq r role ]
