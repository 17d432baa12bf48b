-- ===== src/Middleware/Access/Tests.antt =====
-- The properties of the access handlers at concrete requests.
use finn_api_go.Prelude.{
  ℕ, ◌≡◌, ◌↔◌, ◌≢◌, ◌⊎◌, refl, String, is_empty, str_eq, ◌<>◌, Bool, true, false, Option, none,
  some, List, [], ◌∷◌, Any, arith, if◌then◌else◌,
}
use finn_api_go.Prelude.Int64.{Int64, lt64}
use finn_api_go.Database.{World, Result, ok, err}
use finn_api_go.Database.Example.{acme, ada, laptop}
use finn_api_go.Jwt.{Claims, JwtLib, JwtManager, access, sudo}
use finn_api_go.Jwt.Keys.{verify}
use finn_api_go.Identity.{check, suspend}
use finn_api_go.Middleware.Access.{
  Context, Reply, abort, next, AuthOptions, authenticated, auth_middleware, mfa_pending_middleware,
  sudo_middleware, require_permission, bearer_token, bound_tenant, check_denylist,
}
use finn_api_go.Middleware.Access.Guards.{Carries, suspended_stays_out, auth_undenied, jti_read}
use finn_api_go.Middleware.Access.Purposes.{access_opens_no_other, sudo_iff}

abbrev claims : Claims
claims = record {
  user_id = 7;
  role = "user";
  email = "ada@example.org";
  token_type = "access";
  pwd_ver = 3;
  auth_epoch = 0;
  contract_version = 1;
  sid = "s1";
  tenant_id = "acme";
  permissions = some [];
  issuer = "finnapigo";
  subject = "7";
  audience = "finnapigo-api" ∷ [];
  expires_at = some 900;
  not_before = some 90;
  issued_at = some 90;
  jti = "j1";
}

-- The token "s" proves a second factor; "p" waits for one, and "b" is of another user of the tenant.
abbrev claims_of : String → Claims
claims_of token =
    if str_eq token "s"
    then record claims { token_type = "sudo" }
    else if str_eq token "p"
    then record claims { token_type = "mfa_pending" }
    else if str_eq token "b"
    then record claims { user_id = 8; sid = "s3" }
    else claims

abbrev lib : JwtLib
lib = record {
  sign = λ kid key c. some "t";
  peek_kid = λ token. "k1";
  parse_with_claims = λ strict issuer now key token. some (claims_of token);
  raw_url_decode = λ part. some part;
  object_members = λ bytes. none;
}

abbrev manager : JwtManager
manager = record {
  strict = false;
  previous_id = "";
  previous_retires = 0;
  issuer = "finnapigo";
  current = "secret";
  current_kid = "k1";
  keys = ("k1", "secret") ∷ [];
  try_order = "k1" ∷ [];
}

-- Bob beside Ada.
abbrev two_users : World
two_users = record acme {
  users = ada ∷ record ada { id = 8; username = "bob" } ∷ [];
  sessions = laptop ∷ record laptop { id = "s3"; user_id = 8 } ∷ [];
}

abbrev guarded : AuthOptions
guarded = record { denylist = none; state = some (check 100); pwd_version = none }

-- The denylist has one session of somebody else's, and every password is at version 3.
abbrev get : String → World → Bool × World
get key w = (str_eq key "denylist:sid:s9", w)

abbrev version : String → ℕ → World → Result Int64 × World
version tid uid w = (ok 3, w)

abbrev legacy : AuthOptions
legacy = record { denylist = some get; state = none; pwd_version = some version }

-- Somebody else's identity, to be overwritten.
abbrev stale : Context
stale = record {
  user_id = some 9;
  role = none;
  email = none;
  jti = none;
  sid = none;
  permissions = some ("users:read" ∷ []);
  sudo_until = none;
  tenant_id = "beta";
  actor = none;
}

ada_enters :
    (auth_middleware lib manager 100 guarded "Bearer t" stale two_users).0
    ≡ next (authenticated claims stale)
unfolding auth_middleware bearer_token finn_api_go.Middleware.Access.cut_space
    finn_api_go.Prelude.Text.equal_fold verify finn_api_go.Prelude.Dict.lookup
    finn_api_go.Jwt.Keys.parse finn_api_go.Middleware.Access.check_account
    finn_api_go.Middleware.Access.check_state check finn_api_go.Identity.store_revoked
    finn_api_go.Database.query finn_api_go.Store.revoked finn_api_go.Identity.check_user
    finn_api_go.Database.Table.first_where finn_api_go.Identity.check_tenant
    finn_api_go.Identity.check_session finn_api_go.Identity.check_revocations
    finn_api_go.Database.Table.any_where finn_api_go.Identity.check_grants
    finn_api_go.Repositories.Rbac.get_user_permissions finn_api_go.Identity.same_grants
    check_denylist finn_api_go.Middleware.Access.check_version
ada_enters = refl

ada_suspended : (suspend "acme" 7 two_users).0 ≡ ok tt
unfolding suspend finn_api_go.Database.transaction finn_api_go.Database.query
    finn_api_go.Database.Table.any_where
ada_suspended = refl

-- Bob still gets in.
bob_enters :
    (auth_middleware lib manager 100 guarded "bearer b" stale (suspend "acme" 7 two_users).1).0
    ≡ next (authenticated (claims_of "b") stale)
unfolding auth_middleware bearer_token finn_api_go.Middleware.Access.cut_space
    finn_api_go.Prelude.Text.equal_fold verify finn_api_go.Prelude.Dict.lookup
    finn_api_go.Jwt.Keys.parse finn_api_go.Middleware.Access.check_account
    finn_api_go.Middleware.Access.check_state check finn_api_go.Identity.store_revoked
    finn_api_go.Database.query suspend finn_api_go.Database.transaction
    finn_api_go.Database.Table.any_where finn_api_go.Store.revoked finn_api_go.Identity.check_user
    finn_api_go.Database.Table.first_where finn_api_go.Database.Table.update_where
    finn_api_go.Identity.check_tenant finn_api_go.Identity.check_session
    finn_api_go.Identity.check_revocations finn_api_go.Identity.check_grants
    finn_api_go.Repositories.Rbac.get_user_permissions finn_api_go.Identity.same_grants
    check_denylist finn_api_go.Middleware.Access.check_version
bob_enters = refl

suspended_stays_out_example :
    ¬ ((◌≡◌ {A = Option ℕ} (some 8) (some 7)) × (◌≡◌ {A = String} "acme" "acme"))
suspended_stays_out_example =
    suspended_stays_out lib manager 100 guarded "bearer b" refl "acme" 7 stale
      (authenticated (claims_of "b") stale) two_users (suspend "acme" 7 two_users).1 ada_suspended
      refl bob_enters

legacy_enters :
    (auth_middleware lib manager 100 legacy "Bearer t" stale acme).0
    ≡ next (authenticated claims stale)
unfolding auth_middleware bearer_token finn_api_go.Middleware.Access.cut_space
    finn_api_go.Prelude.Text.equal_fold verify finn_api_go.Prelude.Dict.lookup
    finn_api_go.Jwt.Keys.parse finn_api_go.Middleware.Access.check_account
    finn_api_go.Middleware.Access.check_state check_denylist
    finn_api_go.Middleware.Access.check_version lt64
legacy_enters = refl

auth_undenied_example :
    (c : Claims) × Carries lib manager 100 legacy "Bearer t" access c
    × (manager.strict ≡ false)
    × ((is_empty c.jti ≡ true) ⊎ ((get ("denylist:jti:" <> c.jti) acme).0 ≡ false))
    × ((is_empty c.sid ≡ true) ⊎ ((get ("denylist:sid:" <> c.sid) (jti_read get c acme)).0 ≡ false))
    × (current : Int64) × ((version (bound_tenant c) c.user_id (check_denylist legacy c acme).1).0
        ≡ ok current)
    × (lt64 c.pwd_ver current ≡ false)
auth_undenied_example =
    auth_undenied lib manager 100 legacy "Bearer t" get version refl refl refl stale
      (authenticated claims stale) acme legacy_enters

bearer_t : bearer_token "Bearer t" ≡ some "t"
unfolding bearer_token finn_api_go.Middleware.Access.cut_space finn_api_go.Prelude.Text.equal_fold
bearer_t = refl

access_opens_no_other_example :
    (mfa_pending_middleware lib manager 100 "Bearer t" stale ≡ abort 401 "invalid token type")
    × (sudo_middleware lib manager 100 "t" stale ≡ abort 403 "sudo verification required")
access_opens_no_other_example =
    access_opens_no_other lib manager 100 guarded "Bearer t" "t" stale (authenticated claims stale)
      stale stale two_users bearer_t ada_enters

bearer_p : bearer_token "Bearer p" ≡ some "p"
unfolding bearer_token finn_api_go.Middleware.Access.cut_space finn_api_go.Prelude.Text.equal_fold
bearer_p = refl

abbrev pending : Context
pending = record stale { user_id = some 7; tenant_id = "acme" }

ada_waits : mfa_pending_middleware lib manager 100 "Bearer p" stale ≡ next pending
unfolding mfa_pending_middleware bearer_token finn_api_go.Middleware.Access.cut_space
    finn_api_go.Prelude.Text.equal_fold verify finn_api_go.Prelude.Dict.lookup
    finn_api_go.Jwt.Keys.parse
ada_waits = refl

sudo_iff_example : (sudo_middleware lib manager 100 "s" stale ≡ next stale) ↔ (
    (is_empty "s" ≡ false)
    × (c : Claims) × (verify lib manager 100 "s" ≡ some c)
    × (c.token_type ≡ sudo)
    × ((manager.strict ≡ false) ⊎ (c.tenant_id ≡ stale.tenant_id))
    × (stale.user_id ≡ some c.user_id)
    × (t : ℕ) × (c.expires_at ≡ some t)
    × (stale ≡ record stale { sudo_until = some t }))
sudo_iff_example = sudo_iff lib manager 100 "s" stale stale
