-- ===== src/Identity/Tests.antt =====
-- The properties of the authority at concrete inputs.
use finn_api_go.Prelude.{
  ℕ, ◌≡◌, ◌≢◌, ◌<◌, refl, String, Bool, true, false, Option, none, some, List, [], ◌∷◌, arith,
}
use finn_api_go.Database.{World, Result, ok, err, query}
use finn_api_go.Database.Table.{any_where, first_where}
use finn_api_go.Database.Example.{acme}
use finn_api_go.Jwt.{Claims}
use finn_api_go.Identity.{check, suspend, revoke_access}
use finn_api_go.Identity.Contained.{check_vouches, suspend_refuses, revoke_access_refuses, Vouched}

abbrev token : Claims
token = record {
  user_id = 7;
  role = "user";
  email = "ada@example.org";
  token_type = "access";
  pwd_ver = 3;
  auth_epoch = 0;
  contract_version = 1;
  sid = "s1";
  tenant_id = "acme";
  permissions = some [];
  issuer = "finnapigo";
  subject = "7";
  audience = "finnapigo-api" ∷ [];
  expires_at = some 900;
  not_before = some 90;
  issued_at = some 90;
  jti = "j1";
}

check_runs : (check 100 token acme).0 ≡ ok tt
unfolding check finn_api_go.Identity.store_revoked query finn_api_go.Store.revoked
    finn_api_go.Prelude.Dict.lookup finn_api_go.Identity.check_user first_where
    finn_api_go.Identity.check_tenant finn_api_go.Identity.check_session
    finn_api_go.Identity.check_revocations any_where finn_api_go.Identity.check_grants
    finn_api_go.Repositories.Rbac.get_user_permissions finn_api_go.Identity.same_grants
check_runs = refl

check_vouches_example : Vouched 100 token acme
check_vouches_example = check_vouches 100 token acme check_runs

suspend_runs : (suspend "acme" 7 acme).0 ≡ ok tt
unfolding suspend finn_api_go.Database.transaction query any_where
suspend_runs = refl

suspend_refuses_example : (check 100 token (suspend "acme" 7 acme).1).0 ≢ ok tt
suspend_refuses_example = suspend_refuses 100 token acme (suspend "acme" 7 acme).1 suspend_runs refl

revoke_runs : (revoke_access "acme" "j1" 1000 acme).0 ≡ ok tt
unfolding revoke_access query
revoke_runs = refl

revoke_access_refuses_example : (check 100 token (revoke_access "acme" "j1" 1000 acme).1).0 ≢ ok tt
revoke_access_refuses_example =
    revoke_access_refuses 100 token 1000 acme (revoke_access "acme" "j1" 1000 acme).1 revoke_runs
      refl
