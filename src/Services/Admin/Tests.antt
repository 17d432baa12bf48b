-- ===== src/Services/Admin/Tests.antt =====
-- The administrator's calls at concrete inputs.
use finn_api_go.Prelude.{◌≡◌, ◌≢◌, ◌&&◌, refl, str_eq, true, some, arith}
use finn_api_go.Database.{ok, err, cannot_lock_self, user_not_found}
use finn_api_go.Database.Example.{acme, ada}
use finn_api_go.Database.Table.{any_where, first_where}
use finn_api_go.Services.Example.{env, svc}
use finn_api_go.Services.Login
use finn_api_go.Services.Login.{normal_email}
use finn_api_go.Services.{mfa_required}
use finn_api_go.Services.Closure.Effects.{own}
use finn_api_go.Services.Admin.{AdminService, lock_user, force_logout}
use finn_api_go.Services.Admin.Reach.{Out, lock_user_shuts_out, force_logout-Out}

abbrev admin : AdminService
admin = record {
  sessions_wired = true;
  tokens_wired = true;
  audits_wired = true;
  rfc3339 = λ t. "then";
}

lock_runs : (lock_user admin "acme" 100 1 7 0 "1.2.3.4" acme).0 ≡ ok tt
unfolding lock_user finn_api_go.Services.Admin.target_user finn_api_go.Repositories.Users.find_by_id
    finn_api_go.Repositories.Users.set_lock finn_api_go.Services.Support.audit
lock_runs = refl

lock_self : (lock_user admin "acme" 100 7 7 0 "1.2.3.4" acme).0 ≡ err cannot_lock_self
unfolding lock_user
lock_self = refl

lock_foreign : (lock_user admin "globex" 100 1 7 0 "1.2.3.4" acme).0 ≡ err user_not_found
unfolding lock_user finn_api_go.Services.Admin.target_user finn_api_go.Repositories.Users.find_by_id
lock_foreign = refl

here :
    first_where (λ v. str_eq v.email "ada@example.org" && str_eq v.tenant_id "acme") acme.users
    ≡ some ada
unfolding first_where
here = refl

plain_address : normal_email "ada@example.org" ≡ "ada@example.org"
unfolding normal_email finn_api_go.Prelude.Text.to_lower finn_api_go.Prelude.Text.trim_space
plain_address = refl

lock_user_shuts_out_example :
    (Login.login env svc "acme" 159 "ada@example.org" "lovelace1" "" "5.6.7.8" "ua"
      (lock_user admin "acme" 100 1 7 0 "1.2.3.4" acme).1).0
    ≢ ok (mfa_required "m")
unfolding finn_api_go.Prelude.Int64.lt64
lock_user_shuts_out_example =
    lock_user_shuts_out admin "acme" 100 env svc 1 0 "1.2.3.4" ada "ada@example.org" acme here
      lock_runs 159 "ada@example.org" "lovelace1" "" "5.6.7.8" "ua" (mfa_required "m")
      (lock_user admin "acme" 100 1 7 0 "1.2.3.4" acme).1 (omega arith) plain_address refl

ada_there : any_where (finn_api_go.Repositories.Scope.is_user "acme" 7) acme.users ≡ true
unfolding any_where
ada_there = refl

force_logout-Out_example :
    let (r, w') = force_logout admin "acme" 100 1 7 "1.2.3.4" acme in
    (r ≡ ok tt) × Out admin "acme" 100 7 (own acme) (own w')
force_logout-Out_example =
    force_logout-Out admin "acme" 100 1 7 "1.2.3.4" acme refl refl refl ada_there
