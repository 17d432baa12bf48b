-- ===== src/Services/Login/Tests.antt =====
-- The properties of `Login` at concrete inputs.
use finn_api_go.Prelude.{
  ℕ, ◌+◌, ◌*◌, ◌^◌, ◌≡◌, ◌<◌, ◌≤◌, refl, String, str_eq, Bool, true, false, ◌&&◌, Option, none,
  some, List, [], ◌∷◌, if◌then◌else◌,
}
use finn_api_go.Models.{User}
use finn_api_go.Store.{new_in_memory_store}
use finn_api_go.Store
use finn_api_go.Database.{ok}
use finn_api_go.Database.Table.{first_where}
use finn_api_go.Database.Example.{acme}
use finn_api_go.Repositories.Users
use finn_api_go.Services.{LoginResult, signed_in, mfa_required, TokenPair, UserProfile, from_user}
use finn_api_go.Services.Example.{env, svc}
use finn_api_go.Services.Login
use finn_api_go.Services.Login.{normal_email}
use finn_api_go.Services.Login.Sound.{login-Passed, Passed}

abbrev answer : LoginResult
answer =
    signed_in (record { access_token = "signed:access"; refresh_token = "fresh"; expires_at = 115 })
      (record {
        id = 7;
        username = "ada";
        email = "ada@example.org";
        full_name = "Ada";
        role = "user";
        is_active = true;
        is_email_verified = true;
      })

login_runs :
    (Login.login env svc "acme" 100 " ADA@example.org" "lovelace1" "" "1.2.3.4" "ua" acme).0
    ≡ ok answer
unfolding Login.login Login.throttle_account normal_email finn_api_go.Prelude.Text.to_lower
    finn_api_go.Prelude.Text.trim_space finn_api_go.Services.Support.store_counter_value
    finn_api_go.Prelude.Int64.lt64 finn_api_go.Prelude.Dict.lookup Login.require_captcha
    Users.find_by_email Login.login_user Login.is_locked Login.password_matches
    finn_api_go.Services.Support.check_password Users.reset_failed_attempts
    finn_api_go.Services.Support.store_do Login.check_mfa_or_issue_tokens
    finn_api_go.Services.Support.count_metric Login.find_device Login.issue_signed_in
    finn_api_go.Services.Issue.issue_token_pair finn_api_go.Services.Issue.prepare
    finn_api_go.Services.Issue.issuable finn_api_go.Services.Issue.signed_permissions
    finn_api_go.Repositories.Rbac.get_user_permissions finn_api_go.Services.Issue.session_for
    finn_api_go.Services.Support.draw finn_api_go.Repositories.Sessions.create
    finn_api_go.Services.Issue.access_token finn_api_go.Jwt.Keys.sign
    finn_api_go.Jwt.Keys.access_enterprise_claims finn_api_go.Services.Issue.check_issued
    finn_api_go.Services.Issue.add_refresh_token finn_api_go.Services.Support.generate_opaque_token
    finn_api_go.Repositories.RefreshTokens.create
    finn_api_go.Services.Issue.maybe_notify_new_ip_login Store.set_nx Store.delete
    finn_api_go.Prelude.Dict.erase finn_api_go.Services.Support.send
    finn_api_go.Services.Support.audit finn_api_go.Jwt.base_claims from_user
login_runs = refl

login-Passed_example :
    (u : User) × (first_where
        (λ v. str_eq v.email (normal_email " ADA@example.org") && str_eq v.tenant_id "acme")
        acme.users
      ≡ some u)
    × Passed env svc "acme" 100 u "lovelace1" acme answer
        (Login.login env svc "acme" 100 " ADA@example.org" "lovelace1" "" "1.2.3.4" "ua" acme).1
login-Passed_example =
    login-Passed env svc "acme" 100 " ADA@example.org" "lovelace1" "" "1.2.3.4" "ua" answer acme
      login_runs
