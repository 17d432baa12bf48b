-- ===== src/Services/Oauth/Tests.antt =====
-- A sign-in with Google at a concrete input.
use finn_api_go.Prelude.{◌≡◌, refl, String, ◌<>◌, Bool, true, false, none, some, [], ◌∷◌}
use finn_api_go.Store.{text, new_in_memory_store}
use finn_api_go.Store
use finn_api_go.Database.{World, ok}
use finn_api_go.Database.Example.{ada, acme}
use finn_api_go.Services.{LoginResult, signed_in, from_user}
use finn_api_go.Services.Example.{env, svc}
use finn_api_go.Services.Oauth.{OauthLib, OauthService, OauthChallenge, handle_callback}
use finn_api_go.Services.Oauth.Vouch.{handle_callback-Vouched, Vouched}

abbrev challenge : OauthChallenge
challenge = record { verifier = "v"; nonce = "n" }

-- The token "id" is Ada's.
abbrev lib : OauthLib
lib = record {
  random_hex = λ n bytes. some "r";
  random_url = λ n bytes. some "u";
  s256_challenge = λ v. v;
  marshal = λ c. c.verifier;
  unmarshal = λ raw. some challenge;
  auth_code_url = λ state c nonce. state <> c <> nonce;
  exchange = λ now code verifier. some (some "id");
  verify = λ now raw. ok (record {
    sub = "g1";
    email = "Ada@example.org";
    email_verified = true;
    name = "Ada";
    nonce = "n";
  });
  names_username = λ email username. false;
}

abbrev oauth : OauthService
oauth = record {
  lib = lib;
  configured = true;
  auth = svc;
  notifier_wired = true;
  audits_wired = true;
  passkeys_wired = true;
}

-- The store has a challenge under the state "st".
abbrev start : World
start = record acme {
  store = some (Store.set 50 "oauth:state:st" new_in_memory_store (text "v") 600);
}

abbrev answer : LoginResult
answer =
    signed_in (record { access_token = "signed:access"; refresh_token = "fresh"; expires_at = 115 })
      (from_user ada)

callback_runs :
    (handle_callback env oauth "acme" 100 "code" "st" "1.2.3.4" "ua" start).0 ≡ ok answer
unfolding handle_callback finn_api_go.Services.Oauth.consume_state
    finn_api_go.Services.Support.store_call finn_api_go.Services.Oauth.staged_challenge Store.take
    finn_api_go.Prelude.Dict.lookup Store.set finn_api_go.Prelude.Dict.insert
    finn_api_go.Services.Oauth.challenged finn_api_go.Services.Oauth.verified_claims
    finn_api_go.Services.Oauth.id_token_claims finn_api_go.Services.Oauth.bound_claims
    finn_api_go.Services.Oauth.claims_verified finn_api_go.Services.Oauth.find_or_create_user
    finn_api_go.Repositories.Oauth.find_by_provider_and_provider_user_id finn_api_go.Database.query
    finn_api_go.Services.Oauth.identity_found finn_api_go.Database.Table.first_where
    finn_api_go.Repositories.Users.find_by_email finn_api_go.Services.Oauth.link_new
    finn_api_go.Services.Login.normal_email finn_api_go.Prelude.Text.to_lower
    finn_api_go.Prelude.Text.trim_space finn_api_go.Services.Oauth.link_identity
    finn_api_go.Repositories.Oauth.create finn_api_go.Repositories.Scope.require_owner
    finn_api_go.Services.Support.audit finn_api_go.Services.Support.send
    finn_api_go.Services.Oauth.sign_in finn_api_go.Services.Login.check_mfa_or_issue_tokens
    finn_api_go.Services.Support.count_metric finn_api_go.Services.Login.find_device
    finn_api_go.Services.Login.issue_signed_in finn_api_go.Services.Issue.issue_token_pair
    finn_api_go.Services.Issue.prepare finn_api_go.Services.Issue.issuable
    finn_api_go.Services.Issue.signed_permissions finn_api_go.Repositories.Rbac.get_user_permissions
    finn_api_go.Services.Issue.session_for finn_api_go.Services.Support.draw
    finn_api_go.Repositories.Sessions.create finn_api_go.Services.Issue.access_token
    finn_api_go.Jwt.Keys.sign finn_api_go.Jwt.Keys.access_enterprise_claims
    finn_api_go.Services.Issue.check_issued finn_api_go.Services.Issue.add_refresh_token
    finn_api_go.Services.Support.generate_opaque_token finn_api_go.Repositories.RefreshTokens.create
    finn_api_go.Services.Issue.maybe_notify_new_ip_login Store.set_nx finn_api_go.Prelude.Dict.erase
    finn_api_go.Jwt.base_claims
callback_runs = refl

handle_callback-Vouched_example : Vouched env oauth "acme" 100 start "code" "st"
handle_callback-Vouched_example =
    handle_callback-Vouched env oauth "acme" 100 "code" "st" "1.2.3.4" "ua" answer start
      callback_runs
