-- ===== src/Services/Passkeys/Tests.antt =====
-- WebAuthn ceremonies at concrete inputs.
use finn_api_go.Prelude.{◌≡◌, refl, String, Bool, true, false, none, some, [], ◌∷◌}
use finn_api_go.Models.{PasskeyCredential}
use finn_api_go.Store.{text, new_in_memory_store}
use finn_api_go.Store
use finn_api_go.Database.{World, ok, err, passkey_credential_revoked}
use finn_api_go.Database.Table.{first_where, any_where}
use finn_api_go.Database.Example.{ada, acme}
use finn_api_go.Repositories.Passkeys.{has_credential, to_revoke}
use finn_api_go.Services.{TokenPair, UserProfile, from_user}
use finn_api_go.Services.Example.{env, svc}
use finn_api_go.Services.Passkeys.{
  WebauthnLib, PasskeyService, Request, Credential, complete_authentication, finish_authentication,
}
use finn_api_go.Services.Passkeys.Sound.{finish_authentication-Proven, Proven}
use finn_api_go.Services.Passkeys.Clone.{clone_revokes}

abbrev key : Credential
key = record {
  id = "c1";
  public_key = "pk";
  attestation_type = "none";
  attestation_format = "packed";
  transport = [];
  sign_count = 5;
  clone_warning = false;
}

abbrev web : WebauthnLib
web = record {
  begin_registration = λ n user creds. some ("options", "session");
  finish_registration = λ user creds session r. some key;
  begin_login = λ n user creds. some ("options", "session");
  finish_login = λ user creds session r. some key;
  marshal_registration = λ session name. name;
  unmarshal_registration = λ raw. some ("session", raw);
  marshal_login = λ session. session;
  unmarshal_login = λ raw. some raw;
  marshal_transports = λ ts. "[]";
  unmarshal_transports = λ raw. [];
}

abbrev passkeys : PasskeyService
passkeys = record { web = web; tokens = some svc }

abbrev stored : PasskeyCredential
stored = record {
  id = 2;
  user_id = 7;
  credential_id = "c1";
  public_key = "pk";
  sign_count = 4;
  display_name = "laptop";
  transports = "[]";
  attestation_type = "none";
  last_used_at = none;
  revoked = false;
}

abbrev request : Request
request = record { body = "answer"; remote_addr = "1.2.3.4:5000"; user_agent = "ua" }

-- A challenge is staged for Ada.
abbrev start : World
start = record acme {
  passkeys = stored ∷ [];
  store = some (Store.set 50 "passkey:auth:7" new_in_memory_store (text "session") 600);
}

abbrev answer : TokenPair × UserProfile
answer = (
  record { access_token = "signed:access"; refresh_token = "fresh"; expires_at = 115 },
  from_user ada,
)

finish_runs : (finish_authentication env passkeys "acme" 100 7 request start).0 ≡ ok answer
unfolding finish_authentication finn_api_go.Services.Passkeys.finish_with
    finn_api_go.Services.Passkeys.authenticate finn_api_go.Services.Passkeys.take_staged
    finn_api_go.Services.Support.store_call Store.take finn_api_go.Prelude.Dict.lookup Store.set
    finn_api_go.Prelude.Dict.insert finn_api_go.Prelude.Int64.show_uint
    finn_api_go.Services.Passkeys.load_user finn_api_go.Repositories.Users.find_by_id
    finn_api_go.Repositories.Passkeys.list_by_user complete_authentication
    finn_api_go.Services.Passkeys.row_id_by_credential finn_api_go.Services.Support.audit
    finn_api_go.Services.Closure.issue_passkey_token_pair
    finn_api_go.Services.Issue.issue_token_pair finn_api_go.Services.Issue.prepare
    finn_api_go.Services.Issue.issuable finn_api_go.Services.Issue.signed_permissions
    finn_api_go.Repositories.Rbac.get_user_permissions finn_api_go.Repositories.Passkeys.touch_usage
    finn_api_go.Repositories.Passkeys.find_by_credential_id finn_api_go.Services.Issue.session_for
    finn_api_go.Services.Support.draw finn_api_go.Repositories.Sessions.create
    finn_api_go.Services.Issue.access_token finn_api_go.Jwt.Keys.sign
    finn_api_go.Jwt.Keys.access_enterprise_claims finn_api_go.Services.Issue.check_issued
    finn_api_go.Services.Issue.add_refresh_token finn_api_go.Services.Support.generate_opaque_token
    finn_api_go.Repositories.RefreshTokens.create
    finn_api_go.Services.Issue.maybe_notify_new_ip_login
    finn_api_go.Services.Passkeys.client_ip_from finn_api_go.Services.Passkeys.before_last_colon
    Store.set_nx finn_api_go.Prelude.Dict.erase finn_api_go.Services.Support.send
    finn_api_go.Jwt.base_claims
finish_runs = refl

finish_authentication-Proven_example : Proven env passkeys "acme" 100 7 start request
finish_authentication-Proven_example =
    finish_authentication-Proven env passkeys "acme" 100 7 request answer start finish_runs

stored_found : first_where (has_credential "acme" start "c1") (stored ∷ []) ≡ some stored
unfolding first_where any_where
stored_found = refl

clone_revokes_example :
    let (answer, v) =
      complete_authentication env passkeys "acme" 100 svc 7 request ada
        (record key { clone_warning = true })
        start in
    (answer ≡ err passkey_credential_revoked)
    × (any_where (to_revoke "acme" v 2 7) v.passkeys ≡ false)
clone_revokes_example =
    clone_revokes env passkeys "acme" 100 7 svc request ada (record key { clone_warning = true })
      stored start refl refl stored_found refl
