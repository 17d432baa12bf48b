-- ===== src/Services/Passkeys.antt =====
-- internal/services/passkey_service.go: the WebAuthn ceremonies. github.com/go-webauthn runs a
-- ceremony: a parameter, by what it is given. A request is what the service reads of it.
pub mod Sound
pub mod Clone
mod Tests
use Prim.Native.Char.{code}
use Prim.Native.String.{◌∷◌}
use finn_api_go.Prelude.{
  ℕ, ◌*◌, ◌==◌, String, str_eq, ◌<>◌, is_empty, Bool, true, false, not, ◌&&◌, Option, none, some,
  List, [], ◌∷◌, if◌then◌else◌,
}
use finn_api_go.Prelude.Int64.{show_uint}
use finn_api_go.Models.{User, PasskeyCredential}
use finn_api_go.Store.{Value, text}
use finn_api_go.Store
use finn_api_go.Database.{
  Action, Result, ok, err, ⊤, ◌>>=◌, ◌>>◌, pure, raise, raise_if, attempt, ignore, user_not_found,
  account_disabled, session_not_found, passkey_challenge, passkey_credential_revoked,
  passkey_not_configured, ceremony,
}
use finn_api_go.Repositories.Users
use finn_api_go.Repositories.Passkeys
use finn_api_go.Services.{Env, AuthService, TokenPair, UserProfile}
use finn_api_go.Services.Support.{audit, draw, store_call, store_do}
use finn_api_go.Services.Closure.{issue_passkey_token_pair}

-- `http.Request`
pub record Request : Type 0 where
  pub body : String
  pub remote_addr : String
  pub user_agent : String

-- `webauthn.Credential`
pub record Credential : Type 0 where
  pub id : String
  pub public_key : String
  pub attestation_type : String
  pub attestation_format : String
  pub transport : List String
  pub sign_count : ℕ
  pub clone_warning : Bool

-- A session is the text that is staged. `begin_registration` and `begin_login` give the options and
-- the session by the number of the draw, the user and the user's credentials; with user
-- verification required. The codecs of the staged values and of the transports are JSON's.
pub record WebauthnLib : Type 0 where
  pub begin_registration : ℕ → User → List Credential → Option (String × String)
  pub finish_registration : User → List Credential → String → Request → Option Credential
  pub begin_login : ℕ → User → List Credential → Option (String × String)
  pub finish_login : User → List Credential → String → Request → Option Credential
  pub marshal_registration : String → String → String
  pub unmarshal_registration : String → Option (String × String)
  pub marshal_login : String → String
  pub unmarshal_login : String → Option String
  pub marshal_transports : List String → String
  pub unmarshal_transports : String → List String

pub record PasskeyService : Type 0 where
  pub web : WebauthnLib
  -- The issuer of tokens.
  pub tokens : Option AuthService

abbrev pub challenge_ttl : ℕ
challenge_ttl = 60 * 1_000_000_000

abbrev pub reg_session_key : ℕ → String
reg_session_key uid = "passkey:reg:" <> show_uint uid

abbrev pub auth_session_key : ℕ → String
auth_session_key uid = "passkey:auth:" <> show_uint uid

-- What stands before the last colon.
unfoldable pub before_last_colon : String → Option String
before_last_colon String.[] = none
before_last_colon (String.◌∷◌ c s) = elim (before_last_colon s) [
  | some before ↦ some (String.◌∷◌ c before)
  | none ↦ if code c == b':' then some "" else none
]

-- `clientIPFrom`
unfoldable pub client_ip_from : Request → String
client_ip_from r = elim (before_last_colon r.remote_addr) [
  | none ↦ r.remote_addr
  | some host ↦ if is_empty host then r.remote_addr else host
]

module _ (env : Env) (svc : PasskeyService) (tid : String) (now : ℕ) where
  -- `credentialFromRow`
  abbrev pub credential_from_row : PasskeyCredential → Credential
  credential_from_row row = record {
    id = row.credential_id;
    public_key = row.public_key;
    attestation_type = row.attestation_type;
    attestation_format = "";
    transport = svc.web.unmarshal_transports row.transports;
    sign_count = row.sign_count;
    clone_warning = false;
  }

  unfoldable pub credentials_from_rows : List PasskeyCredential → List Credential
  credentials_from_rows [] = []
  credentials_from_rows (row ∷ rows) = credential_from_row row ∷ credentials_from_rows rows

  -- `transportsJSON`
  unfoldable pub transports_json : List String → String
  transports_json [] = "[]"
  transports_json (t ∷ ts) = svc.web.marshal_transports (t ∷ ts)

  -- `loadUser`: an active user, with the credentials that are not revoked.
  unfoldable pub load_user : ℕ → Action (User × List Credential)
  load_user uid = do
    found ← Users.find_by_id tid uid
    elim found [
      | none ↦ raise user_not_found
      | some user ↦ do
        raise_if (not user.is_active) account_disabled
        rows ← Passkeys.list_by_user tid uid false
        pure (user, credentials_from_rows rows)
    ]

  -- `stageJSON`
  unfoldable pub stage_text : String → String → Action ⊤
  stage_text key raw = store_do (λ s. Store.set now key s (text raw) challenge_ttl)

  abbrev staged_text : Option Value → Option String
  staged_text (some (text raw)) = some raw
  staged_text other = none

  -- `takeJSON`: a challenge is taken once.
  unfoldable pub take_staged : {A : Type 0} → String → (String → Option A) → Action A
  take_staged key unmarshal = do
    raw ← store_call none (Store.take now key)
    elim (staged_text raw) [
      | none ↦ raise passkey_challenge
      | some t ↦ elim (unmarshal t) [ none ↦ raise passkey_challenge | some a ↦ pure a ]
    ]

  abbrev run_ceremony {ℓ} : {A : Type ℓ} → Option A → Action A
  run_ceremony none = raise ceremony
  run_ceremony (some a) = pure a

  -- `BeginRegistration`
  unfoldable pub begin_registration : ℕ → String → Action String
  begin_registration uid display_name = do
    user ← load_user uid
    n ← draw
    begun ← run_ceremony (svc.web.begin_registration n user.0 user.1)
    stage_text (reg_session_key uid) (svc.web.marshal_registration begun.1 display_name)
    pure begun.0

  -- `FinishRegistration`
  unfoldable pub finish_registration : ℕ → Request → Action PasskeyCredential
  finish_registration uid r = do
    staged ← take_staged (reg_session_key uid) svc.web.unmarshal_registration
    user ← load_user uid
    cred ← run_ceremony (svc.web.finish_registration user.0 user.1 staged.0 r)
    let row : PasskeyCredential = record {
      id = 0;
      user_id = uid;
      credential_id = cred.id;
      public_key = cred.public_key;
      sign_count = cred.sign_count;
      display_name = staged.1;
      transports = transports_json cred.transport;
      attestation_type = cred.attestation_type;
      last_used_at = none;
      revoked = false;
    }
    Passkeys.create tid row
    audit (some uid) "" "passkey_registered" (client_ip_from r) true row.display_name
    pure row

  -- `BeginAuthentication`
  unfoldable pub begin_authentication : ℕ → Action String
  begin_authentication uid = do
    user ← load_user uid
    n ← draw
    begun ← run_ceremony (svc.web.begin_login n user.0 user.1)
    stage_text (auth_session_key uid) (svc.web.marshal_login begun.1)
    pure begun.0

  abbrev pub own_id : ℕ → Result (Option PasskeyCredential) → ℕ
  own_id uid (ok (some row)) = if row.user_id == uid then row.id else 0
  own_id uid other = 0

  -- `rowIDByCredential`: 0 where there is no such row of the user.
  unfoldable pub row_id_by_credential : ℕ → String → Action ℕ
  row_id_by_credential uid cid = do
    found ← attempt (Passkeys.find_by_credential_id tid cid)
    pure (own_id uid found)

  -- A counter that went back: the credential ends, and so does the login.
  unfoldable pub clone_detected : ℕ → Request → Credential → Action (TokenPair × UserProfile)
  clone_detected uid r cred = do
    id ← row_id_by_credential uid cred.id
    ignore (Passkeys.revoke_by_id tid id uid)
    audit (some uid) "" "passkey.clone_detected" (client_ip_from r) false
        "signCount regression on passkey credential — revoked"
    raise passkey_credential_revoked

  -- `completeAuthentication`
  unfoldable pub complete_authentication :
      AuthService → ℕ → Request → User → Credential → Action (TokenPair × UserProfile)
  complete_authentication auth uid r user cred =
      if cred.clone_warning then clone_detected uid r cred else (do
        id ← row_id_by_credential uid cred.id
        ignore (Passkeys.touch_usage tid id cred.sign_count now)
        audit (some uid) "" "passkey_login" (client_ip_from r) true cred.attestation_format
        issue_passkey_token_pair env auth tid now user (client_ip_from r) r.user_agent)

  unfoldable pub authenticate : AuthService → ℕ → Request → Action (TokenPair × UserProfile)
  authenticate auth uid r = do
    session ← take_staged (auth_session_key uid) svc.web.unmarshal_login
    user ← load_user uid
    cred ← run_ceremony (svc.web.finish_login user.0 user.1 session r)
    complete_authentication auth uid r user.0 cred

  unfoldable pub finish_with : Option AuthService → ℕ → Request → Action (TokenPair × UserProfile)
  finish_with none uid r = raise passkey_not_configured
  finish_with (some auth) uid r = authenticate auth uid r

  -- `FinishAuthentication`
  unfoldable pub finish_authentication : ℕ → Request → Action (TokenPair × UserProfile)
  finish_authentication uid r = finish_with svc.tokens uid r

  -- `List`
  unfoldable pub list_passkeys : ℕ → Action (List PasskeyCredential)
  list_passkeys uid = Passkeys.list_by_user tid uid false

  -- `Revoke`
  unfoldable pub revoke_passkey : ℕ → ℕ → Action ⊤
  revoke_passkey id uid = do
    revoked ← attempt (Passkeys.revoke_by_id tid id uid)
    elim revoked [
      | err e ↦ raise session_not_found
      | ok u ↦ audit (some uid) "" "passkey_revoked" "" true "device revoked by user"
    ]
