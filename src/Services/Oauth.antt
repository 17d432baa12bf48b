-- ===== src/Services/Oauth.antt =====
-- internal/services/oauth_service.go: sign-in with Google. The exchange of a code, the verification
-- of an id token, JSON, the random source and SHA-256 are parameters.
pub mod Vouch
mod Tests
use finn_api_go.Prelude.{
  ℕ, ◌*◌, ◌==◌, String, str_eq, ◌<>◌, is_empty, Bool, true, false, not, ◌&&◌, ◌||◌, Option, none,
  some, List, [], ◌∷◌, ltb, length, if◌then◌else◌,
}
use finn_api_go.Models.{User, OauthIdentity, PasskeyCredential, role_user}
use finn_api_go.Store.{Value, text}
use finn_api_go.Store
use finn_api_go.Database.{
  Action, Result, ok, err, ⊤, ◌>>=◌, ◌>>◌, pure, raise, raise_if, attempt, when, security_alert,
  generating, user_not_found, account_disabled, email_exists, username_exists, duplicate_key,
  oauth_state_invalid, oauth_email_not_verified, oauth_code_exchange_failed,
  oauth_token_verification_failed, oauth_not_configured, oauth_email_taken,
  cannot_unlink_only_method,
}
use finn_api_go.Repositories.Users
use finn_api_go.Repositories.Oauth
use finn_api_go.Repositories.Passkeys
use finn_api_go.Services.{Env, AuthService, LoginResult, minute}
use finn_api_go.Services.Support.{audit, send, draw, store_call}
use finn_api_go.Services.Login.{check_mfa_or_issue_tokens, normal_email}
use finn_api_go.Services.Passwords.{email_local_part}

-- `GoogleIDTokenClaims`
pub record GoogleIdTokenClaims : Type 0 where
  pub sub : String
  pub email : String
  pub email_verified : Bool
  pub name : String
  pub nonce : String

-- `oauthChallenge`
pub record OauthChallenge : Type 0 where
  pub verifier : String
  pub nonce : String

-- The random source by the number of the draw and the count of bytes, as hex and as base64url;
-- `json.Marshal` and `Unmarshal` of a challenge; the client and the verifier. An exchange that
-- succeeds may come without an id token. `names_username`: whether the database's message on a
-- duplicate names the username and not the address.
pub record OauthLib : Type 0 where
  pub random_hex : ℕ → ℕ → Option String
  pub random_url : ℕ → ℕ → Option String
  pub s256_challenge : String → String
  pub marshal : OauthChallenge → String
  pub unmarshal : String → Option OauthChallenge
  pub auth_code_url : String → String → String → String
  pub exchange : ℕ → String → String → Option (Option String)
  pub verify : ℕ → String → Result GoogleIdTokenClaims
  pub names_username : String → String → Bool

pub record OauthService : Type 0 where
  pub lib : OauthLib
  -- The client is configured.
  pub configured : Bool
  pub auth : AuthService
  pub notifier_wired : Bool
  pub audits_wired : Bool
  pub passkeys_wired : Bool

abbrev pub google : String
google = "google"

abbrev pub oauth_state_ttl : ℕ
oauth_state_ttl = 10 * minute

abbrev pub oauth_challenge_key : String → String
oauth_challenge_key state = "oauth:state:" <> state

-- `generateUsernameFromEmail`
unfoldable pub generate_username_from_email : String → String
generate_username_from_email email =
    let part = email_local_part email in if is_empty part then email else part

abbrev no_passkeys : Result (List PasskeyCredential) → Bool
no_passkeys (err e) = true
no_passkeys (ok rows) = not (ltb 0 (length rows))

module _ (env : Env) (svc : OauthService) (tid : String) (now : ℕ) where
  abbrev some_random : Option String → Action String
  some_random none = raise generating
  some_random (some s) = pure s

  unfoldable pub random_text : (ℕ → ℕ → Option String) → ℕ → Action String
  random_text source bytes = do n ← draw; some_random (source n bytes)

  -- `BeginLogin`: the state and the URL; no URL where Google sign-in is not configured.
  unfoldable pub begin_login : Action (String × String)
  begin_login = if not svc.configured then pure ("", "") else (do
    state ← random_text svc.lib.random_hex 32
    verifier ← random_text svc.lib.random_url 64
    nonce ← random_text svc.lib.random_hex 16
    let challenge : OauthChallenge = record { verifier = verifier; nonce = nonce }
    fresh ← store_call true (λ s.
        Store.set_nx now (oauth_challenge_key state) s (text (svc.lib.marshal challenge))
          oauth_state_ttl)
    raise_if (not fresh) generating
    pure (state, svc.lib.auth_code_url state (svc.lib.s256_challenge verifier) nonce))

  unfoldable pub staged_challenge : Option Value → Option OauthChallenge
  staged_challenge (some (text raw)) = elim (svc.lib.unmarshal raw) [
    | none ↦ none
    | some c ↦ if is_empty c.verifier then none else some c
  ]
  staged_challenge other = none

  -- `ConsumeState`: taken once; without a store, refused.
  unfoldable pub consume_state : String → Action OauthChallenge
  consume_state state = if is_empty state then raise oauth_state_invalid else (do
    raw ← store_call none (Store.take now (oauth_challenge_key state))
    elim (staged_challenge raw) [ none ↦ raise oauth_state_invalid | some c ↦ pure c ])

  -- The claims that echo the nonce of the challenge, of an address that Google has verified.
  unfoldable pub bound_claims :
      OauthChallenge → Result GoogleIdTokenClaims → Action GoogleIdTokenClaims
  bound_claims challenge (err e) = raise e
  bound_claims challenge (ok claims) =
      if is_empty claims.nonce || not (str_eq claims.nonce challenge.nonce)
      then raise oauth_token_verification_failed
      else if not claims.email_verified
      then raise oauth_email_not_verified
      else pure claims

  unfoldable pub id_token_claims : OauthChallenge → Option String → Action GoogleIdTokenClaims
  id_token_claims challenge none = raise oauth_token_verification_failed
  id_token_claims challenge (some raw) =
      if is_empty raw
      then raise oauth_token_verification_failed
      else bound_claims challenge (svc.lib.verify now raw)

  -- The code for an id token, and its claims.
  unfoldable pub verified_claims : String → OauthChallenge → Action GoogleIdTokenClaims
  verified_claims code challenge = elim (svc.lib.exchange now code challenge.verifier) [
    | none ↦ raise oauth_code_exchange_failed
    | some token ↦ id_token_claims challenge token
  ]

  -- `linkIdentity`
  unfoldable pub link_identity : User → GoogleIdTokenClaims → String → Action ⊤
  link_identity user claims ip = do
    existing ← Oauth.find_by_provider_and_provider_user_id tid google claims.sub
    elim existing [
      | some link ↦ pure tt
      | none ↦ do
        Oauth.create tid
            (record { id = 0; user_id = user.id; provider = google; provider_user_id = claims.sub })
        when svc.audits_wired
            (audit (some user.id) user.email "oauth_linked" ip true "linked google oauth account")
        when svc.notifier_wired (send (security_alert user.email "oauth_linked"))
    ]

  -- The name, with a suffix where it is taken.
  unfoldable pub free_username : String → Action String
  free_username username = do
    existing ← Users.find_by_username tid username
    elim existing [
      | none ↦ pure username
      | some other ↦ do suffix ← random_text svc.lib.random_hex 3; pure (username <> suffix)
    ]

  -- `mapDuplicateKey`
  abbrev map_duplicate_key : String → String → Result User → Action User
  map_duplicate_key email username (ok user) = pure user
  map_duplicate_key email username (err duplicate_key) =
      if svc.lib.names_username email username then raise username_exists else raise email_exists
  map_duplicate_key email username (err e) = raise e

  -- `createGoogleUser`
  unfoldable pub create_google_user : GoogleIdTokenClaims → String → Action User
  create_google_user claims email = do
    username ← free_username (generate_username_from_email email)
    created ← attempt (
        Users.create tid (record {
          id = 0;
          tenant_id = "";
          username = username;
          email = email;
          password = "";
          full_name = claims.name;
          role = role_user;
          is_active = true;
          is_email_verified = true;
          failed_login_attempts = 0;
          locked_until = none;
          auth_epoch = 0;
          admin_suspended = false;
          pwd_version = 0;
        }))
    map_duplicate_key email username created

  unfoldable pub link_new : GoogleIdTokenClaims → String → String → Option User → Action User
  link_new claims email ip (some user) =
      if not user.is_email_verified
      then raise oauth_email_taken
      else (do link_identity user claims ip; pure user)
  link_new claims email ip none = do
    user ← create_google_user claims email
    link_identity user claims ip
    pure user

  unfoldable pub user_of_link : OauthIdentity → Action User
  user_of_link link = do
    found ← Users.find_by_id tid link.user_id
    elim found [ none ↦ raise user_not_found | some user ↦ pure user ]

  unfoldable pub identity_found :
      GoogleIdTokenClaims → String → String → Option OauthIdentity → Action User
  identity_found claims email ip (some link) = user_of_link link
  identity_found claims email ip none = do
    found ← Users.find_by_email tid email
    link_new claims email ip found

  -- `findOrCreateUser`: the stored link wins; then a verified account with the address; then a new
  -- account.
  unfoldable pub find_or_create_user : GoogleIdTokenClaims → String → String → Action User
  find_or_create_user claims email ip = do
    ident ← Oauth.find_by_provider_and_provider_user_id tid google claims.sub
    identity_found claims email ip ident

  -- From the account on: the same path as with a password.
  unfoldable pub sign_in : String → String → User → Action LoginResult
  sign_in ip ua user = do
    raise_if (not user.is_active) account_disabled
    check_mfa_or_issue_tokens env svc.auth tid now user ip ua "google-oauth"

  unfoldable pub claims_verified : String → String → GoogleIdTokenClaims → Action LoginResult
  claims_verified ip ua claims = do
    user ← find_or_create_user claims (normal_email claims.email) ip
    sign_in ip ua user

  unfoldable pub challenged : String → String → String → OauthChallenge → Action LoginResult
  challenged code ip ua challenge =
      if not svc.configured
      then raise oauth_not_configured
      else (do claims ← verified_claims code challenge; claims_verified ip ua claims)

  -- `HandleCallback`
  unfoldable pub handle_callback : String → String → String → String → Action LoginResult
  handle_callback code state ip ua = do
    challenge ← consume_state state
    challenged code ip ua challenge

  -- Whether a password or a passkey is left to sign in with.
  unfoldable pub has_other_method : User → Action Bool
  has_other_method user =
      if not svc.passkeys_wired then pure (not (is_empty user.password)) else (do
        rows ← attempt (Passkeys.list_by_user tid user.id false)
        pure (not (is_empty user.password) || not (no_passkeys rows)))

  unfoldable pub linked_user : ℕ → Option OauthIdentity → Action (Option User)
  linked_user uid none = raise user_not_found
  linked_user uid (some link) = Users.find_by_id tid uid

  -- `Unlink`: never the last way in.
  unfoldable pub unlink : ℕ → String → String → Action ⊤
  unlink uid provider ip = do
    existing ← Oauth.find_by_user_id_and_provider tid uid provider
    found ← linked_user uid existing
    elim found [
      | none ↦ raise user_not_found
      | some user ↦ do
        other ← has_other_method user
        raise_if (not other) cannot_unlink_only_method
        Oauth.delete_by_user_id_and_provider tid uid provider
        when svc.audits_wired (
            audit (some user.id) user.email "oauth_unlinked" ip true
              ("unlinked " <> provider <> " oauth account"))
        when svc.notifier_wired (send (security_alert user.email "oauth_unlinked"))
    ]
