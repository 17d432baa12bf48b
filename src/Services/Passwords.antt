-- ===== src/Services/Passwords.antt =====
-- internal/services/auth_service.go: the rules on a password, its reset, change and first setting,
-- and the verification of an email address.
pub mod Rules
pub mod SingleUse
pub mod Change
mod Tests
use finn_api_go.Prelude.{
  ℕ, ◌+◌, ◌==◌, String, str_eq, ◌<>◌, is_empty, Bool, true, false, not, ◌&&◌, ◌||◌, Option, none,
  some, List, [], ◌∷◌, ltb, leb, if◌then◌else◌,
}
use Prim.Native.Char.{code}
use finn_api_go.Prelude.Text.{to_lower, trim_space, split, contains_text}
use finn_api_go.Models.{User}
use finn_api_go.Database.{
  World, Action, Result, ok, err, Error, ⊤, ◌>>=◌, ◌>>◌, pure, raise, raise_if, invalid_token,
  user_not_found, invalid_credentials, password_too_weak, password_breached, password_already_set,
  sudo_required,
}
use finn_api_go.Repositories.Users
use finn_api_go.Jwt.{Claims, reset, verify_email, sudo}
use finn_api_go.Jwt.Keys.{verify}
use finn_api_go.Services.{Env, AuthService}
use finn_api_go.Services.Support.{
  audit, byte_len, check_password, hash_password, max_password_bytes,
}
use finn_api_go.Services.Tokens.{
  with_tenant, consume_single_use_token, jti_store_ttl, mark_token_durable, apply_credential_change,
  bump_pwd_version,
}

abbrev between : ℕ → ℕ → ℕ → Bool
between lo hi n = leb lo n && leb n hi

unfoldable pub has_letter : String → Bool
has_letter String.[] = false
has_letter (String.◌∷◌ c s) =
    between b'a' b'z' (code c) || between b'A' b'Z' (code c) || has_letter s

unfoldable pub has_number : String → Bool
has_number String.[] = false
has_number (String.◌∷◌ c s) = between b'0' b'9' (code c) || has_number s

-- `sanitizedInputs`
unfoldable pub sanitized : List String → List String
sanitized [] = []
sanitized (input ∷ rest) =
    let more = sanitized rest in
    let clean = trim_space (to_lower input) in if is_empty clean then more else clean ∷ more

-- Whether the lowered password contains one of them that is 3 bytes long at least.
unfoldable pub contains_input : String → List String → Bool
contains_input pw [] = false
contains_input pw (input ∷ rest) =
    (leb 3 (byte_len input) && contains_text pw input) || contains_input pw rest

-- `validatePassword`: nil is `true`, and everything else is ErrPasswordTooWeak.
unfoldable pub validate_password : Env → String → ℕ → List String → Bool
validate_password env pw min_score inputs =
    if ltb (byte_len pw) 8
    then false
    else if ltb max_password_bytes (byte_len pw)
    then false
    else if not (has_letter pw) || not (has_number pw)
    then false
    else if contains_input (to_lower pw) (sanitized inputs)
    then false
    else if ltb 0 min_score
    then leb min_score (env.strength pw (sanitized inputs))
    else true

abbrev head_part : List String → String
head_part [] = ""
head_part (p ∷ ps) = p

-- `strings.Split(user.Email, "@")[0]`
unfoldable pub email_local_part : String → String
email_local_part email = head_part (split b'@' email)

module _ (env : Env) (svc : AuthService) where
  -- The checks on a new password, the user's names included, in the order of the code.
  unfoldable pub accept_password : User → String → Action ⊤
  accept_password user pw = do
    raise_if
        (not (
          validate_password env pw svc.min_password_score
            (user.username ∷ email_local_part user.email ∷ [])))
        password_too_weak
    raise_if (svc.breached_wired && env.breached pw) password_breached

  -- A token of the given type that verifies.
  unfoldable pub typed_claims : ℕ → String → String → Action Claims
  typed_claims now token_type token = elim (verify env.jwt_lib svc.jwt now token) [
    | none ↦ raise invalid_token
    | some c ↦ if str_eq c.token_type token_type then pure c else raise invalid_token
  ]

  abbrev expiry_of : Claims → ℕ
  expiry_of c = elim c.expires_at [ none ↦ 0 | some t ↦ t ]

  -- The token is spent in the store and in the table, or the flow ends here.
  unfoldable pub spend : String → ℕ → Claims → String → ℕ → Action ⊤
  spend tid now c token_type uid = do
    fresh ← consume_single_use_token svc tid now c.jti (jti_store_ttl svc tid now c)
    raise_if (not fresh) invalid_token
    mark_token_durable svc tid now c.jti token_type uid (expiry_of c)

  -- A new password, hashed and written with all that goes with it; the row says what it was for.
  unfoldable pub replace_password : String → ℕ → User → String → String → String → Action ⊤
  replace_password tid now user password event ip = do
    hashed ← hash_password env password
    apply_credential_change svc tid now user hashed
    audit (some user.id) "" event ip true ""

  -- What follows once the token is read and its user found.
  unfoldable pub reset_user : String → ℕ → Claims → User → String → String → Action ⊤
  reset_user tid now c user password ip = do
    accept_password user password
    spend tid now c reset user.id
    replace_password tid now user password "password_reset" ip

  -- `ResetPassword`: the tenant is the token's.
  unfoldable pub reset_password : ℕ → String → String → String → Action ⊤
  reset_password now token password ip = do
    c ← typed_claims now reset token
    let tid = with_tenant c.tenant_id
    found ← Users.find_by_id tid c.user_id
    elim found [ none ↦ raise user_not_found | some user ↦ reset_user tid now c user password ip ]

  -- `VerifyEmail`
  unfoldable pub verify_email_token : ℕ → String → Action ⊤
  verify_email_token now token = do
    c ← typed_claims now verify_email token
    let tid = with_tenant c.tenant_id
    found ← Users.find_by_id tid c.user_id
    elim found [
      | none ↦ raise user_not_found
      | some user ↦ do
        spend tid now c verify_email user.id
        Users.set_email_verified tid user true
        audit (some user.id) "" "email_verified" "" true ""
    ]

  -- `ChangePassword`
  unfoldable pub change_password : String → ℕ → ℕ → String → String → String → Action ⊤
  change_password tid now uid old password ip = do
    found ← Users.find_by_id tid uid
    elim found [
      | none ↦ raise user_not_found
      | some user ↦ do
        raise_if (not (check_password env user.password old)) invalid_credentials
        accept_password user password
        replace_password tid now user password "password_changed" ip
    ]

  -- `SetPassword`: the repository has the conditional update.
  unfoldable pub set_password : String → ℕ → ℕ → String → String → Action ⊤
  set_password tid now uid password ip = do
    found ← Users.find_by_id tid uid
    elim found [
      | none ↦ raise user_not_found
      | some user ↦ do
        raise_if (not (is_empty user.password)) password_already_set
        accept_password user password
        hashed ← hash_password env password
        won ← Users.set_first_password tid user.id hashed
        raise_if (not won) password_already_set
        bump_pwd_version svc tid now user.id
        audit (some user.id) user.email "password_set" ip true
            "first password set (oauth-only account)"
    ]

  -- A sudo token of the same user, or else the current password.
  abbrev sudo_ok : ℕ → User → String → Bool
  sudo_ok now user token = not (is_empty token) && elim (verify env.jwt_lib svc.jwt now token) [
    | none ↦ false
    | some c ↦
        str_eq c.token_type sudo
        && c.user_id == user.id
        && elim c.expires_at [ none ↦ false | some t ↦ true ]
  ]

  -- `verifySudoOrPassword`
  unfoldable pub verify_sudo_or_password : ℕ → User → String → String → Action ⊤
  verify_sudo_or_password now user token password =
      if sudo_ok now user token
      then pure tt
      else if not (is_empty password) && not (is_empty user.password)
      then raise_if (not (check_password env user.password password)) invalid_credentials
      else raise sudo_required
