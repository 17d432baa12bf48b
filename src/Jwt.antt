-- ===== src/Jwt.antt =====
-- internal/jwt/jwt.go and v1.go: issuing and verifying tokens over a keyset.
-- github.com/golang-jwt signs and parses (signature, algorithm, issuer, expiry), and Go's base64
-- and JSON decoders read the raw parts: parameters of the section. Uuids are arguments.
pub mod Keys
pub mod Contract
pub mod Strict
mod Tests
use finn_api_go.Prelude.{
  ℕ, ◌+◌, ◌-◌, ◌*◌, ◌/◌, ◌==◌, String, str_eq, is_empty, ◌<>◌, Bool, true, false, not, ◌&&◌, ◌||◌,
  Option, none, some, List, [], ◌∷◌, ltb, leb, length, if◌then◌else◌,
}
use finn_api_go.Prelude.Dict.{lookup}
use finn_api_go.Prelude.Int64.{show_uint}
use finn_api_go.Prelude.Text.{split, equal_fold, trim_space}
use finn_api_go.Repositories.Rbac.{contains}

-- `Claims`, with the registered ones; times in nanoseconds.
pub record Claims : Type 0 where
  pub user_id : ℕ
  pub role : String
  pub email : String
  pub token_type : String
  pub pwd_ver : ℕ
  pub auth_epoch : ℕ
  pub contract_version : ℕ
  pub sid : String
  pub tenant_id : String
  -- `nil` is `none`.
  pub permissions : Option (List String)
  pub issuer : String
  pub subject : String
  pub audience : List String
  pub expires_at : Option ℕ
  pub not_before : Option ℕ
  pub issued_at : Option ℕ
  pub jti : String

-- Token types, audiences and bounds.
abbrev pub access : String
access = "access"

abbrev pub reset : String
reset = "reset"

abbrev pub verify_email : String
verify_email = "verify-email"

abbrev pub mfa_pending : String
mfa_pending = "mfa_pending"

abbrev pub sudo : String
sudo = "sudo"

abbrev pub deployment_issuer : String
deployment_issuer = "finnapigo"

abbrev pub finn_audience : String
finn_audience = "finnapigo-api"

abbrev pub jake_audience : String
jake_audience = "jakeai-service"

abbrev pub second : ℕ
second = 1_000_000_000

abbrev pub max_access_ttl : ℕ
max_access_ttl = 900 * second

abbrev pub max_skew : ℕ
max_skew = 30 * second

abbrev pub key_drain : ℕ
key_drain = 930 * second

-- A JSON value as the checks look at it.
mutual
  pub data Json : Type 0 where
    null : Json
    text : String → Json
    -- An integer that fits int64: the sign, and the absolute value.
    integer : Bool → ℕ → Json
    array : JsonItems → Json
    other : Json

  pub data JsonItems : Type 0 where
    nil : JsonItems
    cons : Json → JsonItems → JsonItems

-- What golang-jwt and Go's decoders do.
pub record JwtLib : Type 0 where
  -- The key's id, the key, the claims.
  pub sign : String → String → Claims → Option String
  -- The kid header of an unverified token, "" if it has none or cannot be read.
  pub peek_kid : String → String
  -- Whether the manager is strict, its issuer, the time, the key, the token.
  pub parse_with_claims : Bool → String → ℕ → String → String → Option Claims
  pub raw_url_decode : String → Option String
  -- The members of a JSON object in the order in which they are read, up to the end of the text.
  pub object_members : String → Option (List (String × Json))

pub record JwtManager : Type 0 where
  pub strict : Bool
  pub previous_id : String
  pub previous_retires : ℕ
  pub issuer : String
  pub current : String
  pub current_kid : String
  pub keys : List (String × String)
  pub try_order : List String

-- `jwt.NewNumericDate` keeps whole seconds.
unfoldable pub numeric_date : ℕ → ℕ
numeric_date t = t / second * second

unfoldable pub base_claims : JwtManager → ℕ → ℕ → String → String → String → ℕ → Claims
unfolding numeric_date show_uint
base_claims m now uid role email token_type ttl = record {
  user_id = uid;
  role = role;
  email = email;
  token_type = token_type;
  pwd_ver = 0;
  auth_epoch = 0;
  contract_version = 0;
  sid = "";
  tenant_id = "";
  permissions = none;
  issuer = m.issuer;
  subject = show_uint uid;
  audience = [];
  expires_at = some (numeric_date (now + ttl));
  not_before = some (numeric_date now);
  issued_at = some (numeric_date now);
  jti = "";
}

-- The second clause of `Verify`'s object checks: a name that occurs twice refuses the object.
unfoldable pub unique_members : List String → List (String × Json) → Bool
unfolding contains
unique_members seen [] = true
unique_members seen ((k, v) ∷ rest) =
    let later = unique_members (k ∷ seen) rest in if contains k seen then false else later

abbrev pub protected_headers : List String
protected_headers =
    "alg" ∷ "kid" ∷ "typ" ∷ "cty" ∷ "crit" ∷ "jku" ∷ "jwk" ∷ "x5u" ∷ "x5c" ∷ "x5t" ∷ "x5t#S256"
    ∷ "b64" ∷ []

abbrev pub protected_claims : List String
protected_claims =
    "contract_ver" ∷ "iss" ∷ "aud" ∷ "sub" ∷ "uid" ∷ "type" ∷ "tid" ∷ "exp" ∷ "iat" ∷ "nbf" ∷ "jti"
    ∷ "sid" ∷ "pwdver" ∷ "auth_epoch" ∷ "perms" ∷ "role" ∷ "email" ∷ "tenant_id" ∷ "permissions"
    ∷ "roles" ∷ "scopes" ∷ "id" ∷ []

-- Whether a member's name is a canonical one in another spelling.
unfoldable pub misspelt : List String → String → Bool
unfolding equal_fold
misspelt [] key = false
misspelt (name ∷ names) key = (not (str_eq key name) && equal_fold key name) || misspelt names key

unfoldable pub any_misspelt : List String → List (String × Json) → Bool
unfolding misspelt
any_misspelt names [] = false
any_misspelt names ((k, v) ∷ rest) = misspelt names k || any_misspelt names rest

-- The names that must be there and not null, and those that must not be there.
unfoldable pub all_present : List String → List (String × Json) → Bool
unfolding lookup
all_present [] raw = true
all_present (name ∷ names) raw =
    elim (lookup name raw) [ none ↦ false | some v ↦ elim v [ null ↦ false | _ ↦ true ] ]
    && all_present names raw

unfoldable pub all_absent : List String → List (String × Json) → Bool
unfolding lookup
all_absent [] raw = true
all_absent (name ∷ names) raw =
    elim (lookup name raw) [ none ↦ true | some v ↦ false ] && all_absent names raw

-- `n < 0` is an error, and so is what is no integer.
unfoldable pub all_natural : List String → List (String × Json) → Bool
unfolding lookup
all_natural [] raw = true
all_natural (name ∷ names) raw =
    elim (lookup name raw) [
      | none ↦ false
      | some v ↦ elim v [ integer negative n ↦ not negative || n == 0 | _ ↦ false ]
    ]
    && all_natural names raw
