-- ===== src/Jwt/Tests.antt =====
-- The properties of verified access tokens at a concrete token.
use finn_api_go.Prelude.{
  ◌*◌, ◌<◌, String, Bool, true, false, Option, none, some, List, [], ◌∷◌, arith,
}
use finn_api_go.Jwt.{Claims, JwtLib, JwtManager, Json, JsonItems, text, integer, array, nil, second}

abbrev claims : Claims
claims = record {
  user_id = 7;
  role = "user";
  email = "ada@example.org";
  token_type = "access";
  pwd_ver = 3;
  auth_epoch = 0;
  contract_version = 1;
  sid = "s1";
  tenant_id = "acme";
  permissions = some [];
  issuer = "finnapigo";
  subject = "7";
  audience = "finnapigo-api" ∷ [];
  expires_at = some (900 * second);
  not_before = some (90 * second);
  issued_at = some (90 * second);
  jti = "j1";
}

abbrev raw_claims : List (String × Json)
raw_claims =
    ("contract_ver", integer false 1)
    ∷ ("iss", text "finnapigo")
    ∷ ("aud", array nil)
    ∷ ("sub", text "7")
    ∷ ("uid", integer false 7)
    ∷ ("type", text "access")
    ∷ ("tid", text "acme")
    ∷ ("exp", integer false 900)
    ∷ ("iat", integer false 90)
    ∷ ("nbf", integer false 90)
    ∷ ("jti", text "j1")
    ∷ ("sid", text "s1")
    ∷ ("pwdver", integer false 3)
    ∷ ("auth_epoch", integer false 0)
    ∷ ("perms", array nil)
    ∷ []

abbrev lib : JwtLib
lib = record {
  sign = λ kid key c. some "h.c.s";
  peek_kid = λ token. "k1";
  parse_with_claims = λ strict issuer now key token. some claims;
  raw_url_decode = λ part. some part;
  object_members = λ bytes. some raw_claims;
}

abbrev manager : JwtManager
manager = record {
  strict = true;
  previous_id = "k0";
  previous_retires = 50;
  issuer = "finnapigo";
  current = "secret";
  current_kid = "k1";
  keys = ("k1", "secret") ∷ [];
  try_order = "k1" ∷ [];
}
