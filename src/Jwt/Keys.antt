-- ===== src/Jwt/Keys.antt =====
-- internal/jwt/jwt.go and v1.go: the manager. It signs with the current key alone, and verifies with
-- the key that the token names.
use finn_api_go.Prelude.{
  ℕ, ◌==◌, String, str_eq, is_empty, ◌<>◌, Bool, true, false, not, ◌&&◌, ◌||◌, Option, none, some,
  List, [], ◌∷◌, ltb, leb, if◌then◌else◌,
}
use finn_api_go.Prelude.Dict.{lookup}
use finn_api_go.Prelude.Int64.{show_uint}
use finn_api_go.Prelude.Text.{split}
use finn_api_go.Jwt.{
  Claims, JwtLib, JwtManager, access, reset, verify_email, finn_audience, jake_audience,
  max_access_ttl, base_claims,
}
use finn_api_go.Jwt.Contract.{names_ok, validate_access}

abbrev pub purpose : String → String
purpose token_type = "finnapigo-purpose:" <> token_type

-- `p == "chat:read" || p == "chat:write"` for some permission.
unfoldable pub chats : List String → Bool
chats [] = false
chats (p ∷ ps) = str_eq p "chat:read" || str_eq p "chat:write" || chats ps

-- `Issue`: the claims that are signed. `tenants` is the variadic argument, `uuid` a fresh one.
unfoldable pub issue_claims :
    JwtManager → ℕ → ℕ → String → String → String → ℕ → List String → String → Option Claims
issue_claims m now uid role email token_type ttl tenants uuid =
    let base : Claims = base_claims m now uid role email token_type ttl in
    let single : Bool = str_eq token_type reset || str_eq token_type verify_email in
    let jti : String = if single then uuid else "" in
    elim tenants [
      | [] ↦ if m.strict then none else some (record base { jti = jti })
      | t ∷ more ↦
          if m.strict
          then if str_eq token_type access || is_empty t || elim more [ [] ↦ false | _ ↦ true ]
            then none
            else some (record base { tenant_id = t; audience = purpose token_type ∷ []; jti = jti })
          else some (record base { tenant_id = t; jti = jti })
    ]

-- `IssueAccessV1`
unfoldable pub access_v1_claims :
    JwtManager
    → ℕ
    → ℕ
    → String
    → String
    → ℕ
    → ℕ
    → ℕ
    → String
    → String
    → List String
    → String
    → Option Claims
access_v1_claims m now uid role email ttl pwd_ver auth_epoch sid tid perms uuid =
    if uid == 0 || is_empty sid || is_empty tid || ttl == 0 || ltb max_access_ttl ttl
    then none
    else let base : Claims = base_claims m now uid role email access ttl in
      some (record base {
        contract_version = 1;
        pwd_ver = pwd_ver;
        auth_epoch = auth_epoch;
        jti = uuid;
        sid = sid;
        tenant_id = tid;
        permissions = some perms;
        audience = if chats perms then finn_audience ∷ jake_audience ∷ [] else finn_audience ∷ [];
      })

-- `IssueAccessEnterprise`
unfoldable pub access_enterprise_claims :
    JwtManager
    → ℕ
    → ℕ
    → String
    → String
    → ℕ
    → ℕ
    → String
    → String
    → List String
    → String
    → Option Claims
access_enterprise_claims m now uid role email ttl pwd_ver sid tid perms uuid =
    if m.strict
    then access_v1_claims m now uid role email ttl pwd_ver 0 sid tid perms uuid
    else let base : Claims = base_claims m now uid role email access ttl in
      some (record base {
        pwd_ver = pwd_ver;
        jti = uuid;
        sid = sid;
        tenant_id = tid;
        permissions = some perms;
      })

module _ (lib : JwtLib) (m : JwtManager) where
  -- `sign`, on the claims that an `Issue…` has made.
  unfoldable pub sign : Option Claims → Option String
  sign none = none
  sign (some c) = lib.sign m.current_kid m.current c

  -- The strict manager's checks on a token of another purpose.
  unfoldable pub purpose_ok : Claims → Bool
  purpose_ok c =
      not (is_empty c.tenant_id)
      && not (c.user_id == 0)
      && str_eq c.subject (show_uint c.user_id)
      && elim c.audience [
        | [] ↦ false
        | a ∷ more ↦ elim more [ [] ↦ str_eq a (purpose c.token_type) | _ ↦ false ]
      ]
      && elim c.issued_at [ none ↦ false | some t ↦ true ]
      && elim c.not_before [ none ↦ false | some t ↦ true ]

  -- `parse`: golang-jwt's validation with one key, then the manager's own.
  unfoldable pub parse : ℕ → String → String → Option Claims
  parse now token key = elim (lib.parse_with_claims m.strict m.issuer now key token) [
    | none ↦ none
    | some c ↦
        if m.strict
        then if str_eq c.token_type access
          then if validate_access lib now token c finn_audience then some c else none
          else if purpose_ok c
          then some c
          else none
        else some c
  ]

  -- The loop of `Verify` over a token without a kid: the first key that opens it.
  unfoldable pub try_keys : ℕ → String → List String → Option Claims
  try_keys now token [] = none
  try_keys now token (kid ∷ kids) =
      let rest = try_keys now token kids in
      elim (lookup kid m.keys) [
        | none ↦ rest
        | some key ↦ elim (parse now token key) [ none ↦ rest | some c ↦ some c ]
      ]

  -- `Verify`
  unfoldable pub verify : ℕ → String → Option Claims
  verify now token =
      if m.strict && not (names_ok lib (split b'.' token))
      then none
      else let kid = lib.peek_kid token in
        if is_empty kid
        then if m.strict then none else try_keys now token m.try_order
        else if m.strict && str_eq kid m.previous_id && leb m.previous_retires now
        then none
        else elim (lookup kid m.keys) [ none ↦ none | some key ↦ parse now token key ]

  -- `VerifyAccessV1`
  unfoldable pub verify_access_v1 : ℕ → String → String → Option Claims
  verify_access_v1 now token audience =
      if str_eq audience finn_audience || str_eq audience jake_audience
      then elim (verify now token) [
        | none ↦ none
        | some c ↦ if validate_access lib now token c audience then some c else none
      ]
      else none
