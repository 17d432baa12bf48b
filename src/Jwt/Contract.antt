-- ===== src/Jwt/Contract.antt =====
-- internal/jwt/v1.go: `validateTokenNames` and `validateAccess`, the contract of a v1 access token.
use finn_api_go.Prelude.{
  ℕ, ◌+◌, ◌-◌, ◌==◌, String, str_eq, is_empty, Bool, true, false, not, ◌&&◌, ◌||◌, Option, none,
  some, List, [], ◌∷◌, ltb, leb, length, if◌then◌else◌,
}
use finn_api_go.Prelude.Dict.{lookup}
use finn_api_go.Prelude.Int64.{show_uint}
use finn_api_go.Prelude.Text.{split, trim_space}
use finn_api_go.Jwt.{
  Claims, Json, JsonItems, text, array, nil, cons, JwtLib, access, deployment_issuer, finn_audience,
  jake_audience, max_access_ttl, max_skew, unique_members, any_misspelt, protected_headers,
  protected_claims, all_present, all_absent, all_natural,
}

-- Every permission is a string, and the value is an array.
unfoldable pub all_texts : JsonItems → Bool
all_texts nil = true
all_texts (cons (text s) rest) = all_texts rest
all_texts (cons _ rest) = false

unfoldable pub perms_ok : List (String × Json) → Bool
perms_ok raw = elim (lookup "perms" raw) [
  | none ↦ false
  | some v ↦ elim v [ array items ↦ all_texts items | _ ↦ false ]
]

-- The loop over the audiences: each is known, and none occurs twice.
unfoldable pub audiences_ok : Bool → Bool → List String → Bool
audiences_ok has_finn has_jake [] = true
audiences_ok has_finn has_jake (a ∷ rest) =
    let finn = not has_finn && audiences_ok true has_jake rest in
    let jake = not has_jake && audiences_ok has_finn true rest in
    if str_eq a finn_audience then finn else if str_eq a jake_audience then jake else false

unfoldable pub has_audience : String → List String → Bool
has_audience audience [] = false
has_audience audience (a ∷ rest) = str_eq a audience || has_audience audience rest

-- The checks on the typed claims: identity.
unfoldable pub identity_ok : Claims → Bool
identity_ok c =
    c.contract_version == 1
    && str_eq c.issuer deployment_issuer
    && str_eq c.token_type access
    && not (c.user_id == 0)
    && str_eq c.subject (show_uint c.user_id)
    && not (is_empty (trim_space c.tenant_id))
    && not (is_empty c.jti)
    && not (is_empty c.sid)
    && elim c.permissions [ none ↦ false | some ps ↦ true ]

-- Times: exp, iat and nbf are there, the lifetime is at most 900 s, nbf lies in it, and the token is
-- not from the future nor over, give or take 30 s.
abbrev pub window_ok : ℕ → ℕ → ℕ → ℕ → Bool
window_ok now exp iat nbf =
    ltb iat exp
    && leb (exp - iat) max_access_ttl
    && leb iat nbf
    && leb nbf exp
    && leb iat (now + max_skew)
    && leb nbf (now + max_skew)
    && ltb now (exp + max_skew)

unfoldable pub times_ok : ℕ → Claims → Bool
times_ok now c = elim c.expires_at [
  | none ↦ false
  | some exp ↦ elim c.issued_at [
    | none ↦ false
    | some iat ↦ elim c.not_before [ none ↦ false | some nbf ↦ window_ok now exp iat nbf ]
  ]
]

unfoldable pub audience_ok : String → Claims → Bool
audience_ok audience c =
    (length c.audience == 1 || length c.audience == 2)
    && audiences_ok false false c.audience
    && has_audience audience c.audience
    && has_audience finn_audience c.audience

abbrev required_names : List String
required_names =
    "contract_ver" ∷ "iss" ∷ "aud" ∷ "sub" ∷ "uid" ∷ "type" ∷ "tid" ∷ "exp" ∷ "iat" ∷ "nbf" ∷ "jti"
    ∷ "sid" ∷ "pwdver" ∷ "auth_epoch" ∷ "perms" ∷ []

abbrev forbidden_names : List String
forbidden_names = "tenant_id" ∷ "permissions" ∷ "roles" ∷ "scopes" ∷ "id" ∷ []

abbrev integer_names : List String
integer_names = "contract_ver" ∷ "uid" ∷ "pwdver" ∷ "auth_epoch" ∷ "exp" ∷ "iat" ∷ "nbf" ∷ []

module _ (lib : JwtLib) where
  -- `uniqueObject`, on a part of the token.
  unfoldable pub unique_object : String → Option (List (String × Json))
  unique_object part = elim (lib.raw_url_decode part) [
    | none ↦ none
    | some bytes ↦ elim (lib.object_members bytes) [
      | none ↦ none
      | some raw ↦ if unique_members [] raw then some raw else none
    ]
  ]

  -- `validateTokenNames`
  unfoldable pub names_ok : List String → Bool
  names_ok (header ∷ claims ∷ signature ∷ []) = elim (unique_object header) [
    | none ↦ false
    | some h ↦ not (any_misspelt protected_headers h) && elim (unique_object claims) [
      | none ↦ false
      | some c ↦ not (any_misspelt protected_claims c)
    ]
  ]
  names_ok _ = false

  -- The checks of `validateAccess` on the raw parts.
  unfoldable pub raw_ok : List String → Bool
  raw_ok (header ∷ claims ∷ signature ∷ []) = elim (unique_object claims) [
    | none ↦ false
    | some raw ↦ elim (unique_object header) [
      | none ↦ false
      | some h ↦
          all_present required_names raw
          && all_absent forbidden_names raw
          && all_natural integer_names raw
          && perms_ok raw
    ]
  ]
  raw_ok _ = false

  -- `validateAccess`: nil is `true`.
  unfoldable pub validate_access : ℕ → String → Claims → String → Bool
  validate_access now token c audience =
      raw_ok (split b'.' token) && identity_ok c && times_ok now c && audience_ok audience c
