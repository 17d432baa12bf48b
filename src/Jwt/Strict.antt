-- ===== src/Jwt/Strict.antt =====
-- What a strict manager of internal/jwt has checked of an access token that it verifies.
use finn_api_go.Prelude.{ℕ, ◌+◌, ◌*◌, ◌≡◌, ◌≤◌, ◌<◌, String, is_empty, true, false, some}
use finn_api_go.Prelude.Dict.{lookup}
use finn_api_go.Jwt.{Claims, JwtLib, JwtManager, second}

module _ (lib : JwtLib) (m : JwtManager) (now : ℕ) (strict : m.strict ≡ true) where
  -- The key that the token names: known, and not the previous one after its retirement.
  abbrev pub KeyServes : String → Type 0
  KeyServes kid =
      (is_empty kid ≡ false)
      × (key : String) × (lookup kid m.keys ≡ some key)
      × (kid ≡ m.previous_id → now < m.previous_retires)

  -- Exp, iat and nbf are there, 900 s apart at most, and now is inside, give or take 30 s.
  abbrev pub IsTimely : Claims → Type 0
  IsTimely c =
      (exp iat nbf : ℕ) × (c.expires_at ≡ some exp)
      × (c.issued_at ≡ some iat)
      × (c.not_before ≡ some nbf)
      × (exp ≤ iat + 900 * second)
      × (iat ≤ nbf)
      × (nbf ≤ now + 30 * second)
      × (now < exp + 30 * second)
