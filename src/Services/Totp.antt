-- ===== src/Services/Totp.antt =====
-- internal/services/totp_service.go: the second factor. This file has the service, its seals, its
-- guards and its counters; the children have its operations.
-- github.com/pquerna/otp makes secrets and checks codes: parameters.
pub mod Enrol
pub mod Validate
pub mod Support
pub mod Once
pub mod Recovery
pub mod Counts
pub mod Cutoff
pub mod Rotation
pub mod Tests
use Prim.Native.Char.{code}
use Prim.Native.String.{char_at}
use finn_api_go.Prelude.{
  ℕ, ◌+◌, ◌*◌, ◌/◌, ◌%◌, ◌==◌, String, str_eq, ◌<>◌, is_empty, Bool, true, false, not, ◌&&◌, ◌||◌,
  Option, none, some, List, [], ◌∷◌, if◌then◌else◌,
}
use finn_api_go.Prelude.Int64.{Int64, lt64, show_uint}
use finn_api_go.Models.{TotpDevice, RecoveryCode}
use finn_api_go.Store.{text}
use finn_api_go.Store
use finn_api_go.Database.{
  Action, Result, ok, err, Error, Metrics, World, ⊤, ◌>>=◌, ◌>>◌, pure, raise, raise_if, attempt,
  when, ignore, rate_limited, sudo_required, totp_unrecoverable, sealing,
}
use finn_api_go.Repositories.Totp
use finn_api_go.Jwt.{Claims, JwtManager, sudo}
use finn_api_go.Jwt.Keys.{verify}
use finn_api_go.Crypto.{Byte, AeadLib, encrypt, decrypt, generate_random_bytes}
use finn_api_go.Services.{Env, minute}
use finn_api_go.Services.Support.{audit, count_metric, store_call, store_do, store_counter_value}

-- `totp.Generate` by the number of the draw, the issuer and the account: the secret and its URL.
-- `totp.ValidateCustom` at a time, of a code and a secret, with period, skew and digits.
pub record OtpLib : Type 0 where
  pub generate : ℕ → String → String → Option (String × String)
  pub validate_custom : ℕ → String → String → ℕ → ℕ → ℕ → Option Bool

pub record TotpConfig : Type 0 where
  pub totp_max_attempts : ℕ
  pub totp_attempt_window : ℕ
  pub recovery_code_count : ℕ
  pub recovery_code_bytes : ℕ

pub record TotpService : Type 0 where
  pub otp : OtpLib
  pub enc : AeadLib
  pub issuer : String
  pub cfg : TotpConfig
  pub jwt_mgr : Option JwtManager
  pub audits_wired : Bool
  pub users_wired : Bool
  pub notify_wired : Bool
  -- `ListByUser` of the passkeys: how many.
  pub passkeys : Option (String → ℕ → Action ℕ)

abbrev pub or_default : ℕ → ℕ → ℕ
or_default n d = if n == 0 then d else n

-- The defaults of `NewTOTPService`.
unfoldable pub new_totp_service : TotpService → TotpService
new_totp_service s = record s {
  cfg = record {
    totp_max_attempts = or_default s.cfg.totp_max_attempts 5;
    totp_attempt_window = or_default s.cfg.totp_attempt_window (5 * minute);
    recovery_code_count = or_default s.cfg.recovery_code_count 10;
    recovery_code_bytes = or_default s.cfg.recovery_code_bytes 16;
  };
}

abbrev pub second : ℕ
second = 1_000_000_000

abbrev pub totp_skew : ℕ
totp_skew = 1

abbrev pub totp_period : ℕ
totp_period = 30

abbrev pub totp_replay_ttl : ℕ
totp_replay_ttl = 120 * second

abbrev pub rotation_lock_ttl : ℕ
rotation_lock_ttl = 10 * second

abbrev pub count_totp_failure : Metrics → Metrics
count_totp_failure m = record m { totp_failures = m.totp_failures + 1 }

abbrev pub fail_key : ℕ → String
fail_key uid = "totp:fail:" <> show_uint uid

abbrev pub lock_key : ℕ → String
lock_key uid = "totp:rotatelock:" <> show_uint uid

-- `totpValid`
unfoldable pub totp_valid : OtpLib → ℕ → String → String → Bool
totp_valid lib now code secret =
    elim (lib.validate_custom now code secret totp_period totp_skew 6) [
      | none ↦ false
      | some valid ↦ valid
    ]

-- `hex.EncodeToString`
unfoldable pub encode_hex : List Byte → String
encode_hex [] = ""
encode_hex (b ∷ bs) =
    String.◌∷◌ (char_at "0123456789abcdef" (code b / 16 % 16))
      (String.◌∷◌ (char_at "0123456789abcdef" (code b % 16)) (encode_hex bs))

-- internal/hash: `MatchRecoveryCode`, over the rows. `ConstantTimeCompare` is equality.
unfoldable pub match_recovery_code : Env → String → List RecoveryCode → Option RecoveryCode
match_recovery_code env candidate [] = none
match_recovery_code env candidate (c ∷ cs) =
    if str_eq c.code_hash (env.sha256_hex candidate)
    then some c
    else match_recovery_code env candidate cs

module _ (env : Env) (svc : TotpService) (tid : String) (now : ℕ) where
  unfoldable pub record_success : ℕ → String → String → Action ⊤
  record_success uid event detail = do
    store_do (Store.delete now (fail_key uid))
    when svc.audits_wired (audit (some uid) "" event "" true detail)

  unfoldable pub record_failure : ℕ → String → Action ⊤
  record_failure uid detail = do
    count_metric count_totp_failure
    store_do (λ s. (Store.incr_by now (fail_key uid) s 1 svc.cfg.totp_attempt_window).1)
    when svc.audits_wired (audit (some uid) "" "totp_failed" "" false detail)

  -- Record the failure, then answer with the error.
  abbrev pub fail_with {ℓ} : {A : Type ℓ} → Error → ℕ → String → Action A
  fail_with e uid detail = record_failure uid detail >> raise e

  -- `guardBruteForce` reads the counter and does not raise it unless it refuses.
  unfoldable pub guard_brute_force : ℕ → Action ⊤
  guard_brute_force uid w = elim w.store [
    | none ↦ (ok tt, w)
    | some s ↦
        (do
          n ← store_counter_value now (fail_key uid)
          if not (lt64 n svc.cfg.totp_max_attempts)
              then fail_with rate_limited uid "brute-force lockout"
              else pure tt)
          w
  ]

  abbrev pub replay_key : ℕ → String → String
  replay_key uid code = "totp:replay:" <> show_uint uid <> ":" <> env.sha256_hex code

  unfoldable pub replay_guard : ℕ → String → Action Bool
  replay_guard uid code =
      store_call true (λ s. Store.set_nx now (replay_key uid code) s (text "1") totp_replay_ttl)

  unfoldable pub acquire_rotation_lock : ℕ → Action Bool
  acquire_rotation_lock uid =
      store_call true (λ s. Store.set_nx now (lock_key uid) s (text "1") rotation_lock_ttl)

  unfoldable pub release_rotation_lock : ℕ → Action ⊤
  release_rotation_lock uid = store_do (Store.delete now (lock_key uid))

  -- The lock, the body, and the deferred release on every way out of it.
  unfoldable pub with_rotation_lock {ℓ} : {A : Type ℓ} → ℕ → Action A → Action A
  with_rotation_lock uid body = do
    mine ← acquire_rotation_lock uid
    if not mine then raise rate_limited else λ w.
        (let (r, w') = body w in (r, (release_rotation_lock uid w').1))

  unfoldable pub verify_sudo_token : String → ℕ → Action ⊤
  verify_sudo_token token uid = elim svc.jwt_mgr [
    | none ↦ raise sudo_required
    | some m ↦
        if is_empty token then raise sudo_required else elim (verify env.jwt_lib m now token) [
          | none ↦ raise sudo_required
          | some c ↦
              raise_if
                (not (str_eq c.token_type sudo)
                  || not (c.user_id == uid)
                  || elim c.expires_at [ none ↦ true | some t ↦ false ])
                sudo_required
        ]
  ]

  -- A legacy plaintext is sealed again under the present key; whether the row can be written does
  -- not matter, but the caller's device carries the new seal from then on.
  unfoldable pub heal : TotpDevice → Action TotpDevice
  heal d = do
    resealed ← attempt (encrypt svc.enc d.secret)
    elim resealed [
      | err e ↦ pure d
      | ok sealed ↦ do
        ignore (Totp.upsert tid (record d { secret_encrypted = sealed }))
        pure (record d { secret_encrypted = sealed })
    ]

  -- `openActiveSecret`: the secret, and the device as it is afterwards.
  unfoldable pub open_active_secret : TotpDevice → Action (String × TotpDevice)
  open_active_secret d =
      if is_empty d.secret_encrypted
      then pure (d.secret, d)
      else elim (decrypt svc.enc d.secret_encrypted) [
        | some plain ↦ pure (plain, d)
        | none ↦
            if is_empty d.secret
            then raise totp_unrecoverable
            else (do healed ← heal d; pure (d.secret, healed))
      ]

  -- One turn of the loop of `newRecoveryCodes`: the plain code and its row.
  unfoldable pub new_recovery_code : ℕ → Action (String × RecoveryCode)
  new_recovery_code uid = do
    b ← generate_random_bytes svc.enc svc.cfg.recovery_code_bytes
    let plain = encode_hex b
    sealed ← encrypt svc.enc plain
    pure (
      plain,
      record {
        id = 0;
        user_id = uid;
        code_hash = env.sha256_hex plain;
        code_encrypted = sealed;
        used_at = none;
      },
    )

  unfoldable pub recovery_batch : ℕ → ℕ → Action (List String × List RecoveryCode)
  recovery_batch ℕ.zero uid = pure ([], [])
  recovery_batch (ℕ.suc n) uid = do
    one ← new_recovery_code uid
    rest ← recovery_batch n uid
    pure (one.0 ∷ rest.0, one.1 ∷ rest.1)

  -- `newRecoveryCodes`
  unfoldable pub new_recovery_codes : ℕ → Action (List String)
  new_recovery_codes uid = do
    batch ← recovery_batch svc.cfg.recovery_code_count uid
    Totp.replace_recovery_codes tid uid batch.1
    pure batch.0
