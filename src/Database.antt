-- ===== src/Database.antt =====
-- The state that a request of internal/services works on, and the actions over it: the tables, the
-- shared store, and the effects that leave the process (audit rows, mail, metrics).
-- A database call may fail: `faults` says of each call, in the order in which they are made,
-- whether it does, and a call that fails has changed nothing.
pub mod Table
pub mod Frame
pub mod Rows
pub mod Example
use finn_api_go.Prelude.{
  ℕ, ◌+◌, ◌≡◌, refl, String, Bool, true, false, Option, none, some, List, [], ◌∷◌, arith,
  if◌then◌else◌,
}
use finn_api_go.Models.{
  User, Session, RefreshToken, UsedToken, Tenant, AccessRevocation, TotpDevice, RecoveryCode, Role,
  Permission, AuditLog, OauthIdentity, PasskeyCredential, TrustedDevice, WebhookEndpoint,
  WebhookDelivery,
}
use finn_api_go.Store.{InMemoryStore}

-- The sentinel errors of internal/services/errors.go and of the repositories; `database` is any
-- other error of the database.
pub data Error : Type 0 where
  identity_unavailable invalid_input password_too_weak invalid_credentials invalid_token : Error
  invalid_code account_locked account_disabled email_not_verified sudo_required : Error
  captcha_required user_not_found totp_unrecoverable session_not_found email_exists : Error
  username_exists password_already_set disposable_email password_breached rate_limited : Error
  inactive record_not_found token_already_revoked recovery_code_used duplicate_key : Error
  oauth_state_invalid oauth_email_not_verified oauth_code_exchange_failed : Error
  oauth_token_verification_failed oauth_not_configured oauth_email_taken : Error
  cannot_unlink_only_method passkey_challenge passkey_credential_revoked : Error
  passkey_not_configured ceremony cannot_lock_self : Error
  webhook_ssrf_blocked invalid_webhook_url webhook_failed encoding network : Error
  database hashing signing sealing delivery generating : Error

pub data Result {ℓ} (A : Type ℓ) : Type ℓ where
  ok : A → Result A
  err : Error → Result A

-- A message handed to the notifier.
pub data Mail : Type 0 where
  password_reset email_verification : String → String → Mail
  new_login_alert : String → String → String → Mail
  duplicate_register_alert : String → Mail
  security_alert : String → String → Mail

-- internal/services/auth_metrics.go
pub record Metrics : Type 0 where
  pub login_successes : ℕ
  pub login_failures : ℕ
  pub refresh_rotations : ℕ
  pub token_reuse_detections : ℕ
  pub totp_failures : ℕ

pub record World : Type 0 where
  pub users : List User
  pub sessions : List Session
  pub refresh_tokens : List RefreshToken
  pub used_tokens : List UsedToken
  pub tenants : List Tenant
  pub access_revocations : List AccessRevocation
  pub totp_devices : List TotpDevice
  pub recovery_codes : List RecoveryCode
  pub roles : List Role
  pub permissions : List Permission
  -- role and permission, user and role
  pub role_permissions : List (ℕ × ℕ)
  pub user_roles : List (ℕ × ℕ)
  pub oauth_identities : List OauthIdentity
  pub passkeys : List PasskeyCredential
  pub trusted_devices : List TrustedDevice
  pub webhook_endpoints : List WebhookEndpoint
  pub webhook_deliveries : List WebhookDelivery
  pub store : Option InMemoryStore
  pub audits : List AuditLog
  pub mails : List Mail
  pub metrics : Metrics
  pub faults : List Bool
  -- How many random values have been drawn, and ids given to rows.
  pub draws : ℕ
  pub next_id : ℕ

abbrev pub Action {ℓ} : Type ℓ → Type ℓ
Action A = World → Result A × World

abbrev pub ⊤ : Type 0
⊤ = Unit

module _ {ℓ} {A : Type ℓ} where
  abbrev pub pure : A → Action A
  pure a w = (ok a, w)

  abbrev pub raise : Error → Action A
  raise e w = (err e, w)

  abbrev pub gets : (World → A) → Action A
  gets f w = (ok (f w), w)

  -- The result as a value: `if err := …; err != nil`.
  abbrev pub attempt : Action A → Action (Result A)
  attempt m w = let (r, w') = m w in (ok r, w')

  abbrev pub from_result : Result A → Action A
  from_result r w = (r, w)

abbrev pub modify : (World → World) → Action ⊤
modify f w = (ok tt, f w)

infixl 5 ◌>>=◌ ◌>>◌
abbrev pub ◌>>=◌ {ℓ κ} : {A : Type ℓ} {B : Type κ} → Action A → (A → Action B) → Action B
◌>>=◌ m f w = let (r, w') = m w in elim r [ ok a ↦ f a w' | err e ↦ (err e, w') ]

abbrev pub ◌>>◌ {ℓ κ} : {A : Type ℓ} {B : Type κ} → Action A → Action B → Action B
m >> k = m >>= λ _. k

-- `_ = f()`: what the call did stays, its error is dropped.
abbrev pub ignore {ℓ} : {A : Type ℓ} → Action A → Action ⊤
ignore m w = (ok tt, (m w).1)

abbrev pub raise_if : Bool → Error → Action ⊤
raise_if c e w = (if c then err e else ok tt, w)

abbrev pub when : Bool → Action ⊤ → Action ⊤
when c m = if c then m else pure tt

abbrev pub head_fault : List Bool → Bool
head_fault [] = false
head_fault (b ∷ bs) = b

abbrev pub tail_faults : List Bool → List Bool
tail_faults [] = []
tail_faults (b ∷ bs) = bs

-- One call of the database: whether it fails.
unfoldable pub query : Action ⊤
query w = (
  if head_fault w.faults then err database else ok tt,
  record w { faults = tail_faults w.faults },
)

-- `Transaction`: an error undoes what the calls before it wrote, in whatever table.
unfoldable pub transaction {ℓ} : {A : Type ℓ} → Action A → Action A
transaction m w =
    let (r, w') = m w in
    elim r [ ok a ↦ (ok a, w') | err e ↦ (err e, record w { faults = w'.faults }) ]

module _ {ℓ κ} {A : Type ℓ} {B : Type κ} where
  -- Inversion of a successful bind.
  pub >>=-eq-ok :
      (m : Action A) (f : A → Action B) (w : World) {b : B} {w'' : World}
      → (m >>= f) w ≡ (ok b, w'')
      → (a : A) × (w' : World) × (m w ≡ (ok a, w')) × (f a w' ≡ (ok b, w''))
  >>=-eq-ok m f w {b} {w''} h = go (m w) refl h
    where
      go :
          (p : Result A × World)
          → m w ≡ p
          → (let (r, w') = p in elim r [ ok a ↦ f a w' | err e ↦ (err e, w') ]) ≡ (ok b, w'')
          → (a : A) × (w' : World) × (m w ≡ (ok a, w')) × (f a w' ≡ (ok b, w''))
      go (ok a, w') e h = (a, w', e, h)
      go (err x, w') e h = cc
