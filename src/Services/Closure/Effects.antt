-- ===== src/Services/Closure/Effects.antt =====
-- What the writes of `EraseAccount` do to the tables where the database does not fail: lemmas.
use finn_api_go.Prelude.{
  ℕ, ◌+◌, ◌==◌, ◌≡◌, refl, ap, ◌∙◌, String, Bool, true, false, not, ◌&&◌, List, [], ◌∷◌, arith,
}
use finn_api_go.Models.{User, Session, RefreshToken, TotpDevice, RecoveryCode}
use finn_api_go.Database.{World, query, transaction}
use finn_api_go.Database.Rows.{AllRevoked}
use finn_api_go.Database.Table.{any_where, update_where, delete_where}
use finn_api_go.Repositories.Scope.{owned, is_user, require_owner, update_user}
use finn_api_go.Repositories.Users
use finn_api_go.Repositories.Totp
use finn_api_go.Repositories.Totp.{device_of, disabled, code_of}
use finn_api_go.Repositories.Sessions
use finn_api_go.Repositories.RefreshTokens
use finn_api_go.Services.{AuthService}
use finn_api_go.Services.Support.{store_call, store_do}
use finn_api_go.Services.Tokens.{bump_pwd_version}
use finn_api_go.Services.Closure.{anonymize_user}

-- The tables with something of the user's, and the failures to come.
abbrev pub Own : Type 0
Own = List User × List Session × List RefreshToken × List TotpDevice × List RecoveryCode × List Bool

abbrev pub own : World → Own
own w = (w.users, w.sessions, w.refresh_tokens, w.totp_devices, w.recovery_codes, w.faults)

pub any_where-update_where :
    {A : Type 0} (q p : A → Bool) (f : A → A) (rows : List A)
    → ((t : A) → q (f t) ≡ q t)
    → any_where q (update_where p f rows) ≡ any_where q rows
unfolding any_where update_where
any_where-update_where q p f [] kept = refl
any_where-update_where q p f (t ∷ rows) kept =
    ground (arith, kept t, any_where-update_where q p f rows kept)

pub any_where-delete_where :
    {A : Type 0} (q p : A → Bool) (rows : List A)
    → ((t : A) → q t ≡ true → p t ≡ true)
    → any_where q (delete_where p rows) ≡ false
unfolding any_where delete_where
any_where-delete_where q p [] qp = refl
any_where-delete_where q p (t ∷ rows) qp = ground (arith, qp t, any_where-delete_where q p rows qp)

-- An update that changes neither test.
pub AllRevoked-kept :
    {A : Type 0} (mine good p : A → Bool) (f : A → A) (rows : List A)
    → ((t : A) → mine (f t) ≡ mine t)
    → ((t : A) → good (f t) ≡ good t)
    → AllRevoked mine good rows
    → AllRevoked mine good (update_where p f rows)
unfolding update_where
AllRevoked-kept mine good p f [] km kg all = tt
AllRevoked-kept mine good p f (t ∷ rows) km kg all =
    (λ h. ground (arith, km t, kg t, all.0), AllRevoked-kept mine good p f rows km kg all.1)

module _ (tid : String) (uid : ℕ) where
  -- The database is up, and the user is of the tenant.
  abbrev pub Calm : World → Type 0
  Calm w = (w.faults ≡ []) × (owned tid w uid ≡ true)

  pub disable-own :
      (w : World)
      → Calm w
      → own (Totp.disable tid uid w).1 ≡ (
        w.users,
        w.sessions,
        w.refresh_tokens,
        update_where (device_of tid w uid) (disabled tid) w.totp_devices,
        w.recovery_codes,
        [],
      )
  unfolding Totp.disable require_owner query
  disable-own w calm = ground (arith, calm)

  pub replace-own :
      (w : World)
      → Calm w
      → own (Totp.replace_recovery_codes tid uid [] w).1 ≡ (
        w.users,
        w.sessions,
        w.refresh_tokens,
        w.totp_devices,
        delete_where (code_of tid w uid) w.recovery_codes,
        [],
      )
  unfolding Totp.replace_recovery_codes require_owner query transaction any_where
  replace-own w calm = ground (arith, calm)

  pub anonymize-own : (w : World) → Calm w → own (anonymize_user uid w).1 ≡ own w
  unfolding anonymize_user query
  anonymize-own w calm = ground (arith, calm)

  abbrev pub open_token : World → RefreshToken → Bool
  open_token w t = owned tid w t.user_id && t.user_id == uid && not t.revoked

  pub tokens-own :
      (w : World)
      → Calm w
      → own (RefreshTokens.revoke_all_for_user tid uid w).1 ≡ (
        w.users,
        w.sessions,
        update_where (open_token w) (RefreshTokens.revoked_row tid) w.refresh_tokens,
        w.totp_devices,
        w.recovery_codes,
        [],
      )
  unfolding RefreshTokens.revoke_all_for_user require_owner query
      RefreshTokens.revoke_all_for_user_tx
  tokens-own w calm = ground (arith, calm)

  pub sessions-own :
      (w : World)
      → Calm w
      → own (Sessions.revoke_all_for_user tid uid w).1 ≡ (
        w.users,
        update_where (Sessions.is_live_of tid uid) (Sessions.revoke tid) w.sessions,
        w.refresh_tokens,
        w.totp_devices,
        w.recovery_codes,
        [],
      )
  unfolding Sessions.revoke_all_for_user require_owner query Sessions.revoke_all_for_user_tx
  sessions-own w calm = ground (arith, calm)

  abbrev pub bumped : User → User
  bumped u = record u { pwd_version = u.pwd_version + 1 }

  pub Calm-own :
      (v : World) (o : Own) → own v ≡ o → o.5 ≡ [] → any_where (is_user tid uid) o.0 ≡ true → Calm v
  Calm-own v o e sound there =
      (ap (λ (o : Own). o.5) e ∙ sound, ap (λ (o : Own). any_where (is_user tid uid) o.0) e ∙ there)

  pub bump-own :
      (svc : AuthService) (now : ℕ) (w : World)
      → Calm w
      → own (bump_pwd_version svc tid now uid w).1 ≡ (
        update_where (is_user tid uid) bumped w.users,
        w.sessions,
        w.refresh_tokens,
        w.totp_devices,
        w.recovery_codes,
        [],
      )
  unfolding bump_pwd_version Users.bump_pwd_version update_user query store_do store_call
  bump-own svc now w calm = ground (arith, calm)
