-- ===== src/Services/Closure/Tests.antt =====
-- The erasure of an account at a concrete input.
use finn_api_go.Prelude.{◌≡◌, refl, [], ◌∷◌}
use finn_api_go.Database.{ok, World}
use finn_api_go.Database.Example.{acme}
use finn_api_go.Services.Example.{env, svc}
use finn_api_go.Services.Closure.{erase_account}
use finn_api_go.Services.Closure.Effects.{own}
use finn_api_go.Services.Closure.Flow.{Wired}
use finn_api_go.Services.Closure.Erased.{Gone, erase_account-Gone}
use finn_api_go.Services.Totp.Tests.{phone, paper}

-- With a device and a recovery code.
abbrev start : World
start = record acme { totp_devices = phone ∷ []; recovery_codes = paper ∷ [] }

svc_wired : Wired env svc "acme" 100 7
svc_wired = (refl, refl, λ w. refl, λ w. refl)

erase_runs : (erase_account env svc "acme" 100 7 "" "lovelace1" "j9" "1.2.3.4" start).0 ≡ ok tt
unfolding erase_account finn_api_go.Services.Closure.proven_user
    finn_api_go.Repositories.Users.find_by_id finn_api_go.Services.Passwords.verify_sudo_or_password
    finn_api_go.Services.Support.check_password finn_api_go.Services.Support.draw
    finn_api_go.Repositories.Users.erase finn_api_go.Services.Closure.purge
    finn_api_go.Services.Closure.end_sign_ins finn_api_go.Services.Tokens.denylist_access_token
    finn_api_go.Services.Support.store_do finn_api_go.Services.Tokens.bump_pwd_version
    finn_api_go.Repositories.Users.bump_pwd_version
    finn_api_go.Repositories.Sessions.revoke_all_for_user
    finn_api_go.Repositories.RefreshTokens.revoke_all_for_user
    finn_api_go.Services.Closure.anonymize_user finn_api_go.Repositories.Totp.replace_recovery_codes
    finn_api_go.Repositories.Totp.disable finn_api_go.Services.Support.audit
    finn_api_go.Services.Support.send
erase_runs = refl

erase_account-Gone_example :
    Gone env svc "acme" 100 7 "uuid"
      (own (erase_account env svc "acme" 100 7 "" "lovelace1" "j9" "1.2.3.4" start).1)
erase_account-Gone_example =
    erase_account-Gone env svc "acme" 100 7 "" "lovelace1" "j9" "1.2.3.4" start svc_wired refl
      erase_runs
