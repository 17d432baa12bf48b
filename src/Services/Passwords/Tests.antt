-- ===== src/Services/Passwords/Tests.antt =====
-- The properties of passwords at concrete inputs.
use finn_api_go.Prelude.{
  ℕ, ◌≡◌, ◌≢◌, refl, String, str_eq, Bool, false, Option, none, some, List, [], arith,
}
use finn_api_go.Store.{new_in_memory_store}
use finn_api_go.Store
use finn_api_go.Database.{ok}
use finn_api_go.Database.Example.{acme}
use finn_api_go.Repositories.Users
use finn_api_go.Repositories.UsedTokens
use finn_api_go.Repositories.RefreshTokens
use finn_api_go.Repositories.Sessions
use finn_api_go.Jwt.Keys.{verify, parse}
use finn_api_go.Services.Example.{env, svc, lib, reset_claims}
use finn_api_go.Services.Support
use finn_api_go.Services.Support.{byte_len}
use finn_api_go.Services.Tokens.{apply_credential_change}
use finn_api_go.Services.Tokens
use finn_api_go.Services.Passwords
use finn_api_go.Services.Passwords.{
  reset_password, validate_password, has_letter, has_number, sanitized,
}
use finn_api_go.Services.Passwords.SingleUse.{reset_password_once}

reads : (now : ℕ) → verify lib svc.jwt now "tok" ≡ some reset_claims
unfolding verify finn_api_go.Prelude.Dict.lookup parse
reads now = refl

reset_runs : (reset_password env svc 100 "tok" "correct7horse" "1.2.3.4" acme).0 ≡ ok tt
unfolding reset_password Passwords.typed_claims verify finn_api_go.Prelude.Dict.lookup parse
    Users.find_by_id Tokens.with_tenant Passwords.reset_user Passwords.accept_password
    validate_password byte_len has_letter has_number Passwords.contains_input sanitized
    finn_api_go.Prelude.Text.trim_space finn_api_go.Prelude.Text.to_lower
    finn_api_go.Prelude.Text.contains_text Passwords.email_local_part finn_api_go.Prelude.Text.split
    Passwords.spend Tokens.consume_single_use_token Tokens.mark_token_used Support.store_call
    Store.set_nx UsedTokens.is_used Tokens.mark_token_durable UsedTokens.mark_used
    Passwords.replace_password Support.hash_password apply_credential_change
    Users.credential_change_tx RefreshTokens.revoke_all_for_user_tx Sessions.revoke_all_for_user_tx
    Support.store_do Support.audit
reset_runs = refl

-- The store is flushed in between.
reset_password_once_example :
    (reset_password env svc 200 "tok" "another8horse" "5.6.7.8"
      (record (reset_password env svc 100 "tok" "correct7horse" "1.2.3.4" acme).1 {
        store = some new_in_memory_store;
        faults = [];
      })).0
    ≢ ok tt
reset_password_once_example =
    reset_password_once env svc 100 200 "tok" "correct7horse" "another8horse" "1.2.3.4" "5.6.7.8"
      reset_claims reset_claims acme (some new_in_memory_store) [] refl (reads 100) (reads 200) refl
      reset_runs
