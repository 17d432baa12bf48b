-- ===== src/Services/Accounts/Tests.antt =====
-- The properties of registration and of the mails at concrete inputs.
use finn_api_go.Prelude.{ℕ, ◌≡◌, refl, String, ◌<>◌, true, false, none, some, [], ◌∷◌}
use finn_api_go.Store.{new_in_memory_store}
use finn_api_go.Database.{World, ok}
use finn_api_go.Database.Example.{acme}
use finn_api_go.Services.{UserProfile}
use finn_api_go.Services.Example.{env, svc}
use finn_api_go.Services.Accounts.{
  RegisterInput, register, forgot_password, resend_verify_email, mail_token,
}
use finn_api_go.Services.Accounts.Uniform.{mails_reveal_nothing, Works}

env_works : Works env svc "acme" 100
unfolding mail_token finn_api_go.Jwt.Keys.issue_claims finn_api_go.Jwt.Keys.sign
    finn_api_go.Services.Support.draw finn_api_go.Jwt.base_claims
env_works = (λ user token_type ttl w. ("signed:" <> token_type, refl), λ n m. refl)

-- The same requests where nobody has an account.
mails_reveal_nothing_example :
    ((forgot_password env svc "acme" 100 "ada@example.org" acme).0
      ≡ (forgot_password env svc "acme" 100 "ada@example.org" (record acme { users = [] })).0)
    × ((resend_verify_email env svc "acme" 100 "ada@example.org" "1.2.3.4" acme).0
        ≡ (resend_verify_email env svc "acme" 100 "ada@example.org" "1.2.3.4"
            (record acme { users = [] })).0)
mails_reveal_nothing_example =
    mails_reveal_nothing env svc "acme" 100 "ada@example.org" "1.2.3.4" acme
      (record acme { users = [] }) env_works refl refl

abbrev grace : RegisterInput
grace = record {
  username = "grace";
  email = "Grace@example.org ";
  password = "correct7horse";
  full_name = "Grace";
  ip = "1.2.3.4";
}

abbrev grace_profile : UserProfile
grace_profile = record {
  id = 10;
  username = "grace";
  email = "grace@example.org";
  full_name = "Grace";
  role = "user";
  is_active = true;
  is_email_verified = false;
}

register_runs : (register env svc "acme" 100 grace acme).0 ≡ ok grace_profile
unfolding register finn_api_go.Services.Accounts.register_as
    finn_api_go.Services.Accounts.accept_registration
    finn_api_go.Services.Passwords.validate_password finn_api_go.Services.Support.byte_len
    finn_api_go.Services.Passwords.has_letter finn_api_go.Services.Passwords.has_number
    finn_api_go.Services.Passwords.contains_input finn_api_go.Services.Passwords.sanitized
    finn_api_go.Prelude.Text.trim_space finn_api_go.Prelude.Text.to_lower
    finn_api_go.Prelude.Text.contains_text finn_api_go.Services.Passwords.email_local_part
    finn_api_go.Prelude.Text.split finn_api_go.Services.Login.normal_email
    finn_api_go.Services.Accounts.exceeds finn_api_go.Services.Support.store_call
    finn_api_go.Prelude.Int64.lt64 finn_api_go.Store.incr_by finn_api_go.Prelude.Dict.lookup
    finn_api_go.Services.Accounts.is_disposable_email finn_api_go.Services.Accounts.domain_of
    finn_api_go.Repositories.Rbac.contains finn_api_go.Repositories.Users.find_by_email
    finn_api_go.Services.Accounts.email_found finn_api_go.Repositories.Users.find_by_username
    finn_api_go.Services.Accounts.name_found finn_api_go.Services.Accounts.create_account
    finn_api_go.Services.Support.hash_password finn_api_go.Services.Accounts.created
    finn_api_go.Repositories.Users.create finn_api_go.Services.Accounts.welcome
    finn_api_go.Services.Support.audit mail_token finn_api_go.Jwt.Keys.sign
    finn_api_go.Jwt.Keys.issue_claims finn_api_go.Services.Accounts.deliver
    finn_api_go.Services.Support.send finn_api_go.Services.from_user
register_runs = refl

-- A taken name is answered with the address of the account that has it.
abbrev ada_profile : UserProfile
ada_profile = record {
  id = 0;
  username = "ada";
  email = "ada@example.org";
  full_name = "";
  role = "user";
  is_active = true;
  is_email_verified = false;
}

taken_name :
    (register env svc "acme" 100 (record grace { username = "ada" }) acme).0 ≡ ok ada_profile
unfolding register finn_api_go.Services.Accounts.register_as
    finn_api_go.Services.Accounts.accept_registration
    finn_api_go.Services.Passwords.validate_password finn_api_go.Services.Support.byte_len
    finn_api_go.Services.Passwords.has_letter finn_api_go.Services.Passwords.has_number
    finn_api_go.Services.Passwords.contains_input finn_api_go.Services.Passwords.sanitized
    finn_api_go.Prelude.Text.trim_space finn_api_go.Prelude.Text.to_lower
    finn_api_go.Prelude.Text.contains_text finn_api_go.Services.Passwords.email_local_part
    finn_api_go.Prelude.Text.split finn_api_go.Services.Login.normal_email
    finn_api_go.Services.Accounts.exceeds finn_api_go.Services.Support.store_call
    finn_api_go.Prelude.Int64.lt64 finn_api_go.Store.incr_by finn_api_go.Prelude.Dict.lookup
    finn_api_go.Services.Accounts.is_disposable_email finn_api_go.Services.Accounts.domain_of
    finn_api_go.Repositories.Rbac.contains finn_api_go.Repositories.Users.find_by_email
    finn_api_go.Services.Accounts.email_found finn_api_go.Repositories.Users.find_by_username
    finn_api_go.Services.Accounts.name_found
    finn_api_go.Services.Accounts.handle_duplicate_registration finn_api_go.Services.Support.audit
    finn_api_go.Services.Accounts.should_throttle_duplicate finn_api_go.Services.Accounts.capped
    finn_api_go.Prelude.Dict.insert finn_api_go.Services.Support.send
taken_name = refl
