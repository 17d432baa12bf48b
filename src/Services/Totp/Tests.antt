-- ===== src/Services/Totp/Tests.antt =====
-- The properties of the second factor at concrete inputs.
use finn_api_go.Prelude.{
  ℕ, ◌+◌, ◌*◌, ◌^◌, ◌≡◌, ◌≢◌, ◌<◌, ◌≤◌, refl, sym, String, str_eq, Bool, true, false, ◌&&◌, Option,
  none, some, List, [], ◌∷◌, All, arith,
}
use mathlib.Core.Path.{subst}
use finn_api_go.Store.Spec.{observe}
use finn_api_go.Models.{TotpDevice, RecoveryCode}
use finn_api_go.Store.{new_in_memory_store, InMemoryStore}
use finn_api_go.Store
use finn_api_go.Database.{World, Result, ok, err, ⊤, rate_limited}
use finn_api_go.Database.Table.{first_where}
use finn_api_go.Database.Example.{acme}
use finn_api_go.Repositories.Totp.{device_of}
use finn_api_go.Jwt.Keys.{verify, parse}
use finn_api_go.Crypto.{decrypt}
use finn_api_go.Crypto.Tests.{plain, plain-IsSealing}
use finn_api_go.Services.{Env}
use finn_api_go.Services.Example.{env, svc, lib, reset_claims}
use finn_api_go.Services.Support
use finn_api_go.Services.Totp.{OtpLib, TotpService}
use finn_api_go.Services.Totp
use finn_api_go.Services.Totp.Enrol.{enable}
use finn_api_go.Services.Totp.Validate.{validate}
use finn_api_go.Services.Totp.Once.{totp_code_once}
use finn_api_go.Services.Totp.Recovery.{recovery_code_once, uses_left}
use finn_api_go.Services.Totp.Cutoff.{attempts, attempts_cut_off}
use finn_api_go.Services.Totp.Counts.{is_refused}
use finn_api_go.Services.Totp.Rotation.{SudoProven, enable_stages}

-- "123456" is right for the secret "otp"; a new secret is "new".
abbrev otp : OtpLib
otp = record {
  generate = λ n issuer account. some ("new", "otpauth://new");
  validate_custom =
      λ now code secret period skew digits. some (str_eq code "123456" && str_eq secret "otp");
}

abbrev totp : TotpService
totp = record {
  otp = otp;
  enc = plain;
  issuer = "finnapigo";
  cfg = record {
    totp_max_attempts = 2;
    totp_attempt_window = 300;
    recovery_code_count = 1;
    recovery_code_bytes = 2;
  };
  jwt_mgr = some svc.jwt;
  audits_wired = true;
  users_wired = true;
  notify_wired = true;
  passkeys = none;
}

abbrev pub phone : TotpDevice
phone = record {
  id = 3;
  user_id = 7;
  secret = "";
  secret_encrypted = "000000000000totp";
  pending_secret_encrypted = "";
  enabled = true;
}

abbrev pub paper : RecoveryCode
paper = record {
  id = 4;
  user_id = 7;
  code_hash = "sha:spare-code";
  code_encrypted = "";
  used_at = none;
}

abbrev start : World
start = record acme { totp_devices = phone ∷ []; recovery_codes = paper ∷ [] }

six_runs : Support.byte_len "123456" ≡ 6
unfolding Support.byte_len
six_runs = refl

validate_runs : (validate env totp "acme" 100 7 "123456" start).0 ≡ ok tt
unfolding validate Totp.guard_brute_force Support.store_counter_value finn_api_go.Prelude.Int64.lt64
    finn_api_go.Prelude.Dict.lookup Totp.Totp.find_by_user_id finn_api_go.Database.query
    finn_api_go.Services.Totp.Validate.validate_device first_where
    finn_api_go.Database.Table.any_where Support.byte_len
    finn_api_go.Services.Totp.Validate.validate_totp Totp.open_active_secret decrypt Totp.totp_valid
    Totp.replay_guard Store.set_nx Totp.record_success Support.store_do Support.audit
validate_runs = refl

-- The device is off and on again, and the rows of the database are new.
totp_code_once_example :
    (validate env totp "acme" 90_000_000_100 7 "123456"
      (record start { store = (validate env totp "acme" 100 7 "123456" start).1.store })).0
    ≢ ok tt
totp_code_once_example =
    totp_code_once env totp "acme" 7 "123456" 100 90_000_000_100 new_in_memory_store start
      (record start { store = (validate env totp "acme" 100 7 "123456" start).1.store }) six_runs
      refl validate_runs (omega arith) refl

spare_runs : (validate env totp "acme" 100 7 "spare-code" start).0 ≡ ok tt
unfolding validate Totp.guard_brute_force Support.store_counter_value finn_api_go.Prelude.Int64.lt64
    finn_api_go.Prelude.Dict.lookup Totp.Totp.find_by_user_id finn_api_go.Database.query
    finn_api_go.Services.Totp.Validate.validate_device first_where
    finn_api_go.Database.Table.any_where Support.byte_len
    finn_api_go.Services.Totp.Validate.validate_recovery Totp.Totp.active_recovery_codes
    Totp.match_recovery_code finn_api_go.Database.Table.filter_where
    finn_api_go.Services.Totp.Validate.recovery_marked Totp.Totp.mark_recovery_code_used
    Totp.record_success Support.store_do Support.audit
spare_runs = refl

spare_long : Support.byte_len "spare-code" ≢ 6
unfolding Support.byte_len
spare_long = omega arith

spare_left : uses_left 7 "sha:spare-code" (paper ∷ []) ≡ 1
unfolding finn_api_go.Database.Table.filter_where
spare_left = refl

-- The store is flushed in between.
recovery_code_once_example :
    (validate env totp "acme" 200 7 "spare-code" (record start {
      recovery_codes = (validate env totp "acme" 100 7 "spare-code" start).1.recovery_codes;
    })).0
    ≢ ok tt
recovery_code_once_example =
    recovery_code_once env totp "acme" 7 "spare-code" 100 200 start
      (record start {
        recovery_codes = (validate env totp "acme" 100 7 "spare-code" start).1.recovery_codes;
      })
      spare_long spare_runs spare_left refl

wrong_runs :
    (attempts env totp "acme" 7 ((100, "000000") ∷ (110, "999999") ∷ []) start).0
    ≡ err finn_api_go.Database.invalid_code ∷ err finn_api_go.Database.invalid_code ∷ []
unfolding attempts validate Totp.guard_brute_force Support.store_counter_value
    finn_api_go.Prelude.Int64.lt64 finn_api_go.Prelude.Dict.lookup Totp.Totp.find_by_user_id
    finn_api_go.Database.query finn_api_go.Services.Totp.Validate.validate_device first_where
    finn_api_go.Database.Table.any_where Support.byte_len
    finn_api_go.Services.Totp.Validate.validate_totp Totp.open_active_secret decrypt Totp.totp_valid
    Totp.record_failure Support.count_metric Support.store_do Support.audit Store.incr_by
    finn_api_go.Prelude.Dict.insert finn_api_go.Prelude.Int64.show_uint
wrong_runs = refl

wrong_refused :
    All
      (λ (r : Result ⊤). is_refused r ≡ true)
      (attempts env totp "acme" 7 ((100, "000000") ∷ (110, "999999") ∷ []) start).0
wrong_refused =
    subst (All (λ (r : Result ⊤). is_refused r ≡ true)) (sym wrong_runs) (refl, (refl, tt))

no_failures : observe 100 new_in_memory_store (Totp.fail_key 7) ≡ none
unfolding finn_api_go.Prelude.Dict.lookup
no_failures = refl

-- Two wrong codes, and the right one does not help.
attempts_cut_off_example :
    (validate env totp "acme" 120 7 "123456"
      (attempts env totp "acme" 7 ((100, "000000") ∷ (110, "999999") ∷ []) start).1).0
    ≡ err rate_limited
attempts_cut_off_example =
    attempts_cut_off env totp "acme" 7 100 120 "000000" "123456" ((110, "999999") ∷ []) start
      (attempts env totp "acme" 7 ((100, "000000") ∷ (110, "999999") ∷ []) start).1
      new_in_memory_store refl no_failures (omega arith) (omega arith, tt) (omega arith)
      (omega arith) wrong_refused (omega arith) refl

abbrev sudo_env : Env
sudo_env = record env {
  jwt_lib = record lib {
    parse_with_claims =
        λ strict issuer now key token. some (record reset_claims { token_type = "sudo" });
  };
}

enable_runs :
    (enable sudo_env totp "acme" 100 7 "ada@example.org" "tok" start).0
    ≡ ok ("new", "otpauth://new")
unfolding enable Totp.with_rotation_lock Totp.acquire_rotation_lock Support.store_call Store.set_nx
    finn_api_go.Prelude.Dict.lookup finn_api_go.Services.Totp.Enrol.enable_locked
    Totp.Totp.find_by_user_id finn_api_go.Database.query
    finn_api_go.Services.Totp.Enrol.generate_key Support.draw finn_api_go.Crypto.encrypt
    finn_api_go.Crypto.generate_random_bytes finn_api_go.Services.Totp.Enrol.stage first_where
    finn_api_go.Database.Table.any_where Totp.verify_sudo_token verify parse Totp.Totp.upsert
    Support.audit
enable_runs = refl

phone_found : first_where (device_of "acme" start 7) start.totp_devices ≡ some phone
unfolding first_where finn_api_go.Database.Table.any_where
phone_found = refl

enable_stages_example :
    SudoProven sudo_env totp "acme" 100 7 "tok"
    × (sealed : String) × (decrypt plain sealed ≡ some "new")
    × (first_where
          (device_of "acme" start 7)
          (enable sudo_env totp "acme" 100 7 "ada@example.org" "tok" start).1.totp_devices
        ≡ some (record phone { pending_secret_encrypted = sealed }))
enable_stages_example =
    enable_stages sudo_env totp "acme" 100 7 "ada@example.org" "tok" ("new", "otpauth://new") phone
      start plain-IsSealing phone_found refl (omega arith) enable_runs
