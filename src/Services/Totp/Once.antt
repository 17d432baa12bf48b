-- ===== src/Services/Totp/Once.antt =====
-- A six-digit code of internal/services/totp_service.go validates once in its window.
use finn_api_go.Prelude.{
  ℕ, ◌+◌, ◌*◌, ◌≤◌, ◌≡◌, ◌≢◌, ap, sym, ◌∙◌, ◌⊎◌, not, if◌then◌else◌, String, ◌<>◌, eq_refl, true,
  false, some, arith, Option-cases, Bool-cases, inl, inr,
}
use finn_api_go.Prelude.Dict.{lookup-insert}
use finn_api_go.Prelude.Int64.{show_uint}
use finn_api_go.Models.{TotpDevice}
use finn_api_go.Store.{InMemoryStore, Entry, text, is_past}
use finn_api_go.Store
use finn_api_go.Database.{World, Action, Result, ok, ⊤, ◌>>=◌, query, invalid_code}
use finn_api_go.Database.Frame.{>>=-ok}
use finn_api_go.Database.Table.{first_where}
use finn_api_go.Repositories.Totp
use finn_api_go.Repositories.Totp.{device_of}
use finn_api_go.Services.{Env}
use finn_api_go.Services.Support.{
  store_call, byte_len, store_counter_value, store_do, audit, count_metric,
}
use finn_api_go.Services.Totp.{
  TotpService, second, totp_replay_ttl, totp_valid, fail_with, replay_guard, open_active_secret,
  record_success, record_failure, guard_brute_force,
}
use finn_api_go.Services.Totp.Validate.{validate_totp, validate_device, validate}
use finn_api_go.Services.Totp.Support.{
  keys_apart, store_at, fail_with-err, record_success-at, guard_brute_force-at,
  open_active_secret-store,
}

-- What a code leaves in the store when it is used.
abbrev pub used_at : ℕ → Entry
used_at now = record { value = text "1"; exp = some (now + totp_replay_ttl) }

module _ (env : Env) (svc : TotpService) (tid : String) (uid : ℕ) (code : String) where
  abbrev key : String
  key = "totp:replay:" <> (show_uint uid <> ":" <> env.sha256_hex code)

  replay_guard-claims :
      (now : ℕ) (s : InMemoryStore) (w : World)
      → w.store ≡ some s
      → (replay_guard env svc tid now uid code w).0 ≡ ok true
      → store_at key (replay_guard env svc tid now uid code w).1 ≡ some (used_at now)
  unfolding replay_guard store_call Store.set_nx
  replay_guard-claims now s w e h = grind (arith, e, lookup-insert, eq_refl)

  replay_guard-refuses :
      (now : ℕ) (x : Entry) (w : World)
      → store_at key w ≡ some x
      → is_past x.exp now ≡ false
      → (replay_guard env svc tid now uid code w).0 ≡ ok false
  unfolding replay_guard store_call Store.set_nx
  replay_guard-refuses now x w e fresh = elim (Option-cases w.store) [
    | inl n ↦ ground (arith, n)
    | inr (s, es) ↦ ground (arith, es)
  ]

  replay_guard-cases :
      (now : ℕ) (w : World)
      → ((replay_guard env svc tid now uid code w).0 ≡ ok true)
        ⊎ ((replay_guard env svc tid now uid code w).0 ≡ ok false)
  unfolding replay_guard store_call
  replay_guard-cases now w = elim (Option-cases w.store) [
    | inl n ↦ inl (ground (arith, n))
    | inr (s, e) ↦ elim (Bool-cases (Store.set_nx now key s (text "1") totp_replay_ttl).0) [
      | inl won ↦ inl (ground (arith, e, won))
      | inr lost ↦ inr (ground (arith, e, lost))
    ]
  ]

  -- What follows once the secret is open.
  abbrev spend_code : ℕ → Action ⊤
  spend_code now = replay_guard env svc tid now uid code >>= λ fresh.
      if not fresh
      then fail_with env svc tid now invalid_code uid "totp replay"
      else record_success env svc tid now uid "totp_validated" "totp validated"

  spend_code-claims :
      (now : ℕ) (s : InMemoryStore) (w : World)
      → w.store ≡ some s
      → (spend_code now w).0 ≡ ok tt
      → store_at key (spend_code now w).1 ≡ some (used_at now)
  spend_code-claims now s w e h = elim (replay_guard-cases now w) [
    | inl won ↦
        let w₁ = (replay_guard env svc tid now uid code w).1 in
        let after =
          record_success-at env svc tid now uid key
            (keys_apart uid (show_uint uid <> ":" <> env.sha256_hex code)) "totp_validated"
            "totp validated" w₁ in
        ground (arith, won, after, replay_guard-claims now s w e won)
    | inr lost ↦
        let w₁ = (replay_guard env svc tid now uid code w).1 in
        ground
          (arith, lost, fail_with-err env svc tid now uid {A = ⊤} invalid_code "totp replay" w₁)
  ]

  spend_code-refused :
      (now : ℕ) (x : Entry) (w : World)
      → store_at key w ≡ some x
      → is_past x.exp now ≡ false
      → (spend_code now w).0 ≢ ok tt
  spend_code-refused now x w e fresh h =
      let w₁ = (replay_guard env svc tid now uid code w).1 in
      ground (
        arith,
        replay_guard-refuses now x w e fresh,
        fail_with-err env svc tid now uid {A = ⊤} invalid_code "totp replay" w₁,
      )

  module _ (now : ℕ) (d : TotpDevice) (w : World) where
    abbrev secret_read : World
    secret_read = (open_active_secret env svc tid now d w).1

    -- A code that validates had a secret that it matches, and was spent.
    validate_totp-spends :
        (validate_totp env svc tid now uid d code w).0 ≡ ok tt
        → (validate_totp env svc tid now uid d code w ≡ spend_code now secret_read)
    unfolding validate_totp
    validate_totp-spends h =
        let (opened, o, rest, same) =
          >>=-ok (λ (v : World). v.store) (open_active_secret env svc tid now d)
            (λ (opened : String × TotpDevice).
              if not (totp_valid svc.otp now code opened.0)
              then fail_with env svc tid now invalid_code uid "bad totp code"
              else spend_code now)
            w tt h in
        elim (Bool-cases (totp_valid svc.otp now code opened.0)) [
          | inl valid ↦ same ∙ ground (arith, valid)
          | inr wrong ↦
              let bad =
                fail_with-err env svc tid now uid {A = ⊤} invalid_code "bad totp code"
                  secret_read in
              ground (arith, wrong, rest, bad)
        ]

  validate_totp-claims :
      (now : ℕ) (d : TotpDevice) (s : InMemoryStore) (w : World)
      → w.store ≡ some s
      → (validate_totp env svc tid now uid d code w).0 ≡ ok tt
      → store_at key (validate_totp env svc tid now uid d code w).1 ≡ some (used_at now)
  validate_totp-claims now d s w e h =
      let spent = validate_totp-spends now d w h in
      let e₁ = open_active_secret-store env svc tid now d w ∙ e in
      ap (λ (p : Result ⊤ × World). store_at key p.1) spent
      ∙ spend_code-claims now s (secret_read now d w) e₁
          (ap (λ (p : Result ⊤ × World). p.0) (sym spent) ∙ h)

  validate_totp-refused :
      (now : ℕ) (d : TotpDevice) (x : Entry) (w : World)
      → store_at key w ≡ some x
      → is_past x.exp now ≡ false
      → (validate_totp env svc tid now uid d code w).0 ≢ ok tt
  validate_totp-refused now d x w e fresh h =
      let spent = validate_totp-spends now d w h in
      let e₁ : store_at key (secret_read now d w) ≡ some x =
        ground (arith, open_active_secret-store env svc tid now d w, e) in
      spend_code-refused now x (secret_read now d w) e₁ fresh
        (ap (λ (p : Result ⊤ × World). p.0) (sym spent) ∙ h)

  abbrev guarded : ℕ → World → World
  guarded now w = (guard_brute_force env svc tid now uid w).1

  abbrev found_at : World → World
  found_at w = (Totp.find_by_user_id tid uid w).1

  -- A validated code of six digits was checked for an enabled device.
  validate-ok :
      (now : ℕ) (w : World)
      → byte_len code ≡ 6
      → (validate env svc tid now uid code w).0 ≡ ok tt
      → (d : TotpDevice) × (validate env svc tid now uid code w
          ≡ validate_totp env svc tid now uid d code (found_at (guarded now w)))
        × (first_where (device_of tid (guarded now w) uid) (guarded now w).totp_devices ≡ some d)
        × (d.enabled ≡ true)
  unfolding validate validate_device Totp.find_by_user_id query
  validate-ok now w six h =
      let w₁ = guarded now w in
      elim (Option-cases (first_where (device_of tid w₁ uid) w₁.totp_devices)) [
        | inl n ↦
            let bad =
              fail_with-err env svc tid now uid {A = ⊤} invalid_code "device not enabled"
                (found_at w₁) in
            absurd (ground (arith, n, h, bad))
        | inr (d, e) ↦
            let bad =
              fail_with-err env svc tid now uid {A = ⊤} invalid_code "device not enabled"
                (found_at w₁) in
            (d, ground (arith, e, six, h, bad), e, ground (arith, e, six, h, bad))
      ]

  found_at-at : (w : World) → store_at key (found_at w) ≡ store_at key w
  unfolding Totp.find_by_user_id query
  found_at-at w = ground arith

  guard-store :
      (now : ℕ) (s : InMemoryStore) (w : World)
      → w.store ≡ some s
      → (s₁ : InMemoryStore) × ((found_at (guarded now w)).store ≡ some s₁)
  unfolding guard_brute_force store_counter_value store_call record_failure store_do audit
      count_metric Totp.find_by_user_id query
  guard-store now s w e = elim (Option-cases (found_at (guarded now w)).store) [
    | inl n ↦ absurd (ground (arith, n, e))
    | inr left ↦ left
  ]

  -- Once a code of six digits has validated, it validates no more up to 120 s later, which is longer
  -- than any code stays right: however the later request finds the database and the other keys of
  -- the store, as long as the store has the code's entry as the first request left it. (The store is
  -- wired.)
  pub totp_code_once :
      (now later : ℕ) (s : InMemoryStore) (w v : World)
      → byte_len code ≡ 6
      → w.store ≡ some s
      → (validate env svc tid now uid code w).0 ≡ ok tt
      → later ≤ now + 120 * second
      → store_at key v ≡ store_at key (validate env svc tid now uid code w).1
      → (validate env svc tid later uid code v).0 ≢ ok tt
  totp_code_once now later s w v six e h soon kept again =
      let apart = keys_apart uid (show_uint uid <> ":" <> env.sha256_hex code) in
      let (d, same, found, on) = validate-ok now w six h in
      let (d', same', found', on') = validate-ok later v six again in
      let w₁ = found_at (guarded now w) in
      let (s₁, e₁) = guard-store now s w e in
      let done : (validate_totp env svc tid now uid d code w₁).0 ≡ ok tt =
        ap (λ (p : Result ⊤ × World). p.0) (sym same) ∙ h in
      let left : store_at key (validate env svc tid now uid code w).1 ≡ some (used_at now) =
        ap (λ (p : Result ⊤ × World). store_at key p.1) same
        ∙ validate_totp-claims now d s₁ w₁ e₁ done in
      let there : store_at key (found_at (guarded later v)) ≡ some (used_at now) =
        found_at-at (guarded later v)
        ∙ guard_brute_force-at env svc tid later uid key apart v
        ∙ kept
        ∙ left in
      validate_totp-refused later d' (used_at now) (found_at (guarded later v)) there
        (ground (arith, soon)) (ap (λ (p : Result ⊤ × World). p.0) (sym same') ∙ again)
