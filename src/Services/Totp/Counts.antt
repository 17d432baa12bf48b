-- ===== src/Services/Totp/Counts.antt =====
-- Every refusal of `Validate` in internal/services/totp_service.go goes by `recordFailure` once.
use finn_api_go.Prelude.{
  ℕ, ◌≡◌, ◌≢◌, ◌⊎◌, refl, ap, sym, ◌∙◌, String, is_empty, ◌<>◌, ◌==◌, Bool, true, false, not,
  Option, none, some, arith, Option-cases, Bool-cases, inl, inr, if◌then◌else◌,
}
use mathlib.Core.Path.{subst}
use finn_api_go.Prelude.Dict.{lookup, lookup-insert}
use finn_api_go.Prelude.Int64.{lt64, show_uint}
use finn_api_go.Prelude.Text.{heads_apart}
use finn_api_go.Models.{TotpDevice, RecoveryCode}
use finn_api_go.Store.{InMemoryStore, Entry, int64, text}
use finn_api_go.Store
use finn_api_go.Database.Table.{filter_where, first_where}
use finn_api_go.Repositories.Totp.{active_of, device_of}
use finn_api_go.Database.{
  attempt, tail_faults, head_fault, World, Action, Error, Result, ok, err, ⊤, ◌>>=◌, query,
  invalid_code, rate_limited, totp_unrecoverable, database, recovery_code_used,
}
use finn_api_go.Database.Frame.{Frame}
use finn_api_go.Repositories.Totp
use finn_api_go.Crypto.{decrypt}
use finn_api_go.Services.{Env}
use finn_api_go.Services.Support.{
  counter_value, store_call, byte_len, store_counter_value, store_do, audit, count_metric,
}
use finn_api_go.Services.Totp.{
  TotpService, fail_key, fail_with, totp_valid, record_success, record_failure, guard_brute_force,
  replay_guard, open_active_secret, heal, match_recovery_code,
}
use finn_api_go.Services.Totp.Support.{fail_with-err, open_active_secret-store}
use finn_api_go.Services.Totp.Validate.{
  validate_totp, validate_recovery, recovery_marked, validate_device, validate,
}

-- An answer that counts as a failed attempt.
abbrev pub IsRefused : Result ⊤ → Type 0
IsRefused r = (r ≡ err invalid_code) ⊎ (r ≡ err rate_limited)

abbrev pub is_refused : Result ⊤ → Bool
is_refused (err invalid_code) = true
is_refused (err rate_limited) = true
is_refused _ = false

-- The entry of the user's counter, if there is a store.
abbrev pub counter_at : ℕ → World → Option (Option Entry)
counter_at uid w = elim w.store [ none ↦ none | some s ↦ some (lookup (fail_key uid) s.entries) ]

module _ (env : Env) (svc : TotpService) (tid : String) (now uid : ℕ)
    (P Q : Option (Option Entry) → Type 0)
    (fails : (detail : String) (w : World)
      → P (counter_at uid w)
      → Q (counter_at uid (record_failure env svc tid now uid detail w).1))
    (reads : (s : InMemoryStore)
      → P (some (lookup (fail_key uid) s.entries))
      → P (some (lookup (fail_key uid) (Store.get now (fail_key uid) s).1.entries))) where
  abbrev at : World → Option (Option Entry)
  at w = counter_at uid w

  -- An action that, where P holds, ends in a refusal only with Q.
  abbrev Counts : Action ⊤ → Type 0
  Counts m = (w : World) → P (at w) → is_refused (m w).0 ≡ true → Q (at (m w).1)

  fail_with-world :
      (e : Error) (detail : String) (w : World)
      → (fail_with env svc tid now {A = ⊤} e uid detail w).1
        ≡ (record_failure env svc tid now uid detail w).1
  unfolding record_failure store_do store_call audit count_metric
  fail_with-world e detail w = ground arith

  fail_with-Counts : (e : Error) (detail : String) → Counts (fail_with env svc tid now e uid detail)
  fail_with-Counts e detail w p h =
      subst (λ (v : World). Q (at v)) (sym (fail_with-world e detail w)) (fails detail w p)

  -- From a world with the same entry on, the rest of an action counts for the whole.
  via :
      (m k : Action ⊤) (w v : World)
      → at v ≡ at w
      → m w ≡ k v
      → Counts k
      → P (at w)
      → is_refused (m w).0 ≡ true
      → Q (at (m w).1)
  via m k w v same goes counts p h =
      subst (λ (r : Result ⊤ × World). Q (at r.1)) (sym goes)
        (counts v (subst P (sym same) p)
          (ground (arith, h, ap (λ (r : Result ⊤ × World). is_refused r.0) goes)))

  success-refuses-none :
      (event detail : String) (w : World)
      → is_refused (record_success env svc tid now uid event detail w).0 ≡ false
  unfolding record_success store_do store_call audit
  success-refuses-none event detail w = ground arith

  record_success-Counts :
      (event detail : String) → Counts (record_success env svc tid now uid event detail)
  record_success-Counts event detail w p h =
      absurd (ground (arith, h, success-refuses-none event detail w))

  replay_guard-at : (code : String) → Frame at (replay_guard env svc tid now uid code)
  unfolding replay_guard store_call Store.set_nx
  replay_guard-at code w =
      let apart =
        heads_apart "totp:r" "totp:f" "eplay:" "ail:" (show_uint uid <> ":" <> env.sha256_hex code)
          (show_uint uid) refl refl in
      elim (Option-cases w.store) [
        | inl n ↦ ground (arith, n)
        | inr (s, e) ↦ grind (arith, e, apart, lookup-insert)
      ]

  replay-ok :
      (code : String) (x : Error) (w : World) → (replay_guard env svc tid now uid code w).0 ≢ err x
  unfolding replay_guard store_call
  replay-ok code x w h = ground arith

  spend-Counts :
      (code : String)
      → Counts (
          replay_guard env svc tid now uid code >>= λ fresh.
          if not fresh
          then fail_with env svc tid now invalid_code uid "totp replay"
          else record_success env svc tid now uid "totp_validated" "totp validated")
  spend-Counts code w p h = go (replay_guard env svc tid now uid code w).0 refl
    where
      rest : Action ⊤
      rest = replay_guard env svc tid now uid code >>= λ fresh.
          if not fresh
          then fail_with env svc tid now invalid_code uid "totp replay"
          else record_success env svc tid now uid "totp_validated" "totp validated"

      go : (r : Result Bool) → (replay_guard env svc tid now uid code w).0 ≡ r → Q (at (rest w).1)
      go (ok false) e =
          via rest (fail_with env svc tid now invalid_code uid "totp replay") w
            (replay_guard env svc tid now uid code w).1 (replay_guard-at code w) (ground (arith, e))
            (fail_with-Counts invalid_code "totp replay") p h
      go (ok true) e =
          via rest (record_success env svc tid now uid "totp_validated" "totp validated") w
            (replay_guard env svc tid now uid code w).1 (replay_guard-at code w) (ground (arith, e))
            (record_success-Counts "totp_validated" "totp validated") p h
      go (err x) e = absurd (ground (arith, e, replay-ok code x w))

  heal-ok : (d : TotpDevice) (w : World) → (x : TotpDevice) × ((heal env svc tid now d w).0 ≡ ok x)
  unfolding heal
  heal-ok d w = go (heal env svc tid now d w).0 refl
    where
      go :
          (r : Result TotpDevice)
          → (heal env svc tid now d w).0 ≡ r
          → (x : TotpDevice) × ((heal env svc tid now d w).0 ≡ ok x)
      go (ok x) e = (x, e)
      go (err x) e = absurd (ground (arith, e))

  open-cases :
      (d : TotpDevice) (w : World)
      → ((open_active_secret env svc tid now d w).0 ≡ err totp_unrecoverable)
        ⊎ ((x : String × TotpDevice) × ((open_active_secret env svc tid now d w).0 ≡ ok x))
  unfolding open_active_secret
  open-cases d w = elim (Bool-cases (is_empty d.secret_encrypted)) [
    | inl bare ↦ inr ((d.secret, d), ground (arith, bare))
    | inr sealed ↦ elim (Option-cases (decrypt svc.enc d.secret_encrypted)) [
      | inr (plain, e) ↦ inr ((plain, d), ground (arith, sealed, e))
      | inl lost ↦ elim (Bool-cases (is_empty d.secret)) [
        | inl gone ↦ inl (ground (arith, sealed, lost, gone))
        | inr legacy ↦
            let (healed, e) = heal-ok d w in
            inr ((d.secret, healed), ground (arith, sealed, lost, legacy, e))
      ]
    ]
  ]

  validate_totp-Counts :
      (d : TotpDevice) (code : String) → Counts (validate_totp env svc tid now uid d code)
  unfolding validate_totp
  validate_totp-Counts d code w p h = elim (open-cases d w) [
    | inl lost ↦ absurd (ground (arith, lost, h))
    | inr (x, e) ↦
        let w₁ = (open_active_secret env svc tid now d w).1 in
        let same : at w₁ ≡ at w = ground (arith, open_active_secret-store env svc tid now d w) in
        let rest : Action ⊤ = replay_guard env svc tid now uid code >>= λ fresh.
        if not fresh
        then fail_with env svc tid now invalid_code uid "totp replay"
        else record_success env svc tid now uid "totp_validated" "totp validated" in
        elim (Bool-cases (totp_valid svc.otp now code x.0)) [
          | inr wrong ↦
              via (validate_totp env svc tid now uid d code)
                (fail_with env svc tid now invalid_code uid "bad totp code") w w₁ same
                (ground (arith, e, wrong)) (fail_with-Counts invalid_code "bad totp code") p h
          | inl right ↦
              via (validate_totp env svc tid now uid d code) rest w w₁ same
                (ground (arith, e, right)) (spend-Counts code) p h
        ]
  ]

  -- Marking a code fails only for want of a row, or in the database.
  mark-cases :
      (c : RecoveryCode) (w : World)
      → let r = (Totp.mark_recovery_code_used tid now c w).0 in
        (r ≡ ok tt) ⊎ ((r ≡ err database) ⊎ (r ≡ err recovery_code_used))
  unfolding Totp.mark_recovery_code_used query
  mark-cases c w = go (Totp.mark_recovery_code_used tid now c w).0 refl
    where
      go :
          (r : Result ⊤)
          → (Totp.mark_recovery_code_used tid now c w).0 ≡ r
          → ((Totp.mark_recovery_code_used tid now c w).0 ≡ ok tt)
            ⊎ (((Totp.mark_recovery_code_used tid now c w).0 ≡ err database)
                ⊎ ((Totp.mark_recovery_code_used tid now c w).0 ≡ err recovery_code_used))
      go (ok u) e = inl e
      go (err x) e = ground (arith, e)

  mark-at : (c : RecoveryCode) → Frame at (Totp.mark_recovery_code_used tid now c)
  unfolding Totp.mark_recovery_code_used query
  mark-at c w = ground arith

  mark_then-Counts :
      (c : RecoveryCode)
      → Counts
          (attempt (Totp.mark_recovery_code_used tid now c) >>= recovery_marked env svc tid now uid)
  unfolding recovery_marked
  mark_then-Counts c w p h =
      let m : Action ⊤ =
        attempt (Totp.mark_recovery_code_used tid now c) >>= recovery_marked env svc tid now uid in
      let w₁ = (Totp.mark_recovery_code_used tid now c w).1 in
      elim (mark-cases c w) [
        | inl done ↦
            via m (record_success env svc tid now uid "recovery_code_used" "recovery code used") w
              w₁ (mark-at c w) (ground (arith, done))
              (record_success-Counts "recovery_code_used" "recovery code used") p h
        | inr (inl broken) ↦ absurd (ground (arith, broken, h))
        | inr (inr lost) ↦
            via m (fail_with env svc tid now invalid_code uid "recovery code replay") w w₁
              (mark-at c w) (ground (arith, lost))
              (fail_with-Counts invalid_code "recovery code replay") p h
      ]

  validate_recovery-Counts : (code : String) → Counts (validate_recovery env svc tid now uid code)
  unfolding validate_recovery Totp.active_recovery_codes query
  validate_recovery-Counts code w p h =
      let m = validate_recovery env svc tid now uid code in
      let w₁ : World = record w { faults = tail_faults w.faults } in
      let rows = filter_where (active_of tid w uid) w.recovery_codes in
      elim (Bool-cases (head_fault w.faults)) [
        | inl broken ↦ absurd (ground (arith, broken, h))
        | inr sound ↦ elim (Option-cases (match_recovery_code env code rows)) [
          | inl n ↦
              via m (fail_with env svc tid now invalid_code uid "bad recovery code") w w₁ refl
                (ground (arith, sound, n)) (fail_with-Counts invalid_code "bad recovery code") p h
          | inr (c, e) ↦
              via m
                (attempt (Totp.mark_recovery_code_used tid now c)
                  >>= recovery_marked env svc tid now uid)
                w w₁ refl (ground (arith, sound, e)) (mark_then-Counts c) p h
        ]
      ]

  validate_device-Counts :
      (code : String) (found : Option TotpDevice)
      → Counts (validate_device env svc tid now uid code found)
  unfolding validate_device
  validate_device-Counts code none w p h = fail_with-Counts invalid_code "device not enabled" w p h
  validate_device-Counts code (some d) w p h =
      let m = validate_device env svc tid now uid code (some d) in
      elim (Bool-cases d.enabled) [
        | inr off ↦
            via m (fail_with env svc tid now invalid_code uid "device not enabled") w w refl
              (ground (arith, off)) (fail_with-Counts invalid_code "device not enabled") p h
        | inl on ↦ elim (Bool-cases (byte_len code == 6)) [
          | inl six ↦
              via m (validate_totp env svc tid now uid d code) w w refl (ground (arith, on, six))
                (validate_totp-Counts d code) p h
          | inr long ↦
              via m (validate_recovery env svc tid now uid code) w w refl (ground (arith, on, long))
                (validate_recovery-Counts code) p h
        ]
      ]

  -- The guard refuses and counts, or lets pass and keeps P.
  guard-cases :
      (w : World)
      → P (at w)
      → let (r, w₁) = guard_brute_force env svc tid now uid w in
        ((r ≡ err rate_limited) × Q (at w₁)) ⊎ ((r ≡ ok tt) × P (at w₁))
  unfolding guard_brute_force store_counter_value store_call
  guard-cases w p = elim (Option-cases w.store) [
    | inl n ↦
        let same : w ≡ (guard_brute_force env svc tid now uid w).1 = ground (arith, n) in
        inr (ground (arith, n), subst (λ (v : World). P (at v)) same p)
    | inr (s, e) ↦
        let got = Store.get now (fail_key uid) s in
        let w' : World = record w { store = some got.1 } in
        let there : at w ≡ some (lookup (fail_key uid) s.entries) = ground (arith, e) in
        let p' : P (at w') = reads s (subst P there p) in
        elim (Bool-cases (lt64 (counter_value got.0) svc.cfg.totp_max_attempts)) [
          | inl below ↦
              let same : guard_brute_force env svc tid now uid w ≡ (ok tt, w') =
                ground (arith, e, below) in
              inr (
                ap (λ (r : Result ⊤ × World). r.0) same,
                subst (λ (r : Result ⊤ × World). P (at r.1)) (sym same) p',
              )
          | inr over ↦
              let lockout : String = "brute-force lockout" in
              let same : guard_brute_force env svc tid now uid w
                  ≡ fail_with env svc tid now {A = ⊤} rate_limited uid lockout w' =
                ground (arith, e, over) in
              let refused = fail_with-err env svc tid now uid {A = ⊤} rate_limited lockout w' in
              inl (
                ap (λ (r : Result ⊤ × World). r.0) same ∙ refused,
                subst (λ (r : Result ⊤ × World). Q (at r.1)) (sym same)
                    (fail_with-Counts rate_limited lockout w' p' (ground (arith, refused))),
              )
        ]
  ]

  -- `Validate` counts.
  pub validate-Counts : (code : String) → Counts (validate env svc tid now uid code)
  unfolding validate Totp.find_by_user_id query
  validate-Counts code w p h = elim (guard-cases w p) [
    | inl (over, q) ↦
        let same : (validate env svc tid now uid code w).1
            ≡ (guard_brute_force env svc tid now uid w).1 =
          ground (arith, over) in
        subst (λ (v : World). Q (at v)) (sym same) q
    | inr (below, p') ↦
        let w₁ = (guard_brute_force env svc tid now uid w).1 in
        let w₂ : World = record w₁ { faults = tail_faults w₁.faults } in
        let found = first_where (device_of tid w₁ uid) w₁.totp_devices in
        elim (Bool-cases (head_fault w₁.faults)) [
          | inl broken ↦ absurd (ground (arith, below, broken, h))
          | inr sound ↦
              let same : validate env svc tid now uid code w
                  ≡ validate_device env svc tid now uid code found w₂ =
                ground (arith, below, sound) in
              subst (λ (r : Result ⊤ × World). Q (at r.1)) (sym same)
                (validate_device-Counts code found w₂ p'
                  (ground (arith, h, ap (λ (r : Result ⊤ × World). is_refused r.0) same)))
        ]
  ]
