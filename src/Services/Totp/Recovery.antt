-- ===== src/Services/Totp/Recovery.antt =====
-- A recovery code of internal/services/totp_service.go is used up.
use finn_api_go.Prelude.{
  ℕ, ◌==◌, ◌≤◌, ◌<◌, ◌≡◌, ◌≢◌, refl, ap, sym, ◌∙◌, String, str_eq, Bool, true, false, ◌&&◌, none,
  some, List, [], ◌∷◌, length, arith, Option-cases, Bool-cases, inl, inr,
}
use finn_api_go.Models.{RecoveryCode}
use finn_api_go.Database.Table.{first_where, filter_where, update_where}
use finn_api_go.Database.{World, Result, ok, err, ⊤, query, tail_faults, invalid_code}
use finn_api_go.Database.Frame.{Frame}
use finn_api_go.Database.Rows.{first_where-matches}
use finn_api_go.Repositories.Totp
use finn_api_go.Repositories.Totp.{is_unused, active_of, to_mark}
use finn_api_go.Services.Support.{
  store_call, byte_len, store_counter_value, store_do, audit, count_metric,
}
use finn_api_go.Services.Totp.{TotpService, record_success, record_failure, guard_brute_force}
use finn_api_go.Services.Totp.Support.{fail_with-err}
use finn_api_go.Services.Totp.Validate.{
  validate_recovery, recovery_marked, validate, validate_device,
}
use finn_api_go.Services.{Env}
use finn_api_go.Services.Totp.{match_recovery_code}

-- An unused row of the user under the hash.
abbrev pub stands : ℕ → String → RecoveryCode → Bool
stands uid hash c = c.user_id == uid && is_unused c && str_eq c.code_hash hash

-- How many times a code with this hash can still be used by the user.
abbrev pub uses_left : ℕ → String → List RecoveryCode → ℕ
uses_left uid hash rows = length (filter_where (stands uid hash) rows)

module _ (q p mark : RecoveryCode → Bool) (f : RecoveryCode → RecoveryCode) where
  filter_where-le :
      (rows : List RecoveryCode)
      → ((r : RecoveryCode) → mark r ≡ true → p (f r) ≡ false)
      → length (filter_where p (update_where mark f rows)) ≤ length (filter_where p rows)
  unfolding filter_where update_where
  filter_where-le [] pf = omega arith
  filter_where-le (r ∷ rows) pf = ground (arith, pf r, filter_where-le rows pf)

  -- Of rows that match, one at least is marked, and a marked row matches no more.
  filter_where-marked :
      (rows : List RecoveryCode) (c : RecoveryCode)
      → ((r : RecoveryCode) → q r ≡ true → p r ≡ true)
      → ((r : RecoveryCode) → mark r ≡ true → p (f r) ≡ false)
      → first_where q rows ≡ some c
      → mark c ≡ true
      → length (filter_where p (update_where mark f rows)) < length (filter_where p rows)
  unfolding first_where filter_where update_where
  filter_where-marked [] c qp pf e m = ground arith
  filter_where-marked (r ∷ rows) c qp pf e m = elim (Bool-cases (q r)) [
    | inl hit ↦
        let same : r ≡ c = ground (arith, e, hit) in
        let mine : mark r ≡ true = ap mark same ∙ m in
        ground (arith, hit, mine, qp r, pf r, filter_where-le rows pf)
    | inr miss ↦ ground (arith, miss, e, m, pf r, filter_where-marked rows c qp pf)
  ]

-- The match over the rows that a query has picked is the first row of both tests.
match-first_where :
    (env : Env) (candidate : String) (p : RecoveryCode → Bool) (rows : List RecoveryCode)
    → match_recovery_code env candidate (filter_where p rows)
      ≡ first_where (λ c. p c && str_eq c.code_hash (env.sha256_hex candidate)) rows
unfolding match_recovery_code filter_where first_where
match-first_where env candidate p [] = refl
match-first_where env candidate p (r ∷ rows) =
    ground (arith, match-first_where env candidate p rows)

-- Where nothing stands, nothing is found.
none_left :
    (q p : RecoveryCode → Bool) (rows : List RecoveryCode)
    → ((r : RecoveryCode) → q r ≡ true → p r ≡ true)
    → length (filter_where p rows) ≡ 0
    → first_where q rows ≡ none
unfolding first_where filter_where
none_left q p [] qp h = refl
none_left q p (r ∷ rows) qp h = ground (arith, qp r, none_left q p rows qp)

module _ (env : Env) (svc : TotpService) (tid : String) (uid : ℕ) (code : String) where
  abbrev left : World → ℕ
  left w = uses_left uid (env.sha256_hex code) w.recovery_codes

  abbrev matching : World → RecoveryCode → Bool
  matching w c = active_of tid w uid c && str_eq c.code_hash (env.sha256_hex code)

  record_success-codes :
      (now : ℕ) (event detail : String)
      → Frame (λ w. w.recovery_codes) (record_success env svc tid now uid event detail)
  unfolding record_success store_do store_call audit
  record_success-codes now event detail w = ground arith

  recovery_marked-ok :
      (now : ℕ) (r : Result ⊤) (w : World)
      → (recovery_marked env svc tid now uid r w).0 ≡ ok tt
      → (r ≡ ok tt)
        × ((recovery_marked env svc tid now uid r w).1.recovery_codes ≡ w.recovery_codes)
  unfolding recovery_marked
  recovery_marked-ok now (ok u) w h =
      (refl, record_success-codes now "recovery_code_used" "recovery code used" w)
  recovery_marked-ok now (err e) w h = absurd (
      ground
        (arith, fail_with-err env svc tid now uid {A = ⊤} invalid_code "recovery code replay" w))

  mark-left :
      (now : ℕ) (c : RecoveryCode) (w : World)
      → first_where (matching w) w.recovery_codes ≡ some c
      → (Totp.mark_recovery_code_used tid now c w).0 ≡ ok tt
      → left (Totp.mark_recovery_code_used tid now c w).1 < left w
  unfolding Totp.mark_recovery_code_used query
  mark-left now c w e h =
      let m = first_where-matches (matching w) w.recovery_codes c e in
      let fewer =
        filter_where-marked (matching w) (stands uid (env.sha256_hex code)) (to_mark tid w c)
          (λ r. record r { used_at = some now }) w.recovery_codes c (λ r q. ground arith)
          (λ r q. ground arith) e (ground (arith, m)) in
      ground (arith, fewer, h)

  validate_recovery-left :
      (now : ℕ) (w : World)
      → (validate_recovery env svc tid now uid code w).0 ≡ ok tt
      → left (validate_recovery env svc tid now uid code w).1 < left w
  unfolding validate_recovery Totp.active_recovery_codes query
  validate_recovery-left now w h =
      let w₁ : World = record w { faults = tail_faults w.faults } in
      let rows = filter_where (active_of tid w uid) w.recovery_codes in
      elim (Option-cases (match_recovery_code env code rows)) [
        | inl n ↦
            let bad =
              fail_with-err env svc tid now uid {A = ⊤} invalid_code "bad recovery code" w₁ in
            absurd (ground (arith, h, n, bad))
        | inr (c, e) ↦
            let (r, w₂) = Totp.mark_recovery_code_used tid now c w₁ in
            let passed : (recovery_marked env svc tid now uid r w₂).0 ≡ ok tt =
              ground (arith, h, e) in
            let (marked, kept) = recovery_marked-ok now r w₂ passed in
            let first =
              sym (match-first_where env code (active_of tid w uid) w.recovery_codes) ∙ e in
            let fewer = mark-left now c w₁ first marked in ground (arith, h, e, kept, fewer)
      ]

  validate_recovery-refused :
      (now : ℕ) (w : World) → left w ≡ 0 → (validate_recovery env svc tid now uid code w).0 ≢ ok tt
  unfolding validate_recovery Totp.active_recovery_codes query
  validate_recovery-refused now w z h =
      let nothing =
        none_left (matching w) (stands uid (env.sha256_hex code)) w.recovery_codes
          (λ r q. ground arith) z in
      let missed = match-first_where env code (active_of tid w uid) w.recovery_codes in
      let bad =
        fail_with-err env svc tid now uid {A = ⊤} invalid_code "bad recovery code"
          (record w { faults = tail_faults w.faults }) in
      ground (arith, h, nothing, missed, bad)

  abbrev guarded : ℕ → World → World
  guarded now w = (guard_brute_force env svc tid now uid w).1

  abbrev found_at : World → World
  found_at w = (Totp.find_by_user_id tid uid w).1

  found_at-codes :
      (now : ℕ) (w : World) → (found_at (guarded now w)).recovery_codes ≡ w.recovery_codes
  unfolding Totp.find_by_user_id query guard_brute_force store_counter_value store_call
      record_failure store_do audit count_metric
  found_at-codes now w = ground arith

  -- A validated code of another length than six was taken for a recovery code.
  validate-recovery :
      (now : ℕ) (w : World)
      → byte_len code ≢ 6
      → (validate env svc tid now uid code w).0 ≡ ok tt
      → validate env svc tid now uid code w
        ≡ validate_recovery env svc tid now uid code (found_at (guarded now w))
  unfolding validate validate_device Totp.find_by_user_id query
  validate-recovery now w long h =
      let bad =
        fail_with-err env svc tid now uid {A = ⊤} invalid_code "device not enabled"
          (found_at (guarded now w)) in
      ground (arith, long, h, bad)

  -- Once `Validate` has accepted a recovery code (a code that is not six bytes long) of which the
  -- user has one unused row, it accepts it no more, however the store and the other tables have
  -- changed since, as long as the recovery codes are as it left them.
  pub recovery_code_once :
      (now later : ℕ) (w v : World)
      → byte_len code ≢ 6
      → (validate env svc tid now uid code w).0 ≡ ok tt
      → uses_left uid (env.sha256_hex code) w.recovery_codes ≡ 1
      → v.recovery_codes ≡ (validate env svc tid now uid code w).1.recovery_codes
      → (validate env svc tid later uid code v).0 ≢ ok tt
  recovery_code_once now later w v long h one rows again =
      let w₁ = found_at (guarded now w) in
      let v₁ = found_at (guarded later v) in
      let same = validate-recovery now w long h in
      let same' = validate-recovery later v long again in
      let fewer =
        validate_recovery-left now w₁ (ap (λ (p : Result ⊤ × World). p.0) (sym same) ∙ h) in
      let gone : left v₁ ≡ 0 = ground (
        arith,
        fewer,
        found_at-codes now w,
        found_at-codes later v,
        rows,
        one,
        ap (λ (p : Result ⊤ × World). p.1.recovery_codes) same,
      ) in
      validate_recovery-refused later v₁ gone
        (ap (λ (p : Result ⊤ × World). p.0) (sym same') ∙ again)
