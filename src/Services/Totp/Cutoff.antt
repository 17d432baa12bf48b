-- ===== src/Services/Totp/Cutoff.antt =====
-- The cap of internal/services/totp_service.go on wrong codes per user.
use finn_api_go.Prelude.{
  ℕ, ◌+◌, ◌^◌, ◌≤◌, ◌<◌, ◌≡◌, refl, ap, ◌∙◌, String, eq_refl, true, false, Option, none, some, List,
  [], ◌∷◌, All, length, arith, Option-cases, inl, inr,
}
use finn_api_go.Prelude.Dict.{lookup, lookup-erase}
use finn_api_go.Prelude.Int64.{lt64}
use finn_api_go.Store.{InMemoryStore, Entry, int64, text}
use finn_api_go.Store
use finn_api_go.Database.{World, Result, err, ⊤, rate_limited}
use finn_api_go.Services.{Env}
use finn_api_go.Services.Support.{
  counter_value, store_call, store_counter_value, store_do, audit, count_metric,
}
use finn_api_go.Services.Totp.{TotpService, fail_key, record_failure, guard_brute_force}
use finn_api_go.Services.Totp.Support.{fail_with-err}
use finn_api_go.Services.Totp.Validate.{validate}
use finn_api_go.Services.Totp.Counts.{is_refused, counter_at, validate-Counts}
use finn_api_go.Store.Spec.{observe, live}
use finn_api_go.Store.Window.{incr_by-At, incr_by_first}

-- A run of attempts at the given times.
unfoldable pub attempts :
    Env → TotpService → String → ℕ → List (ℕ × String) → World → List (Result ⊤) × World
attempts env svc tid uid [] w = ([], w)
attempts env svc tid uid ((now, code) ∷ rest) w =
    let (r, w') = validate env svc tid now uid code w in
    let (rs, w'') = attempts env svc tid uid rest w' in (r ∷ rs, w'')

module _ (env : Env) (svc : TotpService) (tid : String) (uid : ℕ) where
  -- Where the counter is at the cap, the guard refuses.
  validate-limited :
      (now : ℕ) (code : String) (w : World) (s : InMemoryStore)
      → w.store ≡ some s
      → lt64 (counter_value (Store.get now (fail_key uid) s).0) svc.cfg.totp_max_attempts ≡ false
      → (validate env svc tid now uid code w).0 ≡ err rate_limited
  unfolding validate guard_brute_force store_counter_value store_call
  validate-limited now code w s e over =
      let w' : World = record w { store = some (Store.get now (fail_key uid) s).1 } in
      ground (
        arith,
        e,
        over,
        fail_with-err env svc tid now uid {A = ⊤} rate_limited "brute-force lockout" w',
      )

  abbrev counter : ℕ → ℕ → Entry
  counter c end = record { value = int64 c; exp = some end }

  failure-counter :
      (now : ℕ) (detail : String) (w : World) (s : InMemoryStore)
      → w.store ≡ some s
      → counter_at uid (record_failure env svc tid now uid detail w).1
        ≡ some (
            lookup
              (fail_key uid)
              (Store.incr_by now (fail_key uid) s 1 svc.cfg.totp_attempt_window).1.entries)
  unfolding record_failure store_do store_call audit count_metric
  failure-counter now detail w s e = ground (arith, e)

  -- A refused attempt in the window raises the counter by one.
  refused-raises :
      (now c end : ℕ) (code : String) (w : World)
      → counter_at uid w ≡ some (some (counter c end))
      → now ≤ end
      → c + 1 < 2 ^ 64
      → is_refused (validate env svc tid now uid code w).0 ≡ true
      → counter_at uid (validate env svc tid now uid code w).1 ≡ some (some (counter (c + 1) end))
  unfolding Store.get
  refused-raises now c end code w e soon small h =
      validate-Counts env svc tid now uid (λ o. o ≡ some (some (counter c end)))
        (λ o. o ≡ some (some (counter (c + 1) end)))
        (λ detail v p. elim (Option-cases v.store) [
          | inl n ↦ ground (arith, n)
          | inr (s, es) ↦
              let raised =
                incr_by-At now c end svc.cfg.totp_attempt_window (fail_key uid) s
                  (ground (arith, es)) soon small in
              failure-counter now detail v s es ∙ ap some raised.1
        ])
        (λ s p. ground (arith, soon)) code w e h

  get-absent :
      (now : ℕ) (s : InMemoryStore)
      → observe now s (fail_key uid) ≡ none
      → observe now (Store.get now (fail_key uid) s).1 (fail_key uid) ≡ none
  unfolding Store.get
  get-absent now s h =
      ground
        (arith, h, lookup-erase (fail_key uid) (fail_key uid) s.entries, eq_refl (fail_key uid))

  -- The first one opens the window.
  refused-opens :
      (now : ℕ) (code : String) (w : World) (s : InMemoryStore)
      → w.store ≡ some s
      → observe now s (fail_key uid) ≡ none
      → 0 < svc.cfg.totp_attempt_window
      → is_refused (validate env svc tid now uid code w).0 ≡ true
      → counter_at uid (validate env svc tid now uid code w).1
        ≡ some (some (counter 1 (now + svc.cfg.totp_attempt_window)))
  unfolding Store.get
  refused-opens now code w s e fresh long h =
      validate-Counts env svc tid now uid
        (λ o. (x : Option Entry) × (o ≡ some x) × (live now x ≡ none))
        (λ o. o ≡ some (some (counter 1 (now + svc.cfg.totp_attempt_window))))
        (λ detail v p. elim (Option-cases v.store) [
          | inl n ↦ ground (arith, n, p.1)
          | inr (t, et) ↦
              let absent : observe now t (fail_key uid) ≡ none =
                ap (live now) (ground (arith, et, p.1)) ∙ p.2 in
              let opened =
                incr_by_first now svc.cfg.totp_attempt_window (fail_key uid) t absent long in
              failure-counter now detail v t et ∙ ap some opened.1
        ])
        (λ t p. (
          lookup (fail_key uid) (Store.get now (fail_key uid) t).1.entries,
          refl,
          get-absent now t (ap (live now) (ground (arith, p.1)) ∙ p.2),
        ))
        code w (lookup (fail_key uid) s.entries, ground (arith, e), fresh) h

  attempts-raise :
      (c end : ℕ) (tries : List (ℕ × String)) (w : World)
      → counter_at uid w ≡ some (some (counter c end))
      → All (λ (t : ℕ × String). t.0 ≤ end) tries
      → c + length tries < 2 ^ 64
      → let (rs, v) = attempts env svc tid uid tries w in
        All (λ r. is_refused r ≡ true) rs
        → counter_at uid v ≡ some (some (counter (c + length tries) end))
  unfolding attempts
  attempts-raise c end [] w e soon small h = ground (arith, e)
  attempts-raise c end ((now, code) ∷ rest) w e soon small h =
      let one = refused-raises now c end code w e soon.0 (omega arith) h.0 in
      let more =
        attempts-raise (c + 1) end rest (validate env svc tid now uid code w).1 one soon.1
          (omega arith) h.1 in
      ground (arith, more)

  lt64_small-ge :
      (c : ℕ)
      → svc.cfg.totp_max_attempts ≤ c
      → c < 2 ^ 63
      → lt64 c svc.cfg.totp_max_attempts ≡ false
  unfolding lt64
  lt64_small-ge c over small = ground arith

  counter-limited :
      (now c end : ℕ) (code : String) (w : World)
      → counter_at uid w ≡ some (some (counter c end))
      → now ≤ end
      → c < 2 ^ 63
      → svc.cfg.totp_max_attempts ≤ c
      → (validate env svc tid now uid code w).0 ≡ err rate_limited
  unfolding Store.get counter_value
  counter-limited now c end code w e soon small over = elim (Option-cases w.store) [
    | inl n ↦ absurd (ground (arith, n, e))
    | inr (s, es) ↦
        let there : lookup (fail_key uid) s.entries ≡ some (counter c end) =
          ground (arith, es, e) in
        let got : (Store.get now (fail_key uid) s).0 ≡ some (int64 c) =
          ground (arith, there, soon) in
        validate-limited now code w s es (
          ap (λ o. lt64 (counter_value o) svc.cfg.totp_max_attempts) got
          ∙ lt64_small-ge c over small)
  ]

  -- As many refused attempts as the cap close `Validate` for the user: up to the end of the window
  -- that the first of them opened, every further attempt is answered with a rate limit, whatever
  -- its code is, right ones and recovery codes included, and whatever the database has become. (The
  -- store is up and keeps the counter, which was not live before; the attempts fall in the window;
  -- the database did not fail instead.)
  pub attempts_cut_off :
      (t0 later : ℕ) (code0 code : String) (tries : List (ℕ × String)) (w v : World)
      (s : InMemoryStore)
      → w.store ≡ some s
      → observe t0 s (fail_key uid) ≡ none
      → 0 < svc.cfg.totp_attempt_window
      → All (λ (t : ℕ × String). t.0 ≤ t0 + svc.cfg.totp_attempt_window) tries
      → 1 + length tries < 2 ^ 63
      → svc.cfg.totp_max_attempts ≤ 1 + length tries
      → All (λ r. is_refused r ≡ true) (attempts env svc tid uid ((t0, code0) ∷ tries) w).0
      → later ≤ t0 + svc.cfg.totp_attempt_window
      → counter_at uid v ≡ counter_at uid (attempts env svc tid uid ((t0, code0) ∷ tries) w).1
      → (validate env svc tid later uid code v).0 ≡ err rate_limited
  unfolding attempts
  attempts_cut_off t0 later code0 code tries w v s e fresh long times small enough refused soon
        kept =
      let end = t0 + svc.cfg.totp_attempt_window in
      let w₁ = (validate env svc tid t0 uid code0 w).1 in
      let first = refused-opens t0 code0 w s e fresh long refused.0 in
      let rest = attempts-raise 1 end tries w₁ first times (omega arith) refused.1 in
      counter-limited later (1 + length tries) end code v (kept ∙ rest) soon small enough
