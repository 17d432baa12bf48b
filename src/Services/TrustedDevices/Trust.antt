-- ===== src/Services/TrustedDevices/Trust.antt =====
-- `Issue` of internal/services/trusted_device_service.go, and `Validate` of what it has issued.
use finn_api_go.Prelude.{
  ℕ, ◌+◌, ◌==◌, ◌≡◌, refl, ap, ◌∙◌, String, str_eq, eq_refl, is_empty, Bool, true, false, ◌&&◌,
  none, some, Option-cases, inl, inr, List, [], ◌∷◌, ◌++◌, ltb, if◌then◌else◌, arith,
}
use finn_api_go.Models.{TrustedDevice}
use finn_api_go.Database.{World, ok, query}
use finn_api_go.Database.Table.{first_where, any_where}
use finn_api_go.Repositories.Scope.{owned, require_owner}
use finn_api_go.Repositories.TrustedDevices
use finn_api_go.Repositories.TrustedDevices.{has_device_hash}
use finn_api_go.Services.{Env}
use finn_api_go.Services.Support.{audit, draw}
use finn_api_go.Services.TrustedDevices.{TrustedDeviceService, device_token, issue, validate}

-- The first match where all but the last row fail a weaker test.
first_where-last :
    {A : Type 0} (p q : A → Bool) (rows : List A) (x : A)
    → ((t : A) → p t ≡ true → q t ≡ true)
    → any_where q rows ≡ false
    → first_where p (rows ++ x ∷ []) ≡ (if p x then some x else none)
unfolding first_where any_where
first_where-last p q [] x pq e = refl
first_where-last p q (t ∷ rows) x pq e = ground (arith, pq t, first_where-last p q rows x pq)

module _ (env : Env) (svc : TrustedDeviceService) (tid : String) (now : ℕ) where
  abbrev issued_row : ℕ → ℕ → String → String → String → TrustedDevice
  issued_row id uid name ip token = record {
    id = id;
    user_id = uid;
    device_hash = env.sha256_hex token;
    device_name = name;
    ip_address = ip;
    last_used_at = none;
    expires_at = now + svc.ttl;
    revoked = false;
    created_at = now;
  }

  -- A row with the hash of a token.
  abbrev hashed : String → TrustedDevice → Bool
  hashed token d = str_eq d.device_hash (env.sha256_hex token)

  issue-row :
      (uid : ℕ) (name ip token : String) (end : ℕ) (w : World)
      → svc.repo_wired ≡ true
      → (issue env svc tid now uid name ip w).0 ≡ ok (token, end)
      → let w' = (issue env svc tid now uid name ip w).1 in
        (end ≡ now + svc.ttl)
        × (any_where (hashed token) w.trusted_devices ≡ false)
        × (owned tid w uid ≡ true)
        × (w'.users ≡ w.users)
        × (w'.trusted_devices ≡ w.trusted_devices ++ issued_row w.next_id uid name ip token ∷ [])
  unfolding issue device_token draw TrustedDevices.create require_owner query audit
  issue-row uid name ip token end w wired h = elim (Option-cases (env.random_hex w.draws)) [
    | inl n ↦ absurd (ground (arith, n, h))
    | inr (t, e) ↦
        let same : t ≡ token = ground (arith, wired, e, h) in
        let drawn : env.random_hex w.draws ≡ some token = e ∙ ap some same in
        (
          ground (arith, wired, drawn, h),
          ground (arith, wired, drawn, h),
          ground (arith, wired, drawn, h),
          ground (arith, wired, drawn, h),
          ground (arith, wired, drawn, h),
        )
  ]

  -- A token that `Issue` has handed out is accepted by `Validate` as long as the term of the service
  -- runs, for the user it was issued to and for nobody else. (The repository is wired, the token is
  -- not empty, and the database does not fail in the call and has the users and devices as `Issue`
  -- has left them.)
  pub validate-issue :
      (uid : ℕ) (name ip token : String) (end : ℕ) (w : World)
      → svc.repo_wired ≡ true
      → is_empty token ≡ false
      → (issue env svc tid now uid name ip w).0 ≡ ok (token, end)
      → (later other : ℕ) (v : World) → v.faults ≡ []
      → v.users ≡ (issue env svc tid now uid name ip w).1.users
      → v.trusted_devices ≡ (issue env svc tid now uid name ip w).1.trusted_devices
      → (validate env svc tid later other token v).0
        ≡ ok (other == uid && ltb later (now + svc.ttl))
  unfolding validate TrustedDevices.find_by_device_hash query audit
  validate-issue uid name ip token end w wired there h later other v sound users devices =
      let (term, fresh, mine, us, ds) = issue-row uid name ip token end w wired h in
      let d = issued_row w.next_id uid name ip token in
      let owner : owned tid v uid ≡ true = ap (any_where _) (users ∙ us) ∙ mine in
      let found : first_where (has_device_hash tid later v (env.sha256_hex token)) v.trusted_devices
          ≡ (if ltb later (now + svc.ttl) then some d else none) =
        ap (first_where (has_device_hash tid later v (env.sha256_hex token))) (devices ∙ ds)
        ∙ first_where-last (has_device_hash tid later v (env.sha256_hex token)) (hashed token)
            w.trusted_devices d (λ t. ground arith) fresh
        ∙ ground (arith, owner, eq_refl (env.sha256_hex token)) in
      ground (arith, wired, there, sound, found)
