-- ===== src/Services/Accounts/Uniform.antt =====
-- What `ForgotPassword` and `ResendVerifyEmail` of internal/services/auth_service.go give away.
use finn_api_go.Prelude.{
  ℕ, ◌≡◌, refl, ap, ◌∙◌, sym, String, ◌<>◌, str_eq, ◌&&◌, is_empty, Bool, true, false, not, Option,
  none, some, Option-cases, Bool-cases, inl, inr, arith,
}
use finn_api_go.Models.{User}
use finn_api_go.Database.{
  World, Action, Result, ok, err, Mail, ⊤, ◌>>=◌, query, password_reset, email_verification,
  tail_faults,
}
use finn_api_go.Database.Frame.{Next, bind-Next}
use finn_api_go.Database.Table.{first_where}
use finn_api_go.Repositories.Users
use finn_api_go.Jwt.{reset, verify_email}
use finn_api_go.Services.{Env, AuthService}
use finn_api_go.Services.Support.{audit, send, draw, store_call}
use finn_api_go.Services.Login.{ip_counter_key, normal_email}
use finn_api_go.Services.Accounts.{
  deliver, mail_token, mail_to, forgot_found, forgot_password, exceeds, capped, cap_resend,
  resend_found, resend_to, resend_admitted, resend_screened, resend_below_global,
  resend_verify_email, is_disposable_email,
}

-- Two worlds with the same store and the same failures of the database; the tables may differ.
abbrev pub Alike : World → World → Type 0
Alike w v = (w.store ≡ v.store) × (w.faults ≡ v.faults)

-- The same answer from worlds that are alike, and worlds that are alike again.
abbrev pub Uniform {ℓ} : {A : Type ℓ} → Action A → Type ℓ
Uniform m = (w v : World) → Alike w v → ((m w).0 ≡ (m v).0) × Alike (m w).1 (m v).1

abbrev pub SameAnswer {ℓ} : {A : Type ℓ} → Action A → Type ℓ
SameAnswer m = (w v : World) → Alike w v → (m w).0 ≡ (m v).0

module _ {ℓ κ} {A : Type ℓ} {B : Type κ} (m : Action A) (k : A → Action B) where
  pub SameAnswer->>= : Uniform m → ((a : A) → SameAnswer (k a)) → SameAnswer (m >>= k)
  SameAnswer->>= um uk w v same =
      ap (λ (p : Result B × World). p.0) (bind-Next m k w)
      ∙ go (m w) (m v) (um w v same)
      ∙ ap (λ (p : Result B × World). p.0) (sym (bind-Next m k v))
    where
      go : (p q : Result A × World) → (p.0 ≡ q.0) × Alike p.1 q.1 → (Next k p).0 ≡ (Next k q).0
      go (ok a, w') (ok b, v') s =
          let e : a ≡ b = ground (arith, s.0) in ap (λ x. (k x w').0) e ∙ uk b w' v' s.1
      go (err e, w') (err f, v') s = ground (arith, s.0)
      go (ok a, w') (err f, v') s = absurd (ground (arith, s.0))
      go (err e, w') (ok b, v') s = absurd (ground (arith, s.0))

module _ (env : Env) (svc : AuthService) (tid : String) (now : ℕ) where
  exceeds-Uniform :
      (key : String) (max window : ℕ) → Uniform (exceeds env svc tid now key max window)
  unfolding exceeds store_call
  exceeds-Uniform key max window w v same = elim (Option-cases w.store) [
    | inl n ↦ ground (arith, n, same)
    | inr (s, e) ↦ ground (arith, e, same)
  ]

  cap_resend-Uniform :
      (applies : Bool) (key : String) (max window : ℕ) (email ip detail : String)
      → Uniform (cap_resend env svc tid now applies key max window email ip detail)
  unfolding cap_resend capped audit
  cap_resend-Uniform applies key max window email ip detail w v same =
      let x = exceeds-Uniform key max window w v same in ground (arith, x, same)

  audit-Uniform :
      (uid : Option ℕ) (email event ip detail : String) (success : Bool)
      → Uniform (audit uid email event ip success detail)
  unfolding audit
  audit-Uniform uid email event ip detail success w v same = (refl, same)

  -- What the mailing of a token needs: tokens can be signed, and mails arrive.
  abbrev pub Works : Type 0
  Works =
      ((user : User) (token_type : String) (ttl : ℕ) (w : World)
        → (t : String) × ((mail_token env svc tid now user token_type ttl w).0 ≡ ok t))
      × ((n : ℕ) (m : Mail) → env.delivery_fault n m ≡ none)

  mail_to-ok :
      (user : User) (token_type : String) (ttl : ℕ) (make : String → Mail) (w : World)
      → Works
      → (mail_to env svc tid now user token_type ttl make w).0 ≡ ok tt
  unfolding mail_to deliver send draw
  mail_to-ok user token_type ttl make w works =
      let (t, e) = works.0 user token_type ttl w in
      let v = (mail_token env svc tid now user token_type ttl w).1 in
      ground (arith, e, works.1 v.draws (make t))

  abbrev the_next : World → World
  the_next w = record w { faults = tail_faults w.faults }

  found-ok :
      (f : Option User → Action ⊤) (email : String)
      → ((o : Option User) (w : World) → (f o w).0 ≡ ok tt)
      → SameAnswer (Users.find_by_email tid email >>= f)
  unfolding Users.find_by_email query
  found-ok f email each w v same =
      let of =
        λ (x : World). first_where (λ u. str_eq u.email email && str_eq u.tenant_id tid) x.users in
      let next = λ (x : World). the_next x in
      ground (arith, each (of w) (next w), each (of v) (next v), same)

  forgot_found-ok :
      (email : String) (o : Option User) (w : World)
      → Works
      → (forgot_found env svc tid now email o w).0 ≡ ok tt
  unfolding forgot_found
  forgot_found-ok email none w works = refl
  forgot_found-ok email (some user) w works =
      mail_to-ok user reset svc.cfg.reset_ttl (password_reset email) w works

  forgot_password-SameAnswer :
      (given : String) → Works → SameAnswer (forgot_password env svc tid now given)
  unfolding forgot_password
  forgot_password-SameAnswer given works =
      let email = normal_email given in
      SameAnswer->>= (audit none "" "password_reset_requested" "" true "")
        (λ u. Users.find_by_email tid email >>= forgot_found env svc tid now email)
        (audit-Uniform none "" "password_reset_requested" "" "" true)
        (λ u.
          found-ok (forgot_found env svc tid now email) email
            (λ o w. forgot_found-ok email o w works))

  resend_found-ok :
      (o : Option User) (w : World) → Works → (resend_found env svc tid now o w).0 ≡ ok tt
  unfolding resend_found
  resend_found-ok none w works = refl
  resend_found-ok (some user) w works = ground (
    arith,
    mail_to-ok user verify_email svc.cfg.verify_ttl (email_verification user.email) w works,
  )

  resend_admitted-SameAnswer :
      (email : String) → Works → SameAnswer (resend_admitted env svc tid now email)
  unfolding resend_admitted
  resend_admitted-SameAnswer email works =
      SameAnswer->>= (audit none "" "verification_requested" "" true "")
        (λ u. Users.find_by_email tid email >>= resend_found env svc tid now)
        (audit-Uniform none "" "verification_requested" "" "" true)
        (λ u. found-ok (resend_found env svc tid now) email (λ o w. resend_found-ok o w works))

  resend_screened-SameAnswer :
      (email ip : String) → Works → SameAnswer (resend_screened env svc tid now email ip)
  unfolding resend_screened
  resend_screened-SameAnswer email ip works w v same =
      let key = "verify:resend:" <> email in
      let max = svc.cfg.verify_resend_per_email_max in
      let window = svc.cfg.verify_resend_window in
      let cap = cap_resend-Uniform (not (is_empty email)) key max window email ip "per-email cap" in
      let next = resend_admitted env svc tid now email in
      let capped =
        SameAnswer->>=
          (cap_resend env svc tid now (not (is_empty email)) key max window email ip
            "per-email cap")
          (λ u. next) cap (λ u. resend_admitted-SameAnswer email works) w v same in
      let blocked =
        audit-Uniform none email "verify_resend_blocked" ip "disposable domain" false w v same in
      elim (Bool-cases (is_disposable_email email)) [
        | inl bad ↦ ground (arith, bad, blocked)
        | inr fine ↦ ground (arith, fine, capped)
      ]

  resend_below_global-SameAnswer :
      (email ip : String) → Works → SameAnswer (resend_below_global env svc tid now email ip)
  unfolding resend_below_global
  resend_below_global-SameAnswer email ip works =
      let key = ip_counter_key env "verify:resend:ip:" ip in
      let max = svc.cfg.verify_resend_per_ip_max in
      let window = svc.cfg.verify_resend_per_ip_window in
      SameAnswer->>=
        (cap_resend env svc tid now (not (is_empty ip)) key max window email ip "per-ip cap")
        (λ u. resend_screened env svc tid now email ip)
        (cap_resend-Uniform (not (is_empty ip)) key max window email ip "per-ip cap")
        (λ u. resend_screened-SameAnswer email ip works)

  resend_to-SameAnswer :
      (email ip : String) → Works → SameAnswer (resend_to env svc tid now email ip)
  unfolding resend_to
  resend_to-SameAnswer email ip works =
      let key : String = "verify:resend:global" in
      let max = svc.cfg.verify_resend_global_max in
      let window = svc.cfg.verify_resend_global_window in
      SameAnswer->>= (cap_resend env svc tid now true key max window email ip "global cap")
        (λ u. resend_below_global env svc tid now email ip)
        (cap_resend-Uniform true key max window email ip "global cap")
        (λ u. resend_below_global-SameAnswer email ip works)

  -- `ForgotPassword` and `ResendVerifyEmail` tell nobody whether an address has an account, or a
  -- verified one: from any two worlds with the same shared store in which the same calls of the
  -- database fail, whatever the tables hold, the answer is the same, errors and rate limits included.
  -- (Tokens can be signed, and mails arrive.)
  pub mails_reveal_nothing :
      (given ip : String) (w v : World)
      → Works
      → w.store ≡ v.store
      → w.faults ≡ v.faults
      → ((forgot_password env svc tid now given w).0 ≡ (forgot_password env svc tid now given v).0)
        × ((resend_verify_email env svc tid now given ip w).0
            ≡ (resend_verify_email env svc tid now given ip v).0)
  unfolding resend_verify_email
  mails_reveal_nothing given ip w v works store faults = (
    forgot_password-SameAnswer given works w v (store, faults),
    resend_to-SameAnswer (normal_email given) ip works w v (store, faults),
  )
