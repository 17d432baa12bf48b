-- ===== src/Database/Frame.antt =====
-- What an action leaves alone, and what holds once it has succeeded, for actions in sequence.
use mathlib.Core.Path.{subst}
use finn_api_go.Prelude.{◌≡◌, refl, sym, ◌∙◌, Bool, true, false, arith}
use finn_api_go.Database.{World, Action, Result, ok, err, ⊤, ◌>>=◌, when}

-- The part f of the world is the same after m, however m ends.
abbrev pub Frame {ℓ κ} : {A : Type ℓ} {B : Type κ} → (World → B) → Action A → Type κ
Frame f m = (w : World) → f (m w).1 ≡ f w

module _ {ℓ κ μ} {A : Type ℓ} {B : Type κ} {C : Type μ} (f : World → C) (m : Action A)
    (k : A → Action B) where
  pub Frame->>= : Frame f m → ((a : A) → Frame f (k a)) → Frame f (m >>= k)
  Frame->>= fm fk w = go (m w) refl
    where
      go :
          (p : Result A × World)
          → m w ≡ p
          → f
              (let (r, w') = p in
                elim r as (λ x. Result B × World) [ ok a ↦ k a w' | err e ↦ (err e, w') ]).1
            ≡ f w
      go (ok a, w') e = fk a w' ∙ ground (arith, fm w, e)
      go (err x, w') e = ground (arith, fm w, e)

  -- A bind that succeeds: both halves did.
  pub >>=-ok :
      (w : World) (b : B)
      → ((m >>= k) w).0 ≡ ok b
      → (a : A) × ((m w).0 ≡ ok a) × ((k a (m w).1).0 ≡ ok b) × ((m >>= k) w ≡ k a (m w).1)
  >>=-ok w b h = go (m w) refl h
    where
      go :
          (p : Result A × World)
          → m w ≡ p
          → (let (r, w') = p in
              elim r as (λ x. Result B × World) [ ok a ↦ k a w' | err e ↦ (err e, w') ]).0
            ≡ ok b
          → (a : A) × ((m w).0 ≡ ok a) × ((k a (m w).1).0 ≡ ok b) × ((m >>= k) w ≡ k a (m w).1)
      go (ok a, w') e h = (a, ground (arith, e), ground (arith, e), ground (arith, e))
      go (err x, w') e h = ground (arith, e)

pub Frame-when {κ} :
    {C : Type κ} (f : World → C) (c : Bool) (m : Action ⊤) → Frame f m → Frame f (when c m)
Frame-when f true m fm w = fm w
Frame-when f false m fm w = refl

-- The world and the answer after a step.
abbrev pub Next {ℓ κ} :
    {A : Type ℓ} {B : Type κ} → (A → Action B) → Result A × World → Result B × World
Next k (ok a, w) = k a w
Next k (err e, w) = (err e, w)

module _ {ℓ κ} {A : Type ℓ} {B : Type κ} (m : Action A) (k : A → Action B) where
  pub bind-Next : (w : World) → (m >>= k) w ≡ Next k (m w)
  bind-Next w = go (m w)
    where
      go :
          (p : Result A × World)
          → (let (r, w') = p in
              elim r as (λ x. Result B × World) [ ok a ↦ k a w' | err e ↦ (err e, w') ])
            ≡ Next k p
      go (ok a, w') = refl
      go (err e, w') = refl

-- P holds of the world after m where it held before, however m ends.
abbrev pub Keeps {ℓ} : {A : Type ℓ} → (World → Type 0) → Action A → Type 0
Keeps P m = (w : World) → P w → P (m w).1

module _ {ℓ κ} {A : Type ℓ} {B : Type κ} (P : World → Type 0) (m : Action A)
    (k : A → Action B) where
  pub Keeps->>= : Keeps P m → ((a : A) → Keeps P (k a)) → Keeps P (m >>= k)
  Keeps->>= km kk w p =
      subst (λ (r : Result B × World). P r.1) (sym (bind-Next m k w)) (go (m w) (km w p))
    where
      go : (r : Result A × World) → P r.1 → P (Next k r).1
      go (ok a, w') p = kk a w' p
      go (err e, w') p = p
