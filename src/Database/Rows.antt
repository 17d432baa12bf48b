-- ===== src/Database/Rows.antt =====
-- What the statements of Database/Table.antt do to rows: lemmas.
use finn_api_go.Prelude.{◌≡◌, refl, Bool, true, false, none, some, List, [], ◌∷◌, ◌++◌, All, arith}
use finn_api_go.Database.Table.{first_where, any_where, filter_where, update_where}

-- Every row that the test picks is revoked.
abbrev pub AllRevoked : {A : Type 0} → (A → Bool) → (A → Bool) → List A → Type 0
AllRevoked mine revoked rows = All (λ t. mine t ≡ true → revoked t ≡ true) rows

-- An update that revokes every such row not yet revoked, and keeps what picks them, revokes all.
pub AllRevoked-update_where :
    {A : Type 0} (mine revoked : A → Bool) (p : A → Bool) (f : A → A) (rows : List A)
    → ((t : A) → mine (f t) ≡ mine t)
    → ((t : A) → revoked (f t) ≡ true)
    → ((t : A) → mine t ≡ true → revoked t ≡ false → p t ≡ true)
    → AllRevoked mine revoked (update_where p f rows)
unfolding update_where
AllRevoked-update_where mine revoked p f [] km r kp = tt
AllRevoked-update_where mine revoked p f (t ∷ rows) km r kp =
    (λ h. ground (arith, km t, r t, kp t), AllRevoked-update_where mine revoked p f rows km r kp)

module _ {A : Type 0} where
  -- Rows that an update does not touch.
  pub filter_where-update_where :
      (q p : A → Bool) (f : A → A) (rows : List A)
      → ((t : A) → q (f t) ≡ q t)
      → ((t : A) → q t ≡ true → p t ≡ false)
      → filter_where q (update_where p f rows) ≡ filter_where q rows
  unfolding filter_where update_where
  filter_where-update_where q p f [] kq apart = refl
  filter_where-update_where q p f (t ∷ rows) kq apart =
      ground (arith, kq t, apart t, filter_where-update_where q p f rows kq apart)

  -- The first match stays the first, updated.
  pub first_where-update_where :
      (q p : A → Bool) (f : A → A) (rows : List A) (x : A)
      → ((t : A) → q (f t) ≡ q t)
      → first_where q rows ≡ some x
      → p x ≡ true
      → first_where q (update_where p f rows) ≡ some (f x)
  unfolding first_where update_where
  first_where-update_where q p f [] x kq e h = ground arith
  first_where-update_where q p f (t ∷ rows) x kq e h =
      ground (arith, kq t, first_where-update_where q p f rows x kq)

  pub first_where-append :
      (q : A → Bool) (rows more : List A) (x : A)
      → first_where q rows ≡ some x
      → first_where q (rows ++ more) ≡ some x
  unfolding first_where
  first_where-append q [] more x e = ground arith
  first_where-append q (t ∷ rows) more x e = ground (arith, first_where-append q rows more x)

  -- A first match matches.
  pub first_where-matches :
      (q : A → Bool) (rows : List A) (x : A) → first_where q rows ≡ some x → q x ≡ true
  unfolding first_where
  first_where-matches q [] x e = ground arith
  first_where-matches q (t ∷ rows) x e = ground (arith, first_where-matches q rows x)

  -- A first match of one test that another test picks is among the rows that one picks.
  pub first_where-any_where :
      (q p : A → Bool) (rows : List A) (x : A)
      → first_where q rows ≡ some x
      → p x ≡ true
      → any_where p rows ≡ true
  unfolding first_where any_where
  first_where-any_where q p [] x e h = ground arith
  first_where-any_where q p (t ∷ rows) x e h = ground (arith, first_where-any_where q p rows x)

  pub first_where-none :
      (p : A → Bool) (rows : List A) → first_where p rows ≡ none → any_where p rows ≡ false
  unfolding first_where any_where
  first_where-none p [] e = refl
  first_where-none p (t ∷ rows) e = ground (arith, first_where-none p rows)

  -- What an update of the rows it picks leaves there is what it writes.
  pub first_where-updated :
      (p good : A → Bool) (f : A → A) (rows : List A) (x : A)
      → ((t : A) → p (f t) ≡ p t)
      → ((t : A) → good (f t) ≡ true)
      → first_where p (update_where p f rows) ≡ some x
      → good x ≡ true
  unfolding first_where update_where
  first_where-updated p good f [] x kp kg e = ground arith
  first_where-updated p good f (t ∷ rows) x kp kg e =
      ground (arith, kp t, kg t, first_where-updated p good f rows x kp kg)
