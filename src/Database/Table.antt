-- ===== src/Database/Table.antt =====
-- Rows as SQL statements see them: the first match, an update of all that match, a delete.
use finn_api_go.Prelude.{Bool, false, Option, none, some, List, [], ◌∷◌, if◌then◌else◌, ◌||◌}

module _ {ℓ} {A : Type ℓ} where
  -- `First`: the row with the least primary key; rows are kept in the order of their keys.
  unfoldable pub first_where : (A → Bool) → List A → Option A
  first_where p [] = none
  first_where p (x ∷ xs) = if p x then some x else first_where p xs

  unfoldable pub any_where : (A → Bool) → List A → Bool
  any_where p [] = false
  any_where p (x ∷ xs) = p x || any_where p xs

  unfoldable pub filter_where : (A → Bool) → List A → List A
  filter_where p [] = []
  filter_where p (x ∷ xs) = if p x then x ∷ filter_where p xs else filter_where p xs

  unfoldable pub update_where : (A → Bool) → (A → A) → List A → List A
  update_where p f [] = []
  update_where p f (x ∷ xs) = (if p x then f x else x) ∷ update_where p f xs

  unfoldable pub delete_where : (A → Bool) → List A → List A
  delete_where p [] = []
  delete_where p (x ∷ xs) = if p x then delete_where p xs else x ∷ delete_where p xs
