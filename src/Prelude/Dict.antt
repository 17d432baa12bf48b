-- ===== src/Prelude/Dict.antt =====
-- A Go map with string keys as an association list: `m[k]`, `m[k] = v`, `delete(m, k)`.
use Prim.Native.String.{String}
use mathlib.Core.List.{List, [], ◌∷◌}
use mathlib.Core.Option.{Option, none, some}
use mathlib.Core.Path.{◌≡◌, refl}
use native.Mathlib.Omega.{arith}
use text.Mathlib.Text.{◌==◌ as str_eq}
use text.Mathlib.TextEquality.{eq_iff}
use finn_api_go.Prelude.Tests.{if◌then◌else◌}

module _ {ℓ} {V : Type ℓ} where
  unfoldable pub lookup : String → List (String × V) → Option V
  lookup key [] = none
  lookup key (entry ∷ rest) = if str_eq entry.0 key then some entry.1 else lookup key rest

  unfoldable pub insert : String → V → List (String × V) → List (String × V)
  insert key value [] = (key, value) ∷ []
  insert key value (entry ∷ rest) =
      let after = insert key value rest in
      if str_eq entry.0 key then (key, value) ∷ rest else entry ∷ after

  -- Every entry under the key goes, so that no older one comes back.
  unfoldable pub erase : String → List (String × V) → List (String × V)
  erase key [] = []
  erase key (entry ∷ rest) =
      let after = erase key rest in if str_eq entry.0 key then after else entry ∷ after

  module _ (key other : String) where
    pub lookup-insert :
        (value : V) (entries : List (String × V))
        → lookup other (insert key value entries)
          ≡ (if str_eq key other then some value else lookup other entries)
    unfolding lookup insert
    lookup-insert value [] = refl
    lookup-insert value (entry ∷ rest) = ground (
      arith,
      lookup-insert value rest,
      eq_iff key other,
      eq_iff entry.0 other,
      eq_iff entry.0 key,
    )

    pub lookup-erase :
        (entries : List (String × V))
        → lookup other (erase key entries)
          ≡ (if str_eq key other then none else lookup other entries)
    unfolding lookup erase
    lookup-erase [] = ground arith
    lookup-erase (entry ∷ rest) =
        ground
          (arith, lookup-erase rest, eq_iff key other, eq_iff entry.0 other, eq_iff entry.0 key)
