-- ===== src/Prelude/Text.antt =====
-- What the program takes of Go's `strings`: on ASCII exactly, and on other characters as said below.
use Prim.Native.Char.{Char, char, code}
use Prim.Native.String.{String, char_at, count, ◌++◌ as ◌<>◌}
use Prim.Native.Nat.{ℕ, ◌-◌}
use mathlib.Core.Bool.{Bool, true, false, ◌&&◌, ◌||◌}
use mathlib.Core.List.{List, [], ◌∷◌}
use mathlib.Core.Path.{◌≡◌, refl, sym, ◌∙◌}
use mathlib.Core.Logic.{inl, inr}
use text.Mathlib.TextLemmas.{append_assoc, append_inj}
use text.Mathlib.TextEquality.{eq_iff}
use native.Mathlib.Omega.{arith}
use text.Mathlib.Text.{◌==◌ as str_eq, starts_with}
use finn_api_go.Prelude.Tests.{Bool-cases, leb, ◌==◌, if◌then◌else◌}

-- `strings.ToLower` on A to Z; it leaves other characters alone.
unfoldable pub lower_char : Char → Char
lower_char c =
    if leb b'A' (code c) && leb (code c) b'Z'
    then char_at "abcdefghijklmnopqrstuvwxyz" (code c - b'A')
    else c

unfoldable pub to_lower : String → String
unfolding lower_char
to_lower String.[] = ""
to_lower (String.◌∷◌ c s) = String.◌∷◌ (lower_char c) (to_lower s)

-- Unicode's White_Space.
unfoldable pub is_space : ℕ → Bool
is_space n =
    (leb 9 n && leb n 13)
    || n == 32
    || n == 0x85
    || n == 0xA0
    || n == 0x1680
    || (leb 0x2000 n && leb n 0x200A)
    || n == 0x2028
    || n == 0x2029
    || n == 0x202F
    || n == 0x205F
    || n == 0x3000

unfoldable pub trim_left : String → String
unfolding is_space
trim_left String.[] = ""
trim_left (String.◌∷◌ c s) =
    let rest = trim_left s in if is_space (code c) then rest else String.◌∷◌ c s

unfoldable pub trim_right : String → String
unfolding is_space
trim_right String.[] = ""
trim_right (String.◌∷◌ c s) =
    let rest = trim_right s in if is_space (code c) && str_eq rest "" then "" else String.◌∷◌ c rest

-- `strings.TrimSpace`
unfoldable pub trim_space : String → String
unfolding trim_left trim_right
trim_space s = trim_right (trim_left s)

abbrev cons_head : Char → List String → List String
cons_head c [] = String.◌∷◌ c "" ∷ []
cons_head c (p ∷ ps) = String.◌∷◌ c p ∷ ps

-- `strings.Split` at a separator of one character.
unfoldable pub split : ℕ → String → List String
split sep String.[] = "" ∷ []
split sep (String.◌∷◌ c s) =
    let rest = split sep s in if code c == sep then "" ∷ rest else cons_head c rest

-- `strings.Contains`
unfoldable pub contains_text : String → String → Bool
contains_text String.[] t = str_eq t ""
contains_text (String.◌∷◌ c s) t = starts_with (String.◌∷◌ c s) t || contains_text s t

-- Simple case folding as far as it meets ASCII: A to Z, the long s and the Kelvin sign.
unfoldable pub fold_char : Char → Char
unfolding lower_char
fold_char c =
    if code c == 0x17F
    then char b's' tt
    else if code c == 0x212A
    then char b'k' tt
    else lower_char c

unfoldable pub fold_text : String → String
unfolding fold_char
fold_text String.[] = ""
fold_text (String.◌∷◌ c s) = String.◌∷◌ (fold_char c) (fold_text s)

-- `strings.EqualFold`
unfoldable pub equal_fold : String → String → Bool
unfolding fold_text
equal_fold s t = str_eq (fold_text s) (fold_text t)

text_runs :
    (to_lower (trim_space "  Ada@Example.ORG ") ≡ "ada@example.org")
    × (split b'@' "a@b@c" ≡ "a" ∷ "b" ∷ "c" ∷ [])
    × (contains_text "password" "sswo" ≡ true)
    × (equal_fold "Bearer" "bEARER" ≡ true)
unfolding to_lower trim_space split contains_text equal_fold
text_runs = (refl, refl, refl, refl)

-- Texts that begin with different heads of one length differ, whatever follows.
pub heads_apart :
    (h k a b x y : String)
    → count h ≡ count k
    → str_eq h k ≡ false
    → str_eq ((h <> a) <> x) ((k <> b) <> y) ≡ false
heads_apart h k a b x y n d = elim (Bool-cases (str_eq ((h <> a) <> x) ((k <> b) <> y))) [
  | inr differ ↦ differ
  | inl same ↦
      let e : h <> (a <> x) ≡ k <> (b <> y) =
        sym (append_assoc h a x)
        ∙ (eq_iff ((h <> a) <> x) ((k <> b) <> y)).0 same
        ∙ append_assoc k b y in
      let heads : h ≡ k = (append_inj e n).0 in ground (arith, heads, d, (eq_iff h k).1 heads)
]
