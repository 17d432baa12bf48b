-- ===== src/Services/Support.antt =====
-- The calls that the services of internal/services make on the store, the audit trail, the random
-- sources and the metrics.
use Prim.Native.Char.{code}
use finn_api_go.Prelude.{
  ℕ, ◌+◌, ◌*◌, ◌-◌, ◌%◌, ◌^◌, ◌==◌, ◌≡◌, refl, String, is_empty, Bool, true, false, ◌&&◌, ◌||◌,
  Option, none, some, [], ◌∷◌, ◌++◌, ltb, leb, if◌then◌else◌,
}
use finn_api_go.Services.{Env}
use finn_api_go.Prelude.Int64.{Int64}
use finn_api_go.Store.{Value, int64, int, text, InMemoryStore}
use finn_api_go.Store
use finn_api_go.Database.{
  Action, ok, Mail, Metrics, ⊤, ◌>>=◌, ◌>>◌, pure, raise, raise_if, modify, hashing,
}

-- A call of the store; a nil store answers the default.
unfoldable pub store_call {ℓ} : {A : Type ℓ} → A → (InMemoryStore → A × InMemoryStore) → Action A
store_call default f w = elim w.store [
  | none ↦ (ok default, w)
  | some s ↦ (ok (f s).0, record w { store = some (f s).1 })
]

-- The same for a method that answers nothing.
unfoldable pub store_do : (InMemoryStore → InMemoryStore) → Action ⊤
unfolding store_call
store_do f = store_call tt (λ s. (tt, f s))

-- `s.audits.Record`
unfoldable pub audit : Option ℕ → String → String → String → Bool → String → Action ⊤
audit uid email event ip success detail = modify (λ w. record w {
  audits =
      w.audits
      ++ record {
        user_id = uid;
        email = email;
        event = event;
        ip_address = ip;
        success = success;
        detail = detail;
      }
        ∷ [];
})

unfoldable pub send : Mail → Action ⊤
send m = modify (λ w. record w { mails = w.mails ++ m ∷ [] })

unfoldable pub count_metric : (Metrics → Metrics) → Action ⊤
count_metric f = modify (λ w. record w { metrics = f w.metrics })

-- The next number of the random sources.
unfoldable pub draw : Action ℕ
draw w = (ok w.draws, record w { draws = w.draws + 1 })

-- The decimal digits of a text after those already read; `none` at any other character.
unfoldable pub parse_digits : ℕ → String → Option ℕ
parse_digits acc String.[] = some acc
parse_digits acc (String.◌∷◌ c s) =
    let rest = parse_digits (acc * 10 + (code c - b'0')) s in
    if leb b'0' (code c) && leb (code c) b'9' then rest else none

abbrev starts : ℕ → String → Bool
starts n String.[] = false
starts n (String.◌∷◌ c s) = code c == n

abbrev tail : String → String
tail String.[] = ""
tail (String.◌∷◌ c s) = s

-- The magnitude under a sign: out of range, the nearest int64 and an error.
abbrev with_sign : Bool → ℕ → Int64 × Bool
with_sign true n = if leb n (2 ^ 63) then ((2 ^ 64 - n) % 2 ^ 64, true) else (2 ^ 63, false)
with_sign false n = if ltb n (2 ^ 63) then (n, true) else (2 ^ 63 - 1, false)

-- `strconv.ParseInt(s, 10, 64)`: the number, and whether there was no error.
unfoldable pub parse_int : String → Int64 × Bool
unfolding parse_digits
parse_int s =
    let negative = starts b'-' s in
    let digits = if negative || starts b'+' s then tail s else s in
    if is_empty digits
    then (0, false)
    else elim (parse_digits 0 digits) [ none ↦ (0, false) | some n ↦ with_sign negative n ]

parse_int_runs :
    (parse_int "-12" ≡ (2 ^ 64 - 12, true))
    × (parse_int "+7" ≡ (7, true))
    × (parse_int "" ≡ (0, false))
    × (parse_int "9223372036854775808" ≡ (2 ^ 63 - 1, false))
unfolding parse_int
parse_int_runs = (refl, refl, refl, refl)

-- `storeCounterValue`
unfoldable pub counter_value : Option Value → Int64
unfolding parse_int
counter_value none = 0
counter_value (some (int64 n)) = n
counter_value (some (int n)) = n
counter_value (some (text s)) = (parse_int s).0

unfoldable pub store_counter_value : ℕ → String → Action Int64
unfolding store_call counter_value Store.get
store_counter_value now key =
    store_call 0 (λ s. let (v, s') = Store.get now key s in (counter_value v, s'))

-- The bytes of a character in UTF-8, and `len` of a text.
unfoldable pub byte_width : ℕ → ℕ
byte_width n = if ltb n 0x80 then 1 else if ltb n 0x800 then 2 else if ltb n 0x10000 then 3 else 4

unfoldable pub byte_len : String → ℕ
unfolding byte_width
byte_len String.[] = 0
byte_len (String.◌∷◌ c s) = byte_width (code c) + byte_len s

-- internal/hash/hash.go: `MaxPasswordBytes`, `CheckPassword`, `HashPassword`, `GenerateOpaqueToken`.
abbrev pub max_password_bytes : ℕ
max_password_bytes = 72

unfoldable pub check_password : Env → String → String → Bool
unfolding byte_len
check_password env hash plain =
    if ltb max_password_bytes (byte_len plain) then false else env.bcrypt_matches hash plain

unfoldable pub hash_password : Env → String → Action String
unfolding byte_len draw
hash_password env plain = do
  raise_if (ltb max_password_bytes (byte_len plain)) hashing
  salt ← draw
  elim (env.bcrypt_generate salt plain) [ none ↦ raise hashing | some h ↦ pure h ]

unfoldable pub generate_opaque_token : Env → Action String
unfolding draw
generate_opaque_token env = do
  n ← draw
  elim (env.random_hex n) [ none ↦ raise hashing | some t ↦ pure t ]
