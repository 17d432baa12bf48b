-- ===== src/Crypto.antt =====
-- internal/crypto/crypto.go: texts sealed under one key. AES-256-GCM, base64 and the random source
-- are parameters; the cipher takes a text for its bytes.
pub mod RoundTrip
pub mod Tests
use Prim.Native.Char.{Char}
use finn_api_go.Prelude.{
  ℕ, ◌+◌, ◌==◌, String, Bool, Option, none, some, List, ◌++◌, ltb, length, take, drop,
  if◌then◌else◌,
}
use finn_api_go.Database.{Action, ◌>>=◌, pure, raise, sealing}

-- A byte is the character of that number.
abbrev pub Byte : Type 0
Byte = Char

abbrev pub key_len : ℕ
key_len = 32

abbrev pub nonce_len : ℕ
nonce_len = 12

-- `cipher.AEAD` by nonce, `base64.StdEncoding`, and `io.ReadFull` of the random source by the number
-- of the draw and the count of bytes.
pub record AeadLib : Type 0 where
  pub seal : List Byte → String → List Byte
  pub open_sealed : List Byte → List Byte → Option String
  pub overhead : ℕ
  pub encode_to_string : List Byte → String
  pub decode_string : String → Option (List Byte)
  pub read_full : ℕ → ℕ → Option (List Byte)

-- `NewEncryptor`: whether a key of this many bytes gives one.
unfoldable pub new_encryptor : {A : Type 0} → (List Byte → A) → List Byte → Option A
new_encryptor make key = if length key == key_len then some (make key) else none

module _ (lib : AeadLib) where
  -- internal/hash: `GenerateRandomBytes`
  unfoldable pub generate_random_bytes : ℕ → Action (List Byte)
  generate_random_bytes n w = elim (lib.read_full w.draws n) [
    | none ↦ (raise sealing (record w { draws = w.draws + 1 }))
    | some bytes ↦ pure bytes (record w { draws = w.draws + 1 })
  ]

  -- `Encrypt`: the nonce goes in front.
  unfoldable pub encrypt : String → Action String
  encrypt plaintext = do
    nonce ← generate_random_bytes nonce_len
    pure (lib.encode_to_string (nonce ++ lib.seal nonce plaintext))

  -- `Decrypt`
  unfoldable pub decrypt : String → Option String
  decrypt encoded = elim (lib.decode_string encoded) [
    | none ↦ none
    | some raw ↦
        if ltb (length raw) (nonce_len + lib.overhead)
        then none
        else lib.open_sealed (take nonce_len raw) (drop nonce_len raw)
  ]
