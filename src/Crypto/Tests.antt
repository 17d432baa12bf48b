-- ===== src/Crypto/Tests.antt =====
-- The round trip over a cipher that adds a tag and nothing else.
use finn_api_go.Prelude.{
  ℕ, zero, suc, ◌≡◌, refl, ap, String, Option, none, some, List, [], ◌∷◌, arith, length,
}
use finn_api_go.Database.{ok}
use finn_api_go.Database.Example.{acme}
use finn_api_go.Crypto.{Byte, AeadLib, encrypt, decrypt}
use finn_api_go.Crypto.RoundTrip.{IsSealing, decrypt-encrypt}

abbrev to_bytes : String → List Byte
to_bytes String.[] = []
to_bytes (String.◌∷◌ c s) = c ∷ to_bytes s

abbrev to_text : List Byte → String
to_text [] = ""
to_text (c ∷ cs) = String.◌∷◌ c (to_text cs)

to_text-to_bytes : (s : String) → to_text (to_bytes s) ≡ s
to_text-to_bytes String.[] = refl
to_text-to_bytes (String.◌∷◌ c s) = ap (λ t. String.◌∷◌ c t) (to_text-to_bytes s)

to_bytes-to_text : (b : List Byte) → to_bytes (to_text b) ≡ b
to_bytes-to_text [] = refl
to_bytes-to_text (c ∷ b) = ap (λ t. c ∷ t) (to_bytes-to_text b)

abbrev zeros : ℕ → List Byte
zeros zero = []
zeros (suc n) = "0" ∷ zeros n

length-zeros : (n : ℕ) → length (zeros n) ≡ n
length-zeros zero = refl
length-zeros (suc n) = omega (arith, length-zeros n)

abbrev opened : List Byte → Option String
opened [] = none
opened (t ∷ c) = some (to_text c)

abbrev pub plain : AeadLib
plain = record {
  seal = λ nonce p. "t" ∷ to_bytes p;
  open_sealed = λ nonce c. opened c;
  overhead = 1;
  encode_to_string = to_text;
  decode_string = λ s. some (to_bytes s);
  read_full = λ i n. some (zeros n);
}

pub plain-IsSealing : IsSealing plain
plain-IsSealing = record {
  opens = λ nonce p. ap some (to_text-to_bytes p);
  tagged = λ nonce p. omega arith;
  decodes = λ raw. ap some (to_bytes-to_text raw);
  full = λ i n raw e. ground (arith, e, length-zeros n);
}

encrypt_runs : (encrypt plain "otp" acme).0 ≡ ok "000000000000totp"
unfolding encrypt finn_api_go.Crypto.generate_random_bytes
encrypt_runs = refl

decrypt-encrypt_example : decrypt plain "000000000000totp" ≡ some "otp"
decrypt-encrypt_example =
    decrypt-encrypt plain plain-IsSealing "otp" "000000000000totp" acme encrypt_runs
