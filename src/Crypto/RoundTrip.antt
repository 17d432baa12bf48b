-- ===== src/Crypto/RoundTrip.antt =====
-- What internal/crypto seals it opens again.
use finn_api_go.Prelude.{
  ℕ, ◌+◌, ◌≡◌, ◌≤◌, ap, sym, ◌∙◌, Option-cases, inl, inr, String, some, List, ◌++◌, length,
  length-append, take, drop, take-append, drop-append, arith,
}
use finn_api_go.Database.{World, ok}
use finn_api_go.Crypto.{Byte, AeadLib, nonce_len, generate_random_bytes, encrypt, decrypt}

-- What the code relies on: the cipher opens what it sealed under the same nonce and adds its tag,
-- base64 decodes what it encoded, and a full read has as many bytes as were asked for.
pub record IsSealing (lib : AeadLib) : Type 0 where
  pub opens : (nonce : List Byte) (p : String) → lib.open_sealed nonce (lib.seal nonce p) ≡ some p
  pub tagged : (nonce : List Byte) (p : String) → lib.overhead ≤ length (lib.seal nonce p)
  pub decodes : (raw : List Byte) → lib.decode_string (lib.encode_to_string raw) ≡ some raw
  pub full : (i n : ℕ) (raw : List Byte) → lib.read_full i n ≡ some raw → length raw ≡ n

module _ (lib : AeadLib) (laws : IsSealing lib) where
  sealed-opens :
      (nonce : List Byte) (p : String)
      → length nonce ≡ nonce_len
      → decrypt lib (lib.encode_to_string (nonce ++ lib.seal nonce p)) ≡ some p
  unfolding decrypt
  sealed-opens nonce p n =
      let c = lib.seal nonce p in
      let raw = nonce ++ c in
      let front : take nonce_len raw ≡ nonce = ap (λ k. take k raw) (sym n) ∙ take-append nonce c in
      let back : drop nonce_len raw ≡ c = ap (λ k. drop k raw) (sym n) ∙ drop-append nonce c in
      let long : nonce_len + lib.overhead ≤ length raw =
        omega (arith, laws.tagged nonce p, length-append nonce c, n) in
      ground (arith, laws.decodes raw, laws.opens nonce p, front, back, long)

  -- Whatever text `Encrypt` has sealed, `Decrypt` gives back.
  pub decrypt-encrypt :
      (p sealed : String) (w : World)
      → (encrypt lib p w).0 ≡ ok sealed
      → decrypt lib sealed ≡ some p
  unfolding encrypt generate_random_bytes
  decrypt-encrypt p sealed w h = elim (Option-cases (lib.read_full w.draws nonce_len)) [
    | inl n ↦ ground (arith, n)
    | inr (nonce, e) ↦
        let opened = sealed-opens nonce p (laws.full w.draws nonce_len nonce e) in
        let same : sealed ≡ lib.encode_to_string (nonce ++ lib.seal nonce p) = ground (arith, e) in
        ap (decrypt lib) same ∙ opened
  ]
