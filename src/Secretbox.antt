-- ===== src/Secretbox.antt =====
-- backend/pkg/secretbox/secretbox.go. AES-GCM and base64 are parameters.
use ocis_workflows.Base.{
  ℕ, Text, text, ◌==◌, ltb, take, drop, take-append, drop-append, length, length-append, ◌++◌, ◌≡◌,
  ◌∙◌, refl, arith, Result, ok, err, if◌then◌else◌,
}
use ocis_workflows.Base.Results.{◌>>=◌}

-- What the package uses of cipher.AEAD and of base64.StdEncoding.
pub record Cipher : Type 0 where
  pub nonce_size : ℕ
  pub encrypt : Text → Text → Text  -- nonce, plaintext
  pub decrypt : Text → Text → Result Text  -- nonce, ciphertext
  pub encode : Text → Text
  pub decode : Text → Result Text

-- Their documented round trips.
pub record IsCipher (c : Cipher) : Type 0 where
  pub decrypt-encrypt : (nonce plain : Text) → c.decrypt nonce (c.encrypt nonce plain) ≡ ok plain
  pub decode-encode : (bytes : Text) → c.decode (c.encode bytes) ≡ ok bytes

-- `New` with the constructors of the cipher for a key of 32 bytes; `decimal` is `%d`.
unfoldable pub new : (Text → Result Cipher) → (ℕ → Text) → Text → Result Cipher
new cipher decimal key =
    if length key == 32
    then cipher key
    else err (text "secretbox key must be 32 bytes, got " ++ decimal (length key))

-- `random` is what reading the nonce from rand.Reader gave.
unfoldable pub seal : Cipher → Result Text → Text → Result Text
seal c random plaintext = do nonce ← random; ok (c.encode (nonce ++ c.encrypt nonce plaintext))

split_open : Cipher → Text → Result Text
unfolding take
split_open c bytes =
    if ltb (length bytes) c.nonce_size
    then err (text "ciphertext too short")
    else c.decrypt (take c.nonce_size bytes) (drop c.nonce_size bytes)

unfoldable pub open_sealed : Cipher → Text → Result Text
unfolding split_open
open_sealed c encoded = do bytes ← c.decode encoded; split_open c bytes

split_open-append :
    (c : Cipher) (nonce rest : Text)
    → length nonce ≡ c.nonce_size
    → split_open c (nonce ++ rest) ≡ c.decrypt nonce rest
unfolding split_open
split_open-append c nonce rest h =
    rw (← h, take-append nonce rest, drop-append nonce rest)
      (ground (arith, length-append nonce rest))

-- With a cipher and an encoding that keep their round trips, what `Seal` returns for a nonce of the
-- cipher's size opens to the plaintext.
pub open_sealed-seal :
    (c : Cipher)
    → IsCipher c
    → (nonce plaintext : Text) → length nonce ≡ c.nonce_size
    → (sealed : Text) × (seal c (ok nonce) plaintext ≡ ok sealed)
      × (open_sealed c sealed ≡ ok plaintext)
unfolding seal open_sealed
open_sealed-seal c laws nonce plaintext h = (
  c.encode (nonce ++ c.encrypt nonce plaintext),
  refl,
  rw (laws.decode-encode _) (split_open-append c nonce _ h ∙ laws.decrypt-encrypt nonce plaintext),
)
