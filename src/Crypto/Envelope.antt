-- ===== src/Crypto/Envelope.antt =====
-- internal/platform/crypto/envelope.go. AES-256-GCM is a parameter, and so are the random nonces and
-- keys: the next bytes that crypto/rand gives, which is assumed not to fail.
use collectr.Prelude.{
  Bytes, ℕ, not, Option, none, some, [], ◌∷◌, ◌++◌, eqb, ltb, if◌then◌else◌, length, take, drop,
  Result, ok, err,
}

-- cipher.AEAD at a key: key, nonce, text, additional data.
pub record Aead : Type 0 where
  pub aead_seal : Bytes → Bytes → Bytes → Bytes → Bytes
  pub aead_open : Bytes → Bytes → Bytes → Bytes → Option Bytes

pub data CryptoError : Type 0 where
  bad_key_size shredded unwrap_failed too_short decrypting : CryptoError

abbrev pub key_size : ℕ
key_size = 32

abbrev pub nonce_size : ℕ
nonce_size = 12

unfoldable pub blob_of : Option Bytes → Result CryptoError Bytes
blob_of none = err decrypting
blob_of (some p) = ok p

unfoldable pub or_unwrap_failed : Result CryptoError Bytes → Result CryptoError Bytes
or_unwrap_failed (ok p) = ok p
or_unwrap_failed (err e) = err unwrap_failed

module _ (a : Aead) where
  open a use {aead_seal, aead_open}

  -- Envelope.seal: the nonce, then the sealed text.
  unfoldable pub seal : Bytes → Bytes → Bytes → Bytes → Bytes
  seal key nonce plaintext aad = nonce ++ aead_seal key nonce plaintext aad

  -- Envelope.open
  unfoldable pub open_blob : Bytes → Bytes → Bytes → Result CryptoError Bytes
  unfolding blob_of
  open_blob key blob aad =
      if ltb (length blob) nonce_size
      then err too_short
      else blob_of (aead_open key (take nonce_size blob) (drop nonce_size blob) aad)

  unfoldable pub wrap : Bytes → Bytes → Bytes → Result CryptoError Bytes
  unfolding seal
  wrap kek nonce dek =
      if not (eqb (length dek) key_size) then err bad_key_size else ok (seal kek nonce dek [])

  unfoldable pub unwrap : Bytes → Bytes → Result CryptoError Bytes
  unfolding open_blob or_unwrap_failed
  unwrap kek [] = err shredded
  unwrap kek (x ∷ blob) = or_unwrap_failed (open_blob kek (x ∷ blob) [])

  unfoldable pub seal_bytes : Bytes → Bytes → Bytes → Bytes
  unfolding seal
  seal_bytes kek nonce plaintext = seal kek nonce plaintext []

  unfoldable pub open_bytes : Bytes → Bytes → Result CryptoError Bytes
  unfolding open_blob or_unwrap_failed
  open_bytes kek [] = err shredded
  open_bytes kek (x ∷ blob) = or_unwrap_failed (open_blob kek (x ∷ blob) [])

  unfoldable pub seal_with : Bytes → Bytes → Bytes → Bytes → Result CryptoError Bytes
  unfolding seal
  seal_with dek nonce plaintext aad =
      if not (eqb (length dek) key_size)
      then err bad_key_size
      else ok (seal dek nonce plaintext aad)

  unfoldable pub open_with : Bytes → Bytes → Bytes → Result CryptoError Bytes
  unfolding open_blob
  open_with dek blob aad =
      if not (eqb (length dek) key_size) then err bad_key_size else open_blob dek blob aad
