-- ===== src/Crypto/Roundtrip.antt =====
-- What was sealed by internal/platform/crypto/envelope.go opens again.
use collectr.Prelude.{
  Bytes, ◌≡◌, ap, some, [], ◌∷◌, ◌++◌, length, length-append, take, drop, take-append, drop-append,
  ok, arith,
}
use collectr.Crypto.Envelope.{
  Aead, nonce_size, blob_of, or_unwrap_failed, seal, open_blob, wrap, unwrap, seal_with, open_with,
}

-- What AES-GCM documents: what was sealed opens under the same key, nonce and additional data.
abbrev pub Opens : Aead → Type 0
Opens a =
    (key nonce text aad : Bytes)
    → a.aead_open key nonce (a.aead_seal key nonce text aad) aad ≡ some text

module _ (a : Aead) (opens : Opens a) where
  pub open-seal :
      (key nonce text aad : Bytes)
      → length nonce ≡ nonce_size
      → open_blob a key (seal a key nonce text aad) aad ≡ ok text
  unfolding open_blob seal blob_of
  open-seal key nonce text aad n =
      let body = a.aead_seal key nonce text aad in
      let t : take nonce_size (nonce ++ body) ≡ nonce = take-append nonce_size nonce body n in
      let d : drop nonce_size (nonce ++ body) ≡ body = drop-append nonce_size nonce body n in
      rw (t, d, opens key nonce text aad) (ground (arith, n, length-append nonce body))

  unwrap-seal :
      (kek nonce dek : Bytes)
      → length nonce ≡ nonce_size
      → unwrap a kek (seal a kek nonce dek []) ≡ ok dek
  unfolding unwrap seal or_unwrap_failed
  unwrap-seal kek [] dek n = absurd (omega (arith, n))
  unwrap-seal kek (x ∷ nonce) dek n = ap or_unwrap_failed (open-seal kek (x ∷ nonce) dek [] n)

  pub unwrap-wrap :
      (kek nonce dek wrapped : Bytes)
      → length nonce ≡ nonce_size
      → wrap a kek nonce dek ≡ ok wrapped
      → unwrap a kek wrapped ≡ ok dek
  unfolding wrap
  unwrap-wrap kek nonce dek wrapped n q = ground (arith, q, unwrap-seal kek nonce dek n)

  pub open_with-seal_with :
      (dek nonce text aad blob : Bytes)
      → length nonce ≡ nonce_size
      → seal_with a dek nonce text aad ≡ ok blob
      → open_with a dek blob aad ≡ ok text
  unfolding seal_with open_with
  open_with-seal_with dek nonce text aad blob n q =
      ground (arith, q, open-seal dek nonce text aad n)
