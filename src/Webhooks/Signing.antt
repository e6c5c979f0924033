-- ===== src/Webhooks/Signing.antt =====
-- Signature and VerifySignature of internal/modules/webhooks/app/deliver.go. Times are nanoseconds
-- from the epoch, the timestamp is in seconds; `mac` is HMAC-SHA256 with its hexadecimal text.
use collectr.Prelude.{
  ℕ, ◌-◌, ◌*◌, ◌^◌, not, ◌≡◌, refl, sym, ◌∙◌, Bool, true, false, ◌&&◌, [], ◌∷◌, ◌++◌, eqb, leb, ltb,
  if◌then◌else◌, decimal, split_digits, arith, inl,
}
use collectr.Webhooks.Retry.{Bytes, second}

-- The text `sha256=`.
abbrev pub scheme : Bytes
scheme = 115 ∷ 104 ∷ 97 ∷ 50 ∷ 53 ∷ 54 ∷ 61 ∷ []

-- What is written to the MAC: the timestamp, a dot, the payload.
unfoldable pub signed_bytes : ℕ → Bytes → Bytes
unfolding decimal
signed_bytes timestamp payload = decimal timestamp ++ 46 ∷ payload

-- hmac.Equal
unfoldable pub same_text : Bytes → Bytes → Bool
same_text [] [] = true
same_text [] (y ∷ ys) = false
same_text (x ∷ xs) [] = false
same_text (x ∷ xs) (y ∷ ys) = eqb x y && same_text xs ys

-- The greatest time.Duration.
abbrev max_duration : ℕ
max_duration = 2 ^ 63 - 1

-- Whether the timestamp is too far from now. Sub stops at the greatest and at the least Duration, and
-- the least one, of a timestamp that is further ahead than the greatest, is its own negation.
unfoldable pub drifts : ℕ → ℕ → ℕ → Bool
drifts now timestamp tolerance =
    let t = timestamp * second in
    if leb t now
    then ltb tolerance (if leb (now - t) max_duration then now - t else max_duration)
    else leb (t - now) max_duration && ltb tolerance (t - now)

module _ (mac : Bytes → Bytes → Bytes) where
  unfoldable pub signature : Bytes → ℕ → Bytes → Bytes
  unfolding signed_bytes
  signature secret timestamp payload = scheme ++ mac secret (signed_bytes timestamp payload)

  unfoldable pub verify_signature : Bytes → Bytes → ℕ → Bytes → ℕ → ℕ → Bool
  unfolding drifts same_text signature
  verify_signature secret header timestamp payload now tolerance =
      if drifts now timestamp tolerance
      then false
      else same_text header (signature secret timestamp payload)

same_text_refl : (b : Bytes) → same_text b b ≡ true
unfolding same_text
same_text_refl [] = refl
same_text_refl (x ∷ b) = ground (arith, same_text_refl b)

same_text-eq : (a b : Bytes) → same_text a b ≡ true → a ≡ b
unfolding same_text
same_text-eq [] [] h = refl
same_text-eq [] (y ∷ b) h = cc
same_text-eq (x ∷ a) [] h = cc
same_text-eq (x ∷ a) (y ∷ b) h = ground (arith, same_text-eq a b)

after_scheme : (p a b : Bytes) → p ++ a ≡ p ++ b → a ≡ b
after_scheme [] a b q = q
after_scheme (x ∷ p) a b q = after_scheme p a b cc

signed_apart :
    (t t' : ℕ) (payload payload' : Bytes)
    → signed_bytes t payload ≡ signed_bytes t' payload'
    → (t ≡ t') × (payload ≡ payload')
unfolding signed_bytes
signed_apart t t' payload payload' q = split_digits 46 t t' payload payload' (inl (omega arith)) q

module _ (mac : Bytes → Bytes → Bytes) where
  -- A receiver accepts what Send signed exactly as long as the timestamp does not drift too far.
  verify_signature-signature :
      (secret : Bytes) (timestamp : ℕ) (payload : Bytes) (now tolerance : ℕ)
      → verify_signature mac secret
          (signature mac secret timestamp payload)
          timestamp
          payload
          now
          tolerance
        ≡ not (drifts now timestamp tolerance)
  unfolding verify_signature
  verify_signature-signature secret timestamp payload now tolerance =
      ground (arith, same_text_refl (signature mac secret timestamp payload))

  -- A header that a receiver accepts with two timestamps and payloads has accepted the same ones, if
  -- the MAC of the two does not collide: a captured header cannot be sent with another timestamp.
  pub verify_signature_binds :
      (secret header : Bytes) (t t' : ℕ) (payload payload' : Bytes) (now now' tolerance : ℕ)
      → (mac secret (signed_bytes t payload) ≡ mac secret (signed_bytes t' payload')
          → signed_bytes t payload ≡ signed_bytes t' payload')
      → verify_signature mac secret header t payload now tolerance ≡ true
      → verify_signature mac secret header t' payload' now' tolerance ≡ true
      → (t ≡ t') × (payload ≡ payload')
  unfolding verify_signature signature
  verify_signature_binds secret header t t' payload payload' now now' tolerance apart v v' =
      let s = signature mac secret t payload in
      let s' = signature mac secret t' payload' in
      let a : same_text header s ≡ true = ground (arith, v) in
      let b : same_text header s' ≡ true = ground (arith, v') in
      let same : s ≡ s' = sym (same_text-eq header s a) ∙ same_text-eq header s' b in
      let macs =
        after_scheme scheme (mac secret (signed_bytes t payload))
          (mac secret (signed_bytes t' payload')) same in
      signed_apart t t' payload payload' (apart macs)
