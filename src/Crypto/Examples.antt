-- ===== src/Crypto/Examples.antt =====
-- A cipher to run the envelope on, and codes of a counter.
use collectr.Prelude.{
  ℕ, eqb, if◌then◌else◌, ◌/◌, ◌%◌, ◌≡◌, refl, String, Option, some, [], ◌∷◌, err, ok, Bytes, arith,
}
use collectr.Crypto.Totp.{
  Sum, invalid_code, code_with, verify_with, code_of, verify_code, verify_with-code_with,
}
use collectr.Crypto.Envelope.{Aead, bad_key_size, shredded, wrap, unwrap}

abbrev plain_aead : Aead
plain_aead = record {
  aead_seal = λ key nonce text aad. text;
  aead_open = λ key nonce text aad. some text;
}

destroyed_key : unwrap plain_aead [] [] ≡ err shredded
unfolding unwrap
destroyed_key = refl

short_key : wrap plain_aead [] [] (1 ∷ []) ≡ err bad_key_size
unfolding wrap
short_key = refl

-- The sum whose code is the counter itself.
abbrev counter_sum : Bytes → ℕ → Sum
counter_sum key c = λ i. if eqb i 2 then c / 256 % 256 else if eqb i 3 then c % 256 else 0

abbrev any_secret : String → Option Bytes
any_secret s = some (7 ∷ [])

typed_code : verify_code counter_sum (λ s. s) any_secret "SECRET" " 000 003 " 61 ≡ ok tt
unfolding verify_code
typed_code = refl

old_code : verify_code counter_sum (λ s. s) any_secret "SECRET" "000003" 180 ≡ err invalid_code
unfolding verify_code
old_code = refl

code_in_time :
    code_of counter_sum (λ s. s) any_secret "SECRET" 119 ≡ ok (48 ∷ 48 ∷ 48 ∷ 48 ∷ 48 ∷ 51 ∷ [])
unfolding code_of
code_in_time = refl

verify_with-code_with_example :
    verify_with counter_sum (some (7 ∷ [])) (48 ∷ 48 ∷ 48 ∷ 48 ∷ 48 ∷ 51 ∷ []) 120 ≡ ok tt
unfolding code_with
verify_with-code_with_example =
    verify_with-code_with counter_sum (some (7 ∷ [])) 119 120 (48 ∷ 48 ∷ 48 ∷ 48 ∷ 48 ∷ 51 ∷ [])
      refl (omega arith) (omega arith) (omega arith)
