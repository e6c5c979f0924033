-- ===== src/Crypto/Totp.antt =====
-- internal/platform/totp/totp.go: the codes of a second factor. HMAC-SHA1 of a counter, whose sums
-- have 20 bytes, and base32 are parameters; times are in seconds, and a code is the list of its characters.
use Prim.Native.Char.{Char, code}
use collectr.Prelude.{
  ℕ, ◌+◌, ◌-◌, ◌*◌, ◌/◌, ◌%◌, ◌^◌, ◌≤◌, ◌≡◌, refl, sym, ap, ◌∙◌, String, Bool, true, ◌||◌, ◌&&◌,
  Option, none, some, List, [], ◌∷◌, eqb, if◌then◌else◌, length, trim_space, chars, text_of, Result,
  ok, err, ok_injective, Bytes, eq_bytes, eq_bytes_refl, arith, eqb_iff, ltb, Bool-cases, inl, inr,
}

pub data TotpError : Type 0 where
  bad_secret invalid_code : TotpError

abbrev pub period : ℕ
period = 30

abbrev pub digits : ℕ
digits = 6

-- The 20 bytes of a sum of HMAC-SHA1, by position: 0 to 19 stand for the sum, and no other is read.
abbrev pub Sum : Type 0
Sum = ℕ → ℕ

-- sum[len(sum)-1] & 0x0f, which is at most 15.
unfoldable pub offset_of : Sum → ℕ
offset_of sum = sum 19 % 16

-- binary.BigEndian.Uint32(sum[offset:offset+4]) & 0x7fffffff
unfoldable pub masked : Sum → ℕ → ℕ
masked sum o = (((sum o * 256 + sum (o + 1)) * 256 + sum (o + 2)) * 256 + sum (o + 3)) % 2 ^ 31

-- fmt.Sprintf("%06d", …), as the codes of its characters.
unfoldable pub six_digits : ℕ → Bytes
six_digits n =
    (48 + n / 100000 % 10)
    ∷ (48 + n / 10000 % 10)
    ∷ (48 + n / 1000 % 10)
    ∷ (48 + n / 100 % 10)
    ∷ (48 + n / 10 % 10)
    ∷ (48 + n % 10)
    ∷ []

unfoldable pub char_codes : List Char → Bytes
char_codes [] = []
char_codes (c ∷ cs) = code c ∷ char_codes cs

-- strings.ReplaceAll(s, " ", "")
unfoldable pub without_spaces : List Char → List Char
without_spaces [] = []
without_spaces (c ∷ cs) = let rest = without_spaces cs in if eqb (code c) 32 then rest else c ∷ rest

-- An empty key is refused.
unfoldable pub some_key : Option Bytes → Option Bytes
some_key (some (x ∷ key)) = some (x ∷ key)
some_key _ = none

unfoldable pub decode_secret : (String → String) → (String → Option Bytes) → String → Option Bytes
unfolding some_key without_spaces trim_space
decode_secret upper base32 secret =
    some_key (base32 (upper (text_of (without_spaces (chars (trim_space secret))))))

module _ (mac : Bytes → ℕ → Sum) where
  -- The lower-case `code` of totp.go.
  unfoldable pub code_at : Bytes → ℕ → Bytes
  unfolding offset_of masked six_digits
  code_at key counter =
      let sum = mac key counter in six_digits (masked sum (offset_of sum) % 1000000)

  -- The loop over the offsets -1, 0 and 1, in 64 bits; the length is tested before.
  unfoldable pub in_window : Bytes → ℕ → Bytes → Bool
  unfolding code_at eq_bytes
  in_window key counter input =
      eq_bytes (code_at key ((counter + 2 ^ 64 - 1) % 2 ^ 64)) input
      || eq_bytes (code_at key counter) input
      || eq_bytes (code_at key ((counter + 1) % 2 ^ 64)) input

  unfoldable pub code_with : Option Bytes → ℕ → Result TotpError Bytes
  unfolding code_at
  code_with none t = err bad_secret
  code_with (some key) t = ok (code_at key (t / period))

  unfoldable pub verify_with : Option Bytes → Bytes → ℕ → Result TotpError (Unit {0})
  unfolding in_window
  verify_with none input now = err bad_secret
  verify_with (some key) input now =
      if eqb (length input) digits && in_window key (now / period) input
      then ok tt
      else err invalid_code

  module _ (upper : String → String) (base32 : String → Option Bytes) where
    -- Code
    unfoldable pub code_of : String → ℕ → Result TotpError Bytes
    unfolding code_with decode_secret
    code_of secret t = code_with (decode_secret upper base32 secret) t

    -- The length is in bytes, which are the characters where all of them are ASCII; no other text
    -- is equal to a code.
    unfoldable pub verify_code : String → String → ℕ → Result TotpError (Unit {0})
    unfolding verify_with decode_secret char_codes without_spaces trim_space
    verify_code secret input now =
        verify_with (decode_secret upper base32 secret)
          (char_codes (chars (trim_space (text_of (without_spaces (chars input)))))) now

length-code_at :
    (mac : Bytes → ℕ → Sum) (key : Bytes) (counter : ℕ) → length (code_at mac key counter) ≡ digits
unfolding code_at
length-code_at mac key counter = refl

module _ (mac : Bytes → ℕ → Sum) where
  same_window :
      (key : Bytes) (step counter : ℕ)
      → step ≤ counter + 1
      → counter ≤ step + 1
      → counter + 1 ≤ 2 ^ 63
      → in_window mac key counter (code_at mac key step) ≡ true
  unfolding in_window
  same_window key step counter lo hi bound = elim (Bool-cases (eqb step counter)) [
    | inl now ↦
        let same : step ≡ counter = (eqb_iff step counter).0 now in
        let e : eq_bytes (code_at mac key counter) (code_at mac key step) ≡ true =
          ap (λ x. eq_bytes (code_at mac key counter) (code_at mac key x)) same
          ∙ eq_bytes_refl (code_at mac key counter) in
        ground (arith, e)
    | inr other ↦ elim (Bool-cases (ltb step counter)) [
      | inl early ↦
          let same : (counter + 2 ^ 64 - 1) % 2 ^ 64 ≡ step =
            ground (arith, early, lo, hi, bound) in
          let e : eq_bytes (code_at mac key ((counter + 2 ^ 64 - 1) % 2 ^ 64))
                (code_at mac key step)
              ≡ true =
            ap (λ x. eq_bytes (code_at mac key x) (code_at mac key step)) same
            ∙ eq_bytes_refl (code_at mac key step) in
          ground (arith, e)
      | inr late ↦
          let same : (counter + 1) % 2 ^ 64 ≡ step = ground (arith, late, other, lo, hi, bound) in
          let e : eq_bytes (code_at mac key ((counter + 1) % 2 ^ 64)) (code_at mac key step)
              ≡ true =
            ap (λ x. eq_bytes (code_at mac key x) (code_at mac key step)) same
            ∙ eq_bytes_refl (code_at mac key step) in
          ground (arith, e)
    ]
  ]

  -- A code is accepted during its own period and during the ones before and after.
  pub verify_with-code_with :
      (secret : Option Bytes) (t now : ℕ) (c : Bytes)
      → code_with mac secret t ≡ ok c
      → t / period ≤ now / period + 1
      → now / period ≤ t / period + 1
      → now / period + 1 ≤ 2 ^ 63
      → verify_with mac secret c now ≡ ok tt
  unfolding code_with verify_with
  verify_with-code_with none t now c made lo hi bound = cc
  verify_with-code_with (some key) t now c made lo hi bound =
      let w = same_window key (t / period) (now / period) lo hi bound in
      let e : code_at mac key (t / period) ≡ c = ok_injective made in
      rw (sym e) (
        ap
          (λ l.
            if eqb l digits && in_window mac key (now / period) (code_at mac key (t / period))
            then ok tt
            else err invalid_code)
          (length-code_at mac key (t / period))
        ∙ ap (λ b. if b then ok tt else err invalid_code) w)
