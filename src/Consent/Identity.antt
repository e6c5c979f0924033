-- ===== src/Consent/Identity.antt =====
-- identifierHash of internal/modules/consent/store/store.go: the text that a subject is known by.
use Prim.Native.Char.{Char, code}
use collectr.Prelude.{
  Bytes, ℕ, String, Bool, ◌&&◌, List, [], ◌∷◌, ◌++◌, ◌==◌, eqb, leb, if◌then◌else◌, trim_space,
  chars,
}

-- Go's strings.ToLower, and HMAC-SHA256 under the pepper of the deployment.
pub record Hashes : Type 0 where
  pub to_lower : String → String
  pub mac : List Char → Bytes
  -- sha256(id::text::bytea) of the database
  pub id_digest : ℕ → Bytes

unfoldable pub is_digit : Char → Bool
is_digit c = leb 48 (code c) && leb (code c) 57

unfoldable pub keep_digits : List Char → List Char
unfolding is_digit
keep_digits [] = []
keep_digits (c ∷ cs) = let rest = keep_digits cs in if is_digit c then c ∷ rest else rest

-- strings.TrimPrefix(v, "84")
unfoldable pub trim_country : List Char → List Char
trim_country [] = []
trim_country (a ∷ []) = a ∷ []
trim_country (a ∷ b ∷ cs) = if eqb (code a) 56 && eqb (code b) 52 then cs else a ∷ b ∷ cs

-- strings.TrimPrefix(v, "0")
unfoldable pub trim_zero : List Char → List Char
trim_zero [] = []
trim_zero (c ∷ cs) = if eqb (code c) 48 then cs else c ∷ cs

unfoldable pub phone_digits : List Char → List Char
unfolding keep_digits trim_country trim_zero
phone_digits v = trim_zero (trim_country (keep_digits v))

unfoldable pub normal_text : Hashes → String → String → List Char
unfolding phone_digits trim_space
normal_text h kind value =
    let v = chars (trim_space (h.to_lower value)) in if kind == "phone" then phone_digits v else v

unfoldable pub identifier_hash : Hashes → String → String → Bytes
unfolding normal_text
identifier_hash h kind value = h.mac (chars kind ++ chars ":" ++ normal_text h kind value)
