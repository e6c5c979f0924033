-- ===== src/Audit/Encoding.antt =====
-- The bytes that internal/modules/audit/chain.go hashes: numbers in decimal, and fields that say
-- their length first.
use collectr.Prelude.{
  Bytes, decimal, split_digits, ◌≡◌, refl, sym, ◌∙◌, [], ◌∷◌, ◌++◌, length, arith, inr,
}
use mathlib.Core.List.{append_assoc}

-- writeField: the length, a colon, the bytes.
unfoldable pub write_field : Bytes → Bytes
unfolding decimal
write_field b = decimal (length b) ++ 58 ∷ b

pub split_length :
    (xs ys r s : Bytes) → length xs ≡ length ys → xs ++ r ≡ ys ++ s → (xs ≡ ys) × (r ≡ s)
split_length [] [] r s l q = (refl, q)
split_length [] (y ∷ ys) r s l q = absurd (omega arith)
split_length (x ∷ xs) [] r s l q = absurd (omega arith)
split_length (x ∷ xs) (y ∷ ys) r s l q =
    let (e, f) = split_length xs ys r s (omega arith) cc in (cc, f)

-- A field can be read back from what is written: two different fields never run together.
pub write_field_injective :
    (b c r s : Bytes) → write_field b ++ r ≡ write_field c ++ s → (b ≡ c) × (r ≡ s)
unfolding write_field
write_field_injective b c r s q =
    let (e, f) = split_digits 58 (length b) (length c) (b ++ r) (c ++ s) (inr (omega arith)) (
      sym (append_assoc (decimal (length b)) (58 ∷ b) r)
      ∙ q
      ∙ append_assoc (decimal (length c)) (58 ∷ c) s) in
    split_length b c r s e f
