-- ===== src/Files/Detection.antt =====
-- What Detect and CheckSize of internal/modules/files/domain/file.go rest on.
use collectr.Prelude.{
  ℕ, zero, suc, ◌+◌, ◌*◌, ◌^◌, ◌≤◌, ◌<◌, ◌≡◌, ◌↔◌, refl, pos, true, List, [], ◌∷◌, ◌++◌, leb,
  length, length-append, ok, arith,
}
use collectr.Files.Content.{
  pdf_mark, png_mark, jpeg_mark, riff_mark, webp_mark, ftyp_mark, heic_mark, heix_mark, mif1_mark,
  Bytes, Kind, pdf, png, jpeg, webp, heic, has_prefix, skip, matches, first_match, signatures,
  detect, limit_bytes, check_size,
}

has_prefix-append :
    (h rest p : Bytes) → length p ≤ length h → has_prefix (h ++ rest) p ≡ has_prefix h p
unfolding has_prefix
has_prefix-append h rest [] l = refl
has_prefix-append [] rest (x ∷ p) l = absurd (omega arith)
has_prefix-append (y ∷ h) rest (x ∷ p) l = rw (has_prefix-append h rest p (omega arith)) refl

skip-append : (n : ℕ) (h rest : Bytes) → n ≤ length h → skip n (h ++ rest) ≡ skip n h ++ rest
unfolding skip
skip-append zero h rest l = refl
skip-append (suc n) [] rest l = absurd (omega arith)
skip-append (suc n) (x ∷ h) rest l = skip-append n h rest (omega arith)

length-skip : (n : ℕ) (h : Bytes) → n ≤ length h → length (skip n h) + n ≡ length h
unfolding skip
length-skip zero h l = omega arith
length-skip (suc n) [] l = absurd (omega arith)
length-skip (suc n) (x ∷ h) l = omega (arith, length-skip n h (omega arith))

mark-append :
    (n : ℕ) (h rest p : Bytes)
    → n + length p ≤ length h
    → has_prefix (skip n (h ++ rest)) p ≡ has_prefix (skip n h) p
mark-append n h rest p l =
    rw (skip-append n h rest (omega arith))
      (has_prefix-append (skip n h) rest p (omega (arith, length-skip n h (omega arith))))

long : (h : Bytes) → 12 ≤ length h → leb 12 (length h) ≡ true
long h l = ground arith

still_long : (h rest : Bytes) → 12 ≤ length h → leb 12 (length (h ++ rest)) ≡ true
still_long h rest l = ground (arith, length-append h rest)

matches-append : (k : Kind) (h rest : Bytes) → 12 ≤ length h → matches k (h ++ rest) ≡ matches k h
unfolding matches
matches-append pdf h rest l = has_prefix-append h rest pdf_mark (omega arith)
matches-append png h rest l = has_prefix-append h rest png_mark (omega arith)
matches-append jpeg h rest l = has_prefix-append h rest jpeg_mark (omega arith)
matches-append webp h rest l =
    rw
      (
        still_long h rest l,
        long h l,
        has_prefix-append h rest riff_mark (omega arith),
        mark-append 8 h rest webp_mark (omega arith),
      )
      refl
matches-append heic h rest l =
    rw
      (
        still_long h rest l,
        long h l,
        mark-append 4 h rest ftyp_mark (omega arith),
        mark-append 8 h rest heic_mark (omega arith),
        mark-append 8 h rest heix_mark (omega arith),
        mark-append 8 h rest mif1_mark (omega arith),
      )
      refl

first_match-append :
    (ks : List Kind) (h rest : Bytes)
    → 12 ≤ length h
    → first_match ks (h ++ rest) ≡ first_match ks h
unfolding first_match
first_match-append [] h rest l = refl
first_match-append (k ∷ ks) h rest l =
    rw (matches-append k h rest l, first_match-append ks h rest l) refl

-- What Detect answers depends on the first twelve bytes alone, so the 512 bytes that it is given are
-- enough: more of the file never changes the answer.
detect-append : (h rest : Bytes) → 12 ≤ length h → detect (h ++ rest) ≡ detect h
unfolding detect
detect-append [] rest l = absurd (omega arith)
detect-append (x ∷ h) rest l = first_match-append signatures (x ∷ h) rest l

limit_exact : (m : ℕ) → m * 1048576 < 2 ^ 63 → limit_bytes m ≡ pos (m * 1048576)
unfolding limit_bytes
limit_exact m h = ground arith

-- A file is accepted for its size exactly where it is not empty, has at most 25 MB, and at most the
-- megabytes of the question, if it sets a limit that 64 bits hold.
pub check_size_iff :
    (size m : ℕ)
    → m * 1048576 < 2 ^ 63
    → (check_size (pos size) (pos m) ≡ ok tt)
      ↔ ((1 ≤ size) × (size ≤ 26214400) × (0 < m → size ≤ m * 1048576))
unfolding check_size
check_size_iff size m h = (
  (λ q. (ground (arith, q), ground (arith, q), λ n. ground (arith, q, n, limit_exact m h))),
  λ (a, b, c). ground (arith, a, b, c, limit_exact m h),
)
