-- ===== src/Files/Content.antt =====
-- internal/modules/files/domain/file.go: what a file is, by its first bytes, and whether a question
-- accepts it. Bytes are ℕ; SafeFilename is not modelled.
use collectr.Prelude.{
  ℕ, zero, suc, ◌+◌, ◌-◌, ◌*◌, ◌%◌, ◌^◌, ℤ, pos, negsuc, ltb_ℤ, String, Bool, true, false, ◌&&◌,
  ◌||◌, List, [], ◌∷◌, eqb, ltb, leb, if◌then◌else◌, length, Result, ok, err, trim_space, chars,
}
use Prim.Native.Char.{Char, code}

abbrev pub Bytes : Type 0
Bytes = List ℕ

pub data FileError : Type 0 where
  too_large empty type_not_allowed type_mismatch : FileError

pub data Kind : Type 0 where
  pdf png jpeg webp heic : Kind

unfoldable pub content_type : Kind → String
content_type k = elim k [
  | pdf ↦ "application/pdf"
  | png ↦ "image/png"
  | jpeg ↦ "image/jpeg"
  | webp ↦ "image/webp"
  | heic ↦ "image/heic"
]

unfoldable pub extension : Kind → String
extension k = elim k [
  | pdf ↦ ".pdf"
  | png ↦ ".png"
  | jpeg ↦ ".jpg"
  | webp ↦ ".webp"
  | heic ↦ ".heic"
]

-- bytes.HasPrefix
unfoldable pub has_prefix : Bytes → Bytes → Bool
has_prefix h [] = true
has_prefix [] (p ∷ ps) = false
has_prefix (x ∷ h) (p ∷ ps) = eqb x p && has_prefix h ps

-- h[n:]
unfoldable pub skip : ℕ → Bytes → Bytes
skip zero h = h
skip (suc n) [] = []
skip (suc n) (x ∷ h) = skip n h

abbrev pub pdf_mark : Bytes
pdf_mark = 37 ∷ 80 ∷ 68 ∷ 70 ∷ 45 ∷ []

abbrev pub png_mark : Bytes
png_mark = 137 ∷ 80 ∷ 78 ∷ 71 ∷ 13 ∷ 10 ∷ 26 ∷ 10 ∷ []

abbrev pub jpeg_mark : Bytes
jpeg_mark = 255 ∷ 216 ∷ 255 ∷ []

abbrev pub riff_mark : Bytes
riff_mark = 82 ∷ 73 ∷ 70 ∷ 70 ∷ []

abbrev pub webp_mark : Bytes
webp_mark = 87 ∷ 69 ∷ 66 ∷ 80 ∷ []

abbrev pub ftyp_mark : Bytes
ftyp_mark = 102 ∷ 116 ∷ 121 ∷ 112 ∷ []

abbrev pub heic_mark : Bytes
heic_mark = 104 ∷ 101 ∷ 105 ∷ 99 ∷ []

abbrev pub heix_mark : Bytes
heix_mark = 104 ∷ 101 ∷ 105 ∷ 120 ∷ []

abbrev pub mif1_mark : Bytes
mif1_mark = 109 ∷ 105 ∷ 102 ∷ 49 ∷ []

-- The `match` of the signatures. Where twelve bytes are there, h[4:8] is four bytes equal to a mark
-- exactly where the rest after four has the mark as its prefix.
unfoldable pub matches : Kind → Bytes → Bool
unfolding has_prefix skip
matches k h = elim k [
  | pdf ↦ has_prefix h pdf_mark
  | png ↦ has_prefix h png_mark
  | jpeg ↦ has_prefix h jpeg_mark
  | webp ↦ leb 12 (length h) && has_prefix h riff_mark && has_prefix (skip 8 h) webp_mark
  | heic ↦
      leb 12 (length h)
      && has_prefix (skip 4 h) ftyp_mark
      && (has_prefix (skip 8 h) heic_mark
          || has_prefix (skip 8 h) heix_mark
          || has_prefix (skip 8 h) mif1_mark)
]

-- The loop over `signatures`.
unfoldable pub first_match : List Kind → Bytes → Result FileError Kind
unfolding matches
first_match [] h = err type_mismatch
first_match (k ∷ ks) h = let rest = first_match ks h in if matches k h then ok k else rest

abbrev pub signatures : List Kind
signatures = pdf ∷ png ∷ jpeg ∷ webp ∷ heic ∷ []

unfoldable pub detect : Bytes → Result FileError Kind
unfolding first_match
detect [] = err empty
detect (x ∷ h) = first_match signatures (x ∷ h)

-- Case folding as far as it can meet an ASCII letter: the Kelvin sign and the long s fold to k and s.
unfoldable pub fold : ℕ → ℕ
fold c =
    if leb 65 c && leb c 90
    then c + 32
    else if eqb c 0x212a
    then 107
    else if eqb c 0x17f
    then 115
    else c

abbrev pub equal_fold_chars : List Char → List Char → Bool
equal_fold_chars [] [] = true
equal_fold_chars [] (d ∷ ds) = false
equal_fold_chars (c ∷ cs) [] = false
equal_fold_chars (c ∷ cs) (d ∷ ds) = eqb (fold (code c)) (fold (code d)) && equal_fold_chars cs ds

-- strings.EqualFold, whose second text is ASCII here.
unfoldable pub equal_fold : String → String → Bool
unfolding fold
equal_fold s t = equal_fold_chars (chars s) (chars t)

unfoldable pub any_accepts : List String → String → Bool
unfolding equal_fold trim_space
any_accepts [] ct = false
any_accepts (a ∷ rest) ct = equal_fold (trim_space a) ct || any_accepts rest ct

unfoldable pub accepts : List String → String → Bool
unfolding any_accepts
accepts [] ct = true
accepts (a ∷ rest) ct = any_accepts (a ∷ rest) ct

abbrev pub max_upload_bytes : ℕ
max_upload_bytes = 26214400

-- int64(maxMB) << 20 keeps 64 bits; the top one makes it negative.
unfoldable pub limit_bytes : ℕ → ℤ
limit_bytes max_mb =
    let w = max_mb * 1048576 % 2 ^ 64 in if ltb w (2 ^ 63) then pos w else negsuc (2 ^ 64 - w - 1)

unfoldable pub check_size : ℤ → ℤ → Result FileError (Unit {0})
unfolding limit_bytes
check_size (negsuc n) max_mb = err empty
check_size (pos size) max_mb =
    if eqb size 0
    then err empty
    else if ltb max_upload_bytes size
    then err too_large
    else elim max_mb [
      | negsuc n ↦ ok tt
      | pos m ↦ if ltb 0 m && ltb_ℤ (limit_bytes m) (pos size) then err too_large else ok tt
    ]
