-- ===== src/Files/Examples.antt =====
-- Uploads, and the theorems on them at these.
use collectr.Prelude.{◌*◌, ◌≤◌, ◌<◌, ◌≡◌, ◌↔◌, refl, pos, true, false, [], ◌∷◌, ok, err, arith}
use collectr.Files.Content.{
  Bytes, pdf, too_large, type_mismatch, accepts, check_size, detect, content_type,
}
use collectr.Files.Detection.{check_size_iff}

abbrev pdf_head : Bytes
pdf_head = 37 ∷ 80 ∷ 68 ∷ 70 ∷ 45 ∷ 49 ∷ 46 ∷ 55 ∷ 10 ∷ 37 ∷ 226 ∷ 227 ∷ []

abbrev script : Bytes
script = 60 ∷ 115 ∷ 99 ∷ 114 ∷ 105 ∷ 112 ∷ 116 ∷ []

pdf_detected : detect pdf_head ≡ ok pdf
unfolding detect
pdf_detected = refl

script_refused : detect script ≡ err type_mismatch
unfolding detect
script_refused = refl

pdf_accepted : accepts (" Application/PDF " ∷ []) (content_type pdf) ≡ true
unfolding accepts content_type
pdf_accepted = refl

png_not_asked : accepts ("image/png" ∷ []) (content_type pdf) ≡ false
unfolding accepts content_type
png_not_asked = refl

six_megabytes : check_size (pos 6000000) (pos 5) ≡ err too_large
unfolding check_size
six_megabytes = refl

check_size_iff_example :
    (check_size (pos 5000000) (pos 5) ≡ ok tt)
    ↔ ((1 ≤ 5000000) × (5000000 ≤ 26214400) × (0 < 5 → 5000000 ≤ 5 * 1048576))
check_size_iff_example = check_size_iff 5000000 5 (omega arith)
