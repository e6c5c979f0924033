-- ===== src/Forms/Validate/Issues.antt =====
-- Issue, its codes and severities, and hasErrors of validate.go.
use collectr.Prelude.{
  ◌≡◌, refl, String, Bool, true, false, ◌||◌, List, [], ◌∷◌, ◌++◌, arith, if◌then◌else◌,
}

pub data Code : Type 0 where
  dangling_reference navigation_cycle unreachable_page required_but_unreachable : Code
  consent_block_missing sensitive_notice_missing limit_exceeded empty_schema duplicate_id : Code
  orphan_field invalid_field_config : Code

pub data Severity : Type 0 where
  error warning : Severity

pub record Issue : Type 0 where
  pub code : Code
  pub severity : Severity
  pub target : String

abbrev pub is_error : Severity → Bool
is_error error = true
is_error warning = false

unfoldable pub has_errors : List Issue → Bool
has_errors [] = false
has_errors (i ∷ rest) = is_error i.severity || has_errors rest

-- `if test { add(code, severity, target, …) }`
abbrev pub add_if : Bool → Code → Severity → String → List Issue
add_if test code severity target =
    if test then record { code = code; severity = severity; target = target } ∷ [] else []

pub has_errors-append :
    (xs ys : List Issue) → has_errors (xs ++ ys) ≡ (has_errors xs || has_errors ys)
unfolding has_errors
has_errors-append [] ys = refl
has_errors-append (x ∷ xs) ys = ground (arith, has_errors-append xs ys)

pub no_errors_left : (xs ys : List Issue) → has_errors (xs ++ ys) ≡ false → has_errors xs ≡ false
no_errors_left xs ys h = ground (arith, has_errors-append xs ys)

pub no_errors_right : (xs ys : List Issue) → has_errors (xs ++ ys) ≡ false → has_errors ys ≡ false
no_errors_right xs ys h = ground (arith, has_errors-append xs ys)

pub no_error_if :
    (test : Bool) (code : Code) (target : String)
    → has_errors (add_if test code error target) ≡ false
    → test ≡ false
unfolding has_errors
no_error_if test code target h = ground arith
