-- ===== src/Forms/Diff/Examples.antt =====
-- Two versions of a form, and the theorems on differences and on the grid at these.
use collectr.Prelude.{
  ℕ, ◌≡◌, refl, pos, pos_part, ltb, eqb, Bool, true, false, none, List, [], ◌∷◌, All,
}
use collectr.Forms.Schema.{FieldType, Field, Schema, text, rating}
use collectr.Forms.Engine.Conditions.{Floats}
use collectr.Forms.Diff.Changes.{diff, breaking, field_now_required}
use collectr.Forms.Diff.Impact.{KeptIn, diff-KeptIn}
use collectr.Forms.Diff.Grid.{VersionedSchema, build_column_registry}
use mathlib.Core.List.{Perm}
use collectr.Forms.Diff.Order.{IsAscending}
use collectr.Forms.Diff.Columns.{versions_of, asked, versions_of-registry}

abbrev question : FieldType → Bool → Field
question type required = record {
  type = type;
  label = "Q";
  required = required;
  hidden = false;
  options = [];
  pii = "";
  sensitive = false;
  identifier = false;
  scale = pos 0;
  accept = [];
  max_mb = pos 0;
  multiline = false;
  format = "";
  min = "";
  max = "";
}

abbrev one_page : Field → Schema ℕ
one_page f = record {
  v = pos 1;
  pages = record { id = "p"; title = "P"; fields = "q" ∷ []; next = "" } ∷ [];
  fields = ("q", f) ∷ [];
  rules = [];
  consent = record { purposes = []; sensitive_notice_required = false };
  limits = record { max_fields = pos 0; max_rules = pos 0 };
}

-- The versions out of order, the newest first.
abbrev versions : List (VersionedSchema ℕ)
versions =
    record { version_no = 3; schema = one_page (question rating false) }
    ∷ record { version_no = 1; schema = one_page (question text false) }
    ∷ record { version_no = 2; schema = one_page (question text true) }
    ∷ []

required_is_breaking :
    diff (one_page (question text false)) (one_page (question text true)) ≡ record {
      changes = record { kind = field_now_required; class = breaking; target = "q" } ∷ [];
      blocked = false;
      breaking = true;
    }
unfolding diff
required_is_breaking = refl

two_columns :
    build_column_registry versions
    ≡ record {
      field_id = "q";
      label = "Q";
      type = "text";
      sensitive = false;
      in_versions = 1 ∷ 2 ∷ [];
      retired_after = 2;
      type_variant = "text";
    }
      ∷ record {
        field_id = "q";
        label = "Q";
        type = "rating";
        sensitive = false;
        in_versions = 3 ∷ [];
        retired_after = 0;
        type_variant = "rating";
      }
      ∷ []
unfolding build_column_registry
two_columns = refl

diff-KeptIn_example :
    All (KeptIn (("q", question text false) ∷ [])) (("q", question text true) ∷ [])
unfolding diff
diff-KeptIn_example =
    diff-KeptIn (one_page (question text true)) (one_page (question text false)) refl

versions_of-registry_example :
    (ordered : List (VersionedSchema ℕ)) × Perm ordered versions
    × IsAscending ordered
    × (versions_of "q" "text" (build_column_registry versions) ≡ asked "q" "text" ordered)
versions_of-registry_example = versions_of-registry "q" "text" versions

-- Numbers that are never parsed from text.
abbrev no_numbers : Floats
no_numbers = record {
  Float = ℕ;
  lt_float = ltb;
  eq_float = eqb;
  of_int = pos_part;
  parse_float = λ s. none;
  format_float = λ n. "0";
  sprint = λ v. "";
}
