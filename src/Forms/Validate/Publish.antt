-- ===== src/Forms/Validate/Publish.antt =====
-- Validate of validate.go, put together from its six steps.
use collectr.Prelude.{
  pos, ltb_ℤ, Bool, true, false, ◌||◌, ◌&&◌, not, Option, none, some, List, [], ◌∷◌, ◌++◌, ◌==◌,
  if◌then◌else◌, has, lookup, length,
}
use collectr.Forms.Schema.{
  FieldId, PageId, Field, Page, Purpose, Schema, effective_limits, has_pii_fields,
  has_sensitive_fields,
}
use collectr.Forms.Engine.Conditions.{Floats}
use collectr.Forms.Validate.Issues.{
  Issue, add_if, has_errors, error, warning, empty_schema, limit_exceeded, invalid_field_config,
  navigation_cycle, unreachable_page, required_but_unreachable, consent_block_missing,
  sensitive_notice_missing,
}
use collectr.Forms.Validate.Placement.{Homes, place_pages, field_issues}
use collectr.Forms.Validate.Rules.{rules_issues, ever_shown, always_hidden}
use collectr.Forms.Validate.Graph.{Search, walk_graph}

pub record ValidationResult : Type 0 where
  pub ok : Bool
  pub issues : List Issue

unfoldable pub any_identifier : List (FieldId × Field) → Bool
any_identifier [] = false
any_identifier ((_, f) ∷ rest) = f.identifier || any_identifier rest

abbrev pub no_purposes : List Purpose → Bool
no_purposes [] = true
no_purposes (_ ∷ _) = false

-- Step 4: the loop over the pages.
unfoldable pub unreachable_issues : List Page → List PageId → List Issue
unfolding has
unreachable_issues [] reachable = []
unreachable_issues (p ∷ rest) reachable =
    add_if (not (has reachable p.id)) unreachable_page warning p.id
    ++ unreachable_issues rest reachable

module _ {F : Type 0} where
  -- Step 1, and the identifier that a form with purposes must have.
  unfoldable pub limit_issues : Schema F → List Issue
  unfolding effective_limits any_identifier
  limit_issues s =
      add_if (ltb_ℤ (effective_limits s).max_fields (pos (length s.fields))) limit_exceeded error ""
      ++ (add_if (ltb_ℤ (effective_limits s).max_rules (pos (length s.rules))) limit_exceeded error
            ""
          ++ add_if (not (no_purposes s.consent.purposes) && not (any_identifier s.fields))
              invalid_field_config error "")

  -- Step 5 for one field that is required, on the page where it was placed.
  unfoldable pub required_issues :
      Schema F → FieldId → Field → Option PageId → List PageId → List Issue
  unfolding has ever_shown always_hidden
  required_issues s fid f none reachable = []
  required_issues s fid f (some home) reachable =
      if has reachable home
      then add_if (f.hidden && not (ever_shown s fid)) required_but_unreachable error fid
        ++ add_if (always_hidden s fid) required_but_unreachable error fid
      else add_if true required_but_unreachable error fid

  unfoldable pub all_required_issues :
      Schema F → List (FieldId × Field) → Homes → List PageId → List Issue
  unfolding required_issues lookup
  all_required_issues s [] homes reachable = []
  all_required_issues s ((fid, f) ∷ rest) homes reachable =
      (if f.required then required_issues s fid f (lookup fid homes) reachable else [])
      ++ all_required_issues s rest homes reachable

  -- Step 6.
  unfoldable pub consent_issues : Schema F → List Issue
  unfolding has_pii_fields has_sensitive_fields
  consent_issues s =
      add_if (has_pii_fields s && no_purposes s.consent.purposes) consent_block_missing error ""
      ++ add_if (has_sensitive_fields s && not s.consent.sensitive_notice_required)
          sensitive_notice_missing error ""

  -- Steps 4 to 6, on the outcome of walkGraph.
  unfoldable pub graph_issues : Schema F → Homes → Search → PageId → List Issue
  unfolding unreachable_issues all_required_issues consent_issues
  graph_issues s homes w cycle =
      add_if (not (cycle == "")) navigation_cycle error cycle
      ++ (unreachable_issues s.pages w.reachable
          ++ (all_required_issues s s.fields homes w.reachable ++ consent_issues s))

module _ (fl : Floats) where
  open fl use {Float}

  -- Steps 1 to 3.
  unfoldable pub local_issues : Schema Float → List PageId → Homes → List Issue → List Issue
  unfolding limit_issues field_issues rules_issues
  local_issues s ids homes placing =
      limit_issues s ++ (placing ++ (field_issues fl s.fields homes ++ rules_issues s s.rules ids))

  -- The return after step 3, and the rest. `none` is walkGraph without fuel.
  unfoldable pub conclude : Schema Float → PageId → Homes → List Issue → Option ValidationResult
  unfolding has_errors walk_graph graph_issues
  conclude s first homes issues = elim (has_errors issues) [
    | true ↦ some (record { ok = false; issues = issues })
    | false ↦ elim (walk_graph s first) [
      | none ↦ none
      | some (w, cycle) ↦
          let all = issues ++ graph_issues s homes w cycle in
          some (record { ok = not (has_errors all); issues = all })
    ]
  ]

  unfoldable pub validate_pages : Schema Float → List Page → Option ValidationResult
  unfolding place_pages local_issues conclude
  validate_pages s [] = some (record { ok = false; issues = add_if true empty_schema error "" })
  validate_pages s (p ∷ _) =
      let (ids, homes, placing) = place_pages s s.pages [] [] in
      conclude s p.id homes (local_issues s ids homes placing)

  unfoldable pub validate : Schema Float → Option ValidationResult
  unfolding validate_pages
  validate s = validate_pages s s.pages
