-- ===== src/Forms/Safety/Total.antt =====
-- Validate always answers.
use collectr.Prelude.{
  ◌≡◌, refl, true, false, not, some, List, [], ◌∷◌, ◌++◌, Bool-cases, inl, inr, has, All,
}
use collectr.Forms.Schema.{PageId, Page, Schema}
use collectr.Forms.Engine.Conditions.{Floats}
use collectr.Forms.Engine.Path.{page_ids}
use collectr.Forms.Validate.Issues.{Issue, empty_schema, has_errors, add_if, error}
use collectr.Forms.Validate.Placement.{Homes, place_pages}
use collectr.Forms.Validate.Graph.{nodes}
use collectr.Forms.Validate.Publish.{
  ValidationResult, validate, validate_pages, conclude, graph_issues, local_issues,
}
use collectr.Forms.Safety.Acyclic.{walk_graph_total}
use collectr.Forms.Safety.Verdict.{own_ids}
use collectr.Forms.Safety.Published.{in_nodes, has-nodes}

module _ (fl : Floats) where
  open fl use {Float}

  conclude_total :
      (s : Schema Float) (first : PageId) (homes : Homes) (issues : List Issue)
      → has (nodes s) first ≡ true
      → (res : ValidationResult) × (conclude fl s first homes issues ≡ some res)
  unfolding conclude
  conclude_total s first homes issues u =
      let (w, cycle, found, _) = walk_graph_total s first u in
      elim (Bool-cases (has_errors issues)) [
        | inl bad ↦ (record { ok = false; issues = issues }, rw (bad, conclude) refl)
        | inr good ↦
            let all = issues ++ graph_issues s homes w cycle in
            (record { ok = not (has_errors all); issues = all }, rw (good, found, conclude) refl)
      ]

  validate_pages_total :
      (s : Schema Float) (ps : List Page)
      → All (λ p. has (page_ids s.pages) p.id ≡ true) ps
      → (res : ValidationResult) × (validate_pages fl s ps ≡ some res)
  unfolding validate_pages
  validate_pages_total s [] mine =
      (record { ok = false; issues = add_if true empty_schema error "" }, refl)
  validate_pages_total s (p ∷ rest) mine =
      let (ids, homes, placing) = place_pages s s.pages [] [] in
      conclude_total s p.id homes (local_issues fl s ids homes placing)
        (in_nodes fl s p.id (has-nodes fl s.pages p.id mine.0))

  -- Validate always answers: the depth-first search ends within the depth that it is given.
  pub validate_total : (s : Schema Float) → (res : ValidationResult) × (validate fl s ≡ some res)
  unfolding validate
  validate_total s = validate_pages_total s s.pages (own_ids s.pages)
