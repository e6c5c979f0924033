-- ===== src/Forms/Validate/Placement.antt =====
-- Step 2 of Validate: page ids are unique, and each field stands on one page.
use collectr.Prelude.{Bool, true, ◌&&◌, not, List, [], ◌∷◌, ◌++◌, ◌==◌, if◌then◌else◌, has, lookup}
use collectr.Forms.Schema.{FieldId, PageId, Field, Page, Schema, page, has_field, is_some}
use collectr.Forms.Engine.Conditions.{Floats}
use collectr.Forms.Validate.Issues.{
  Issue, add_if, error, warning, dangling_reference, duplicate_id, orphan_field,
}
use collectr.Forms.Validate.Fields.{validate_field}

-- `fieldPage`: the page on which a field was first placed.
abbrev pub Homes : Type 0
Homes = List (FieldId × PageId)

abbrev add_home : Bool → FieldId → PageId → Homes → Homes
add_home placed fid pid homes = if placed then (fid, pid) ∷ homes else homes

module _ {F : Type 0} where
  -- The loop over `p.Fields`: the homes and the issues that it adds.
  unfoldable pub place_fields : Schema F → PageId → List FieldId → Homes → Homes × List Issue
  unfolding has_field is_some lookup
  place_fields s pid [] homes = (homes, [])
  place_fields s pid (fid ∷ rest) homes =
      let missing = not (has_field s fid) in
      let again = is_some (lookup fid homes) in
      let (homes', issues) =
        place_fields s pid rest (add_home (not missing && not again) fid pid homes) in
      (
        homes',
        (if missing
              then add_if true dangling_reference error fid
              else add_if again duplicate_id error fid)
            ++ issues,
      )

  -- A page's own issues; `ids` are the pages before it.
  unfoldable pub page_issues : Schema F → Page → List PageId → List Issue
  unfolding page is_some has
  page_issues s p ids =
      add_if (has ids p.id) duplicate_id error p.id
      ++ add_if
          (not (p.next == "") && not (has (p.id ∷ ids) p.next) && not (is_some (page s p.next)))
          dangling_reference error p.id

  -- The loop over the pages: `pageIDs`, `fieldPage` and the issues.
  unfoldable pub place_pages :
      Schema F → List Page → List PageId → Homes → List PageId × Homes × List Issue
  unfolding place_fields page_issues
  place_pages s [] ids homes = (ids, homes, [])
  place_pages s (p ∷ rest) ids homes =
      let (homes', here) = place_fields s p.id p.fields homes in
      let (ids', homes'', later) = place_pages s rest (p.id ∷ ids) homes' in
      (ids', homes'', page_issues s p ids ++ (here ++ later))

module _ (fl : Floats) where
  -- The loop over `s.Fields`.
  unfoldable pub field_issues : List (FieldId × Field) → Homes → List Issue
  unfolding validate_field is_some lookup
  field_issues [] homes = []
  field_issues ((fid, f) ∷ rest) homes =
      add_if (not (is_some (lookup fid homes))) orphan_field warning fid
      ++ (validate_field fl fid f ++ field_issues rest homes)
