-- ===== src/Forms/Diff.antt =====
-- internal/modules/forms/domain/diff.go: what publishing a draft changes, and the grid of answers.
mod Changes
mod Blocking
mod Impact
mod Grid
mod Order
mod Columns
mod Cells
mod Examples
