-- ===== src/Forms/Validate.antt =====
-- internal/modules/forms/domain/validate.go: the checks before a draft may be published.
-- The texts of the issues are left out: an issue is its code, its severity and its target.
pub mod Issues
pub mod Fields
pub mod Graph
pub mod Placement
pub mod Rules
pub mod Publish
pub mod Search
pub mod Edges
