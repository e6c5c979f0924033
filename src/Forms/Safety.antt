-- ===== src/Forms/Safety.antt =====
-- What `Validate` promises for `Evaluate`: a published form is never refused for its own structure.
pub mod Groups
pub mod Next
pub mod Acyclic
pub mod Verdict
pub mod Fits
pub mod Published
pub mod Total
pub mod Hidden
