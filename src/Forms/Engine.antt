-- ===== src/Forms/Engine.antt =====
-- internal/modules/forms/engine/engine.go: which pages and fields a respondent is shown.
-- `Conditions` compares one answer, `Pages` resolves one page, `Walk` goes from page to page.
pub mod Conditions
pub mod Pages
pub mod Walk
pub mod Errors
pub mod Loop
pub mod Path
pub mod Shown
