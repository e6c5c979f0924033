-- ===== src/Submit.antt =====
-- internal/modules/forms/app/submit.go: one response, from the request to the rows that hold it.
pub mod Answers
pub mod Tables
pub mod Checks
pub mod Store
pub mod Steps
pub mod Minimal
mod Fits
pub mod Complete
pub mod Sealed
pub mod Once
mod Examples
