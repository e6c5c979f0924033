-- ===== src/Iam.antt =====
-- internal/modules/iam: roles and their capabilities.
pub mod Roles
mod Grants
mod Canonical
mod Actor
mod Examples
