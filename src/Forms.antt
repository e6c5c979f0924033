-- ===== src/Forms.antt =====
-- internal/modules/forms: the schema, its checks at publish time, and the engine that walks it.
pub mod Schema
pub mod Engine
pub mod Validate
pub mod Safety
pub mod Formats
mod Diff
mod Examples
