-- ===== src/Consent.antt =====
-- internal/modules/consent: who a response is about, the key of their data, and what they agreed to.
pub mod Identity
pub mod Tables
pub mod Subjects
pub mod Log
pub mod Projection
pub mod Erasure
pub mod Keys
mod Examples
