-- ===== src/Audit.antt =====
-- internal/modules/audit: the tamper-evident log.
mod Encoding
mod Chain
mod Order
mod Verdict
mod Tamper
mod Examples
