-- ===== src/Dsr.antt =====
-- internal/modules/dsr: what a data subject can ask for, and what is done about it.
pub mod Requests
pub mod Tokens
pub mod Processor
pub mod Rectify
pub mod Forgotten
mod Examples
