-- ===== src/Crypto.antt =====
-- internal/platform/crypto and internal/platform/totp: keys wrapped under the key of the deployment, data
-- sealed under these keys, and the codes of a second factor.
pub mod Envelope
pub mod Roundtrip
pub mod Totp
mod Examples
