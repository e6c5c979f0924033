-- ===== src/Files.antt =====
-- internal/modules/files: what an uploaded file is.
mod Content
mod Detection
mod Examples
