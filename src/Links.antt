-- ===== src/Links.antt =====
-- internal/modules/links: short links, where they lead and what is cached of them.
mod Resolution
mod Keys
mod Fresh
mod Examples
