-- ===== src/Web.antt =====
-- The engine's list pages (web/app.py).
pub mod Documents
pub mod Lists
pub mod Slices
