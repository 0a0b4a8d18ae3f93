-- ===== src/Upload.antt =====
-- The sources of uploads (internal/upload).
pub mod Url
mod Tests
