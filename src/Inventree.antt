-- ===== src/Inventree.antt =====
-- The client of the InvenTree API (internal/inventree).
pub mod Pagination
mod Tests
