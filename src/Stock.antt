-- ===== src/Stock.antt =====
-- The single-item stock tools (internal/tools/stock_adjustment_tools.go, stock_depletion_tools.go).
pub mod Plans
pub mod Item
pub mod Decimal
pub mod Execute
pub mod Adjust
pub mod Depletion
pub mod Samples
mod Tests
