-- ===== src/Purchase.antt =====
-- The purchase-order tools that move an order from one status to another
-- (internal/tools/purchase_order_lifecycle_tools.go, purchase_order_completion_tools.go).
pub mod Orders
pub mod ExtraLines
pub mod Plans
pub mod Lifecycle
pub mod Planning
pub mod Handlers
pub mod Reading
pub mod Completion
pub mod Statuses
mod Samples
mod Tests
