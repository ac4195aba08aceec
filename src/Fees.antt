-- ===== src/Fees.antt =====
-- Student fees and their payments: src/modules/admin/routes/fee.routes.ts and
-- src/modules/admin/services/fee-breakdown.utils.ts.
pub mod Rows
pub mod Db
pub mod Breakdown
pub mod Merged
pub mod Receipts
pub mod Numbering
pub mod Waterfall
pub mod Books
pub mod Oldest
pub mod Replay
pub mod Once
pub mod Pay
pub mod Revert
pub mod Marked
pub mod Undo
pub mod Heads
pub mod Allocate
pub mod Selected
pub mod Stored
pub mod Exact
pub mod Twice
pub mod Family
pub mod FamilyPay
pub mod Tracked
pub mod Statuses
pub mod Traffic
pub mod Poured
pub mod Fresh
mod Tests
