-- ===== src/FinanceCore.antt =====
-- The typed posting engine, financial/internal/application/financecore/service.go.
pub mod Types
pub mod Validate
pub mod Plan
pub mod Accept
pub mod Balance
pub mod Jalali
pub mod Dates
pub mod Store
pub mod Frames
pub mod Lookups
pub mod Vouchers
pub mod Effects
pub mod Done
pub mod Post
