-- ===== src/Domain.antt =====
-- financial/internal/domain: the money, the invoices, the stock and the calculators of the ERP.
pub mod Money
pub mod SampleNames
pub mod Tenants
pub mod Invoice
pub mod InvoiceService
pub mod Stock
pub mod Credit
pub mod Duration
pub mod Settlement
pub mod Calculators
mod Tests
