-- ===== src/Portal.antt =====
-- portal_server: the site that takes the customers' orders and keeps their accounts.
pub mod Passwords
pub mod Trial
pub mod Steps
pub mod Terms
pub mod Access
pub mod Store
pub mod Names
pub mod Services
pub mod Managed
pub mod Accounts
pub mod Team
pub mod Launch
pub mod Owners
pub mod Orders
pub mod Approvals
pub mod Samples
