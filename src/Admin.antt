-- ===== src/Admin.antt =====
-- src/admin: the services of the back office, and the guards before them.
pub mod Common
pub mod Users
pub mod Status
pub mod Identity
pub mod Accounts
pub mod Deactivation
pub mod Access
pub mod AccessRule
pub mod Groups
pub mod Integrity
pub mod Membership
pub mod GroupChanges
pub mod Demotion
pub mod Clients
pub mod ClientEdits
pub mod Catalog
pub mod ClientChanges
pub mod ClientSecret
