-- ===== src/Store.antt =====
-- The state that the services share: the rows of src/database/entities, and the calls on them.
mod Entities
mod Calls
pub mod Statuses
pub use Entities.*
pub use Calls.*
