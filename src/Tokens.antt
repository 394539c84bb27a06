-- ===== src/Tokens.antt =====
-- tokens/refresh-token.service.ts: refresh tokens, their rotation, and the revocation of a family
-- when a token that was rotated away is presented again.
mod Model
mod Service
mod ForClient
mod Revoke
pub mod Family
pub mod Presented
pub mod Authorized
pub mod Invariant
pub mod Rotation
pub mod Successor
pub mod Replay
pub mod Progress
pub mod Lifecycle
pub mod Follow
pub mod Reach
unfoldable pub use Model.*
unfoldable pub use Service.*
unfoldable pub use ForClient.*
unfoldable pub use Revoke.*
