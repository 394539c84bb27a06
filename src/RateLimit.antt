-- ===== src/RateLimit.antt =====
-- The request limits of src/oidc/token-rate-limit.service.ts and
-- src/authentication/login-rate-limit.service.ts.
mod Buckets
mod TokenLimit
mod LoginLimit
pub mod TokenWindow
pub mod LoginWindow
unfoldable pub use Buckets.*
unfoldable pub use TokenLimit.*
unfoldable pub use LoginLimit.*
