-- ===== src/Oidc.antt =====
-- src/oidc: authorization, the exchange of codes for tokens, and the userinfo endpoint.
pub mod Input
pub mod Jwt
pub mod Claims
pub mod Token
pub mod Endpoints
pub mod Exchange
pub mod SingleUse
pub mod Disclosure
pub mod Signed
pub mod UserInfo
pub mod Scopes
pub mod ScopeRoundTrip
pub mod SessionLookup
pub mod Authorization
pub mod Grant
pub mod Issued
pub mod Progress
