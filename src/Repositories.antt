-- ===== src/Repositories.antt =====
-- internal/repositories: the queries, as actions on the tables. Every one takes the tenant that the
-- request's context is bound to (`tenant.FromContext`).
pub mod Scope
pub mod Users
pub mod Sessions
pub mod RefreshTokens
pub mod UsedTokens
pub mod Rbac
pub mod Totp
pub mod Oauth
pub mod Passkeys
pub mod TrustedDevices
pub mod Webhooks
