-- ===== src/Auth.antt =====
-- internal/auth and the user endpoints of internal/api: roles and permissions, the login rate
-- limiter, tokens and the middleware, and user management.
pub mod Rbac
pub mod RateLimit
pub mod Tokens
pub mod Users
pub mod Login
mod Samples
