-- ===== src/Api.antt =====
-- internal/api: the middleware, the checks of access, and the handlers of sessions.
pub mod RateLimit
pub mod Access
pub mod Middleware
pub mod Login
pub mod Files
pub mod Users
pub mod Sites
pub mod Accounts
