-- ===== src/Auth.antt =====
-- Bearer tokens: the paths that the middleware tells apart, the table of minted tokens, the
-- endpoints that mint and revoke them, and the middleware itself.
pub mod Segments
pub mod Paths
pub mod Store
pub mod Tokens
pub mod Middleware
pub mod Steps
pub mod Revoked
pub mod Access
pub mod Minted
mod Tests
