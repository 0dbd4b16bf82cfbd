-- ===== src/Sessions.antt =====
-- src/auth: the sessions of users, whose refresh tokens are renewed and revoked, and the states of
-- logins at another provider.
pub mod Defs
pub mod Revoking
pub mod Once
mod Tests
