-- ===== src/Users.antt =====
-- Accounts of services/backend/users: usernames and profiles.
pub mod Names
pub mod Valid
pub mod Service
pub mod Consistent
pub mod Claim
pub mod Unique
