-- ===== src/Accounts.antt =====
-- repository/postgres/users.go and admin_users.go: accounts, sessions, confirmation tokens, roles.
pub mod Db
pub mod Statement
pub mod Users
pub mod Confirm
pub mod Sessions
pub mod Admin
pub mod Run
pub mod Unique
pub mod Chains
pub mod Outcome
pub mod AdminOutcome
pub mod Once
pub mod Revoked
pub mod Addressed
pub mod Addresses
pub mod Limit
pub mod Limited
pub mod Rotate
pub mod Normal
pub mod Owner
pub mod Tests
