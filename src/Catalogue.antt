-- ===== src/Catalogue.antt =====
-- repository/postgres/servers.go: the listings of game servers and their checks.
pub mod Listing
pub mod Statement
pub mod Slug
pub mod Create
pub mod Owner
pub mod Check
pub mod Admin
pub mod Run
pub mod Outcome
pub mod Hidden
pub mod Jobs
pub mod Single
pub mod Endpoints
pub mod Checking
pub mod Wanted
pub mod Due
pub mod Tests
