-- ===== src/Servers.antt =====
-- domain/servers/server.go: the values that the server catalogue accepts.
pub mod Endpoint
pub mod Address
mod Tests
