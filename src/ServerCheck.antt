-- ===== src/ServerCheck.antt =====
-- servercheck/probe.go: the query sent to a game server and the reading of its answer.
pub mod Packet
pub mod Probe
pub mod Tests
