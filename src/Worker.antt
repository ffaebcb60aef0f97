-- ===== src/Worker.antt =====
-- app/worker.go: the worker that scans uploaded files, sends confirmation mails and checks game servers.
pub mod Scan
pub mod Email
pub mod Server
mod Tests
