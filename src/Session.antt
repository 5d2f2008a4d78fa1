-- ===== src/Session.antt =====
-- internal/session: entering a running container.
pub mod Pty
pub mod Exit
pub mod Command
pub mod Doors
pub mod Setup
pub mod Entered
