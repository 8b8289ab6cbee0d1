-- ===== src/Popen.antt =====
-- src/popen.rs.
pub mod State
pub mod ExecStatus
pub mod Child
pub mod Streams
pub mod Launch
pub mod Start
pub mod Environment
