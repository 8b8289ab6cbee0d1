-- ===== src/Builder.antt =====
-- src/builder.rs.
pub mod Display
pub mod Cmdline
pub mod Exec
pub mod Pipeline
pub mod Session
