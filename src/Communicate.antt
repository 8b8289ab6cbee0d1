-- ===== src/Communicate.antt =====
-- src/communicate.rs.
pub mod Ready
pub mod Raw
pub mod Helpers
pub mod Gather
pub mod Pipes
pub mod Machine
pub mod Progress
pub mod ReadLoop
pub mod Communicator
