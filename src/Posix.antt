-- ===== src/Posix.antt =====
-- src/posix.rs: the wrappers around the system calls, and the system calls themselves as an
-- interface.
pub mod Os
pub mod Poll
pub mod Process
pub mod Exec
pub mod Wrappers
