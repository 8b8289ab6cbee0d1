-- ===== src/Win32.antt =====
-- src/win32.rs, and the Windows side of src/popen.rs.
pub mod Cmdline
pub mod Start
pub mod Calls
pub mod Child
