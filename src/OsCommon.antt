-- ===== src/OsCommon.antt =====
-- src/os_common.rs: how a process has ended.
use rust_subprocess.Prelude.{ℕ, zero, Bool, true, false, ◌==◌, ℤ}

-- The code is a u32, the signal a u8, and the rest the raw i32 status.
pub data ExitStatus : Type 0 where
  exited : ℕ → ExitStatus
  signaled : ℕ → ExitStatus
  other : ℤ → ExitStatus
  undetermined : ExitStatus

pub data StandardStream : Type 0 where
  input output error : StandardStream

-- `which as RawFd`
abbrev pub stream_fd : StandardStream → ℕ
stream_fd input = 0
stream_fd output = 1
stream_fd error = 2

pub success : ExitStatus → Bool
success (exited zero) = true
success _ = false

pub is_killed_by : ExitStatus → ℕ → Bool
is_killed_by (signaled n) signum = n == signum
is_killed_by _ signum = false
