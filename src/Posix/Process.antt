-- ===== src/Posix/Process.antt =====
-- The system calls by which a parent waits for its child and signals it, and `waitpid` and
-- `decode_exit_status` of src/posix.rs. The operating system and the macros of <sys/wait.h> are an
-- argument. A pid is what `fork` returned, so that the casts of `pid` change nothing.
use rust_subprocess.Prelude.{
  ℕ, Bool, false, ◌==◌, if◌then◌else◌, Result, ok, err, IoError, ℤ, pos, negsuc, raw_os_error, none,
  some,
}
use rust_subprocess.Prelude.Words.{as_u32, as_u8}
use rust_subprocess.OsCommon.{ExitStatus, exited, signaled, other}

pub record ProcessOs : Type 1 where
  pub World : Type 0
  pub now : World → ℕ
  -- The last instant that can be represented.
  pub latest : ℕ
  -- `waitpid(2)`, blocking or with `WNOHANG`: a pid or 0, and the status.
  pub sys_waitpid : ℕ → Bool → World → Result (ℕ × ℤ) IoError × World
  -- `kill(2)`
  pub sys_kill : ℕ → ℕ → World → Result (Unit {0}) IoError × World
  -- `std::thread::sleep`
  pub sleep : ℕ → World → World
  pub wifexited : ℤ → Bool
  pub wexitstatus : ℤ → ℤ
  pub wifsignaled : ℤ → Bool
  pub wtermsig : ℤ → ℤ
  pub echild : ℤ
  pub sigterm : ℕ
  pub sigkill : ℕ

abbrev pub is_code : ℤ → ℤ → Bool
is_code (pos m) (pos n) = m == n
is_code (negsuc m) (negsuc n) = m == n
is_code _ _ = false

module _ (os : ProcessOs) where
  open os use {World, sys_waitpid, wifexited, wexitstatus, wifsignaled, wtermsig}

  unfoldable pub decode_exit_status : ℤ → ExitStatus
  decode_exit_status status =
      if wifexited status
      then exited (as_u32 (wexitstatus status))
      else if wifsignaled status
      then signaled (as_u8 (as_u32 (wtermsig status)))
      else other status

  -- `posix::waitpid`
  unfoldable pub wait_pid : ℕ → Bool → World → Result (ℕ × ExitStatus) IoError × World
  wait_pid pid block w =
      let (reply, w') = sys_waitpid pid block w in
      (
        elim reply [
          | ok (pid_out, status) ↦ ok (pid_out, decode_exit_status status)
          | err e ↦ err e
        ],
        w',
      )

  -- `errno == ECHILD`
  abbrev pub is_echild : IoError → Bool
  is_echild e = elim (raw_os_error e) [ some errno ↦ is_code errno os.echild | none ↦ false ]
