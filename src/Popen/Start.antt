-- ===== src/Popen/Start.antt =====
-- `Popen::create` and the parent's side of `os_start` of src/popen.rs (Unix). The child's side is
-- Popen/Launch; what a fork does besides is a parameter. The files that go out of scope are closed
-- where a read waits for that.
pub mod Reporting
mod Tests
use rust_subprocess.Prelude.{
  ℕ, Bool, true, false, List, [], ◌∷◌, map, Option, none, some, unwrap_or, Result, ok, err, IoError,
  Bytes,
}
use mathlib.Core.Option
use rust_subprocess.Popen.State.{PopenError, io_error, logic_error, Popen, preparing, running}
use rust_subprocess.Popen.Streams.{
  StreamsOs, Context, Act, pure, bound, ◌>>=◌, ◌>>◌, call, set_inheritable, Setup, setup_streams,
}
use rust_subprocess.Popen.Environment.{format_env}
use rust_subprocess.Popen.ExecStatus.{exec_status}
use rust_subprocess.Posix.Exec.{ExecOs, PrepExec, prep_exec}
use rust_subprocess.Builder.Exec.{PopenConfig}

pub record Forks (os : StreamsOs) : Type 1 where
  -- `fork(2)` in the parent: the child's pid. The child goes on with `do_exec`, of these arguments.
  pub sys_fork : Setup → PrepExec → PopenConfig → os.World → Result ℕ IoError × os.World
  -- A read of up to four bytes, and the drop of a file.
  pub sys_read4 : ℕ → os.World → Result Bytes IoError × os.World
  pub close : ℕ → os.World → os.World
  -- The `PATH` and execve(2).
  pub exec_os : ExecOs

-- A result that is already there.
abbrev pub lift : {os : StreamsOs} {A : Type 0} → Result A PopenError → Act os A
lift r c = (r, c)

-- `io::Result` into `Result`.
abbrev pub from_io : {A : Type 0} → Result A IoError → Result A PopenError
from_io (ok a) = ok a
from_io (err e) = err (io_error e)

module _ {os : StreamsOs} (forks : Forks os) where
  open forks use {sys_fork, sys_read4, close, exec_os}

  abbrev pub close_file : ℕ → Act os (Unit {0})
  close_file f c = (ok tt, record c { world = close f c.world })

  -- `drop(exec_fail_pipe.1)` and what follows it.
  unfoldable pub await_exec : ℕ → ℕ → Popen → Act os Popen
  await_exec read_end write_end p = do
    close_file write_end
    bytes ← call (sys_read4 read_end)
    lift (exec_status bytes)
    pure p

  unfoldable pub os_start : List Bytes → Bytes → PopenConfig → Popen → Act os Popen
  os_start argv argv0 config p = do
    fail_pipe ← call os.sys_pipe
    set_inheritable fail_pipe.0 false
    set_inheritable fail_pipe.1 false
    ends ← setup_streams p config.stdin config.stdout config.stderr
    just_exec ← lift (
        from_io (
          prep_exec exec_os (unwrap_or config.executable argv0) argv
            (Option.map format_env config.env)))
    child_pid ← call (sys_fork ends just_exec config)
    await_exec fail_pipe.0 fail_pipe.1 (record ends.popen { child_state = running child_pid })

  -- `Popen::create`
  unfoldable pub create : List Bytes → PopenConfig → Act os Popen
  create [] config = lift (err (logic_error "argv must not be empty"))
  create (argv0 ∷ argv) config = os_start (argv0 ∷ argv) argv0 config (record {
    stdin = none;
    stdout = none;
    stderr = none;
    child_state = preparing;
    detached = config.detached;
  })
