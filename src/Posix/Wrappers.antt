-- ===== src/Posix/Wrappers.antt =====
-- `check_err` of src/posix.rs and the functions that make one call of libc each, which is an argument.
-- A `File` is its descriptor.
mod Tests
pub mod Descriptors
use rust_subprocess.Prelude.{
  ℕ, Bool, true, false, Option, none, some, ◌==◌, if◌then◌else◌, Bytes, Result, ok, err, IoError, ℤ,
  pos, negsuc,
}
use rust_subprocess.Prelude.Words.{as_u32}
use rust_subprocess.OsCommon.{StandardStream, stream_fd}
use rust_subprocess.Popen.Streams.{StreamsOs}
use rust_subprocess.Popen.Launch.{ChildOs}

pub record Libc : Type 1 where
  pub World : Type 0
  -- `Error::last_os_error()`
  pub last_error : World → IoError
  pub libc_pipe : World → ℤ × (ℕ × ℕ) × World
  pub libc_fork : World → ℤ × World
  pub libc_setuid : ℕ → World → ℤ × World
  pub libc_setgid : ℕ → World → ℤ × World
  pub libc_setpgid : ℕ → ℕ → World → ℤ × World
  pub libc_kill : ℕ → ℕ → World → ℤ × World
  pub libc_fcntl : ℕ → ℕ → Option ℕ → World → ℤ × World
  pub libc_dup2 : ℕ → ℕ → World → ℤ × World
  -- A set of signals is a number.
  pub libc_sigemptyset : World → ℤ × ℕ × World
  -- `pthread_sigmask` with `SIG_SETMASK` and no old set.
  pub libc_sigmask : ℕ → World → ℤ × World
  -- `signal(SIGPIPE, SIG_DFL)`, and whether it is `SIG_ERR`.
  pub libc_signal : World → Bool × World
  pub f_getfd : ℕ
  pub f_setfd : ℕ
  pub fd_cloexec : ℕ

module _ (libc : Libc) where
  open libc use {
    World, last_error, libc_pipe, libc_fork, libc_setuid, libc_setgid, libc_setpgid, libc_kill,
    libc_fcntl, libc_dup2, libc_sigemptyset, libc_sigmask, libc_signal, f_getfd, f_setfd,
  }

  -- What a call that may fail gives.
  abbrev pub Reply : Type 0 → Type 0
  Reply A = Result A IoError × World

  unfoldable pub check_err : ℤ × World → Reply ℤ
  check_err (pos n, w) = (ok (pos n), w)
  check_err (negsuc n, w) = (err (last_error w), w)

  abbrev pub mapped : {A B : Type 0} → (A → B) → Reply A → Reply B
  mapped f (ok a, w) = (ok (f a), w)
  mapped f (err e, w) = (err e, w)

  -- `?` and `Ok(())`
  abbrev pub checked : ℤ × World → Reply (Unit {0})
  checked t = mapped (λ _. tt) (check_err t)

  unfoldable pub open_pipe : World → Reply (ℕ × ℕ)
  open_pipe w = let (rc, fds, w') = libc_pipe w in mapped (λ _. fds) (check_err (rc, w'))

  -- The child's pid in the parent.
  unfoldable pub fork : World → Reply (Option ℕ)
  fork w =
      mapped (λ pid. if as_u32 pid == 0 then none else some (as_u32 pid)) (check_err (libc_fork w))

  unfoldable pub setuid : ℕ → World → Reply (Unit {0})
  setuid uid w = checked (libc_setuid uid w)

  unfoldable pub setgid : ℕ → World → Reply (Unit {0})
  setgid gid w = checked (libc_setgid gid w)

  unfoldable pub setpgid : ℕ → ℕ → World → Reply (Unit {0})
  setpgid pid pgid w = checked (libc_setpgid pid pgid w)

  unfoldable pub kill : ℕ → ℕ → World → Reply (Unit {0})
  kill pid signal w = checked (libc_kill pid signal w)

  unfoldable pub fcntl : ℕ → ℕ → Option ℕ → World → Reply ℤ
  fcntl fd cmd arg1 w = check_err (libc_fcntl fd cmd arg1 w)

  unfoldable pub dup2 : ℕ → ℕ → World → Reply (Unit {0})
  dup2 oldfd newfd w = checked (libc_dup2 oldfd newfd w)

  -- The stream is leaked, so that nothing closes the descriptor.
  unfoldable pub make_standard_stream : StandardStream → World → Reply ℕ
  make_standard_stream which w = (ok (stream_fd which), w)

  abbrev pub bound : {A B : Type 0} → Reply A → (A → World → Reply B) → Reply B
  bound (ok a, w) f = f a w
  bound (err e, w) f = (err e, w)

  unfoldable pub reset_sigpipe : World → Reply (Unit {0})
  reset_sigpipe w =
      let (rc, set, w1) = libc_sigemptyset w in
      bound (checked (rc, w1)) λ _ w2. bound (checked (libc_sigmask set w2)) λ _ w3.
        (let (is_error, w4) = libc_signal w3 in
          (if is_error then err (last_error w4) else ok tt, w4))

  -- These functions as what `setup_streams` and `do_exec` call.
  abbrev pub streams_os : StreamsOs
  streams_os = record {
    World = World;
    sys_pipe = open_pipe;
    sys_getfd = λ fd w. mapped as_u32 (fcntl fd f_getfd none w);
    sys_setfd = λ fd flags w. mapped (λ _. tt) (fcntl fd f_setfd (some flags) w);
    fd_cloexec = libc.fd_cloexec;
  }

  abbrev pub child_os :
      (Bytes → World → Reply (Unit {0}))
      → (World → Option (Result (Unit {0}) IoError) × World)
      → ChildOs
  child_os set_current_dir just_exec = record {
    World = World;
    set_current_dir = set_current_dir;
    sys_dup2 = dup2;
    reset_sigpipe = reset_sigpipe;
    sys_setuid = setuid;
    sys_setgid = setgid;
    sys_setpgid = setpgid 0 0;
    just_exec = just_exec;
  }
