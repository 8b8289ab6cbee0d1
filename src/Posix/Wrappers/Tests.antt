-- ===== src/Posix/Wrappers/Tests.antt =====
-- The calls on a libc whose world is what the next call returns.
use rust_subprocess.Prelude.{◌≡◌, refl, true, none, some, ok, err, os_error, ℤ, pos, negsuc}
use rust_subprocess.Prelude.Words.{as_u32}
use rust_subprocess.Posix.Wrappers.{Libc, check_err, fork, kill, open_pipe, reset_sigpipe}

abbrev libc : Libc
libc = record {
  World = ℤ;
  last_error = λ w. os_error (pos 4);
  libc_pipe = λ w. (w, (3, 4), w);
  libc_fork = λ w. (w, w);
  libc_setuid = λ uid w. (w, w);
  libc_setgid = λ gid w. (w, w);
  libc_setpgid = λ pid pgid w. (w, w);
  libc_kill = λ pid signal w. (w, w);
  libc_fcntl = λ fd cmd arg1 w. (w, w);
  libc_dup2 = λ oldfd newfd w. (w, w);
  libc_sigemptyset = λ w. (pos 0, 0, w);
  libc_sigmask = λ set w. (w, w);
  libc_signal = λ w. (true, w);
  f_getfd = 1;
  f_setfd = 2;
  fd_cloexec = 1;
}

in_the_child : (fork libc (pos 0)).0 ≡ ok none
unfolding fork check_err as_u32
in_the_child = refl

in_the_parent : (fork libc (pos 77)).0 ≡ ok (some 77)
unfolding fork check_err as_u32
in_the_parent = refl

no_process : (fork libc (negsuc 0)).0 ≡ err (os_error (pos 4))
unfolding fork check_err as_u32
no_process = refl

opened : (open_pipe libc (pos 0)).0 ≡ ok (3, 4)
unfolding open_pipe check_err
opened = refl

killed : (kill libc 77 9 (pos 0)).0 ≡ ok tt
unfolding kill check_err
killed = refl

-- `SIG_ERR` is an error.
signal_refused : (reset_sigpipe libc (pos 0)).0 ≡ err (os_error (pos 4))
unfolding reset_sigpipe check_err
signal_refused = refl
