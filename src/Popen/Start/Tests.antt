-- ===== src/Popen/Start/Tests.antt =====
-- A child that starts, and one whose exec fails with ENOENT.
use rust_subprocess.Prelude.{
  ℕ, ◌+◌, ◌≡◌, refl, false, [], ◌∷◌, none, ok, err, Bytes, codes, os_error, pos,
}
use rust_subprocess.Popen.State.{Popen, io_error, running}
use rust_subprocess.Popen.Streams.{StreamsOs, Context}
use rust_subprocess.Popen.Streams.Descriptors.{Yields}
use rust_subprocess.Popen.ExecStatus.{exec_status, join_bytes}
use rust_subprocess.Prelude.Words.{as_i32}
use rust_subprocess.Posix.Exec.{ExecOs}
use rust_subprocess.Builder.Exec.{default_config}
use rust_subprocess.Popen.Start.{Forks, await_exec, create}
use rust_subprocess.Popen.Start.Reporting.{HasStarted, create-HasStarted}

-- The world is the next free descriptor.
abbrev system : StreamsOs
system = record {
  World = ℕ;
  sys_pipe = λ w. (ok (w, w + 1), w + 2);
  sys_getfd = λ f w. (ok 0, w);
  sys_setfd = λ f flags w. (ok tt, w);
  fd_cloexec = 1;
}

abbrev programs : ExecOs
programs = record { World = ℕ; sys_exec = λ exe argv env w. none; path = none }

-- The child sends these bytes.
abbrev forking : Bytes → Forks system
forking sent = record {
  sys_fork = λ ends just_exec config w. (ok 77, w);
  sys_read4 = λ f w. (ok sent, w);
  close = λ f w. w;
  exec_os = programs;
}

abbrev context : Context system
context = record { world = 3; streams = record { stdin = none; stdout = none; stderr = none } }

abbrev child : Popen
child = record {
  stdin = none;
  stdout = none;
  stderr = none;
  child_state = running 77;
  detached = false;
}

create-HasStarted_example :
    Yields
      (HasStarted (forking []) (codes "ls") (codes "ls" ∷ []) default_config context)
      (create (forking []) (codes "ls" ∷ []) default_config context)
create-HasStarted_example = create-HasStarted (forking []) (codes "ls") [] default_config context

-- The child has sent the code of ENOENT.
failed :
    (await_exec (forking (2 ∷ 0 ∷ 0 ∷ 0 ∷ [])) 3 4 child context).0
    ≡ err (io_error (os_error (pos 2)))
unfolding await_exec exec_status join_bytes as_i32
failed = refl
