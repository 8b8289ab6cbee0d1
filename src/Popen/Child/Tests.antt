-- ===== src/Popen/Child/Tests.antt =====
-- A child that ends after three looks at it.
use rust_subprocess.Prelude.{
  ℕ, ◌+◌, ◌-◌, ◌≡◌, refl, Bool, true, false, not, ◌&&◌, none, some, arith, Result, ok, err, IoError,
  returned, Delivers, ℤ, pos, ◌==◌, os_error, if◌then◌else◌, ==_iff, ◌^◌, ◌*◌, inl,
}
use rust_subprocess.Prelude.Words.{as_u32}
use rust_subprocess.OsCommon.{exited}
use rust_subprocess.Posix.Process.{ProcessOs, wait_pid, decode_exit_status}
use rust_subprocess.Popen.State.{Popen, running, finished}
use rust_subprocess.Popen.Child.{waitpid, os_wait, wait_loop, os_wait_timeout, send_signal}
use rust_subprocess.Popen.Child.Waiting.{KeepsTime, Waited, os_wait_timeout-Waited}
use rust_subprocess.Popen.Child.Blocking.{Blocks, WaitedFor, os_wait-WaitedFor}
use rust_subprocess.Popen.Child.Signals.{
  Reaping, ReapingLaws, StillThere, done, then_step, wait_timeout, GoesToChild,
  send_signal-GoesToChild,
}

-- The clock, the looks that find the child running, and whether it was waited for.
record Machine : Type 0 where
  clock : ℕ
  looks : ℕ
  reaped : Bool

abbrev look : Bool → Machine → ℕ → Result (ℕ × ℤ) IoError × Machine
look block w pid =
    if w.reaped
    then (err (os_error (pos 10)), w)
    else if not block && not (w.looks == 0)
    then (ok (0, pos 0), record w { looks = w.looks - 1 })
    else (ok (pid, pos 256), record w { reaped = true })

abbrev machine : ProcessOs
machine = record {
  World = Machine;
  now = λ w. w.clock;
  latest = 2 ^ 63 * 1_000_000_000;
  sys_waitpid = λ pid block w. look block w pid;
  sys_kill = λ pid signal w. (ok tt, w);
  sleep = λ d w. record w { clock = w.clock + d };
  wifexited = λ status. true;
  wexitstatus = λ status. pos 1;
  wifsignaled = λ status. false;
  wtermsig = λ status. pos 0;
  echild = pos 10;
  sigterm = 15;
  sigkill = 9;
}

abbrev child : Popen
child = record {
  stdin = none;
  stdout = none;
  stderr = none;
  child_state = running 7;
  detached = false;
}

abbrev fresh : Machine
fresh = record { clock = 0; looks = 3; reaped = false }

time : KeepsTime machine
time = record { wait_later = λ pid block w. ground arith; sleeps = λ d w. omega arith }

blocking : Blocks machine
unfolding wait_pid
blocking = record { others = λ w. 0; blocks = λ pid pid_out status w w' e. inl (ground (arith, e)) }

abbrev reaping : Reaping machine
reaping = record { unreaped = λ pid w. not w.reaped }

laws : ReapingLaws reaping
laws = record {
  wait_reaps = kept;
  sleep_keeps = λ pid d w h. h;
  kill_keeps = λ pid other signal w h. h;
}
  where
    kept :
        (pid : ℕ) (block : Bool) (w : Machine)
        → not w.reaped ≡ true
        → StillThere reaping pid (look block w pid)
    kept pid block w h = ground (arith, h, (==_iff pid pid).1 refl)

-- The sleeps are of 1, 2 and 4 ms.
waits_enough :
    os_wait_timeout machine 10 9_000_000 child fresh
    ≡ returned (
      ok (some (exited 1)),
      record child { child_state = finished (exited 1) },
      record { clock = 7_000_000; looks = 0; reaped = true },
    )
unfolding os_wait_timeout wait_loop waitpid wait_pid decode_exit_status as_u32
waits_enough = refl

os_wait_timeout-Waited_example :
    Delivers
      (Waited machine time (machine.now fresh + 2_000_000) child)
      (os_wait_timeout machine 3 2_000_000 child fresh)
os_wait_timeout-Waited_example =
    os_wait_timeout-Waited machine time 2 2_000_000 child fresh tt (omega arith) (omega arith)

os_wait-WaitedFor_example :
    Delivers (WaitedFor machine blocking child) (os_wait machine 2 child fresh)
unfolding blocking
os_wait-WaitedFor_example = os_wait-WaitedFor machine blocking 0 child fresh tt (omega arith)

send_signal-GoesToChild_example :
    GoesToChild reaping laws 9
      (record { clock = 2_500_000; looks = 0; reaped = false })
      (send_signal machine 9 child (record { clock = 2_500_000; looks = 0; reaped = false }))
unfolding os_wait_timeout wait_loop waitpid wait_pid decode_exit_status
send_signal-GoesToChild_example =
    send_signal-GoesToChild reaping laws 9 child child fresh
      (record { clock = 2_500_000; looks = 0; reaped = false }) refl
      (then_step child child child fresh _ _
        (wait_timeout 10 2_500_000 child child fresh
          (record { clock = 2_500_000; looks = 0; reaped = false }) (ok none) refl)
        (done child _))
