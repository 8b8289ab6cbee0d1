-- ===== src/Win32/Child/Tests.antt =====
-- A wait that times out, and the end of a process that has ended by itself, on one Windows.
use rust_subprocess.Prelude.{ℕ, ◌≡◌, refl, arith, false, Option, none, some, ok, returned, Delivers}
use rust_subprocess.OsCommon.{exited}
use rust_subprocess.Win32.Calls.{
  wait_for_single_object, wait_rounds, event_of, get_exit_code_process, terminate_process,
}
use rust_subprocess.Win32.Calls.Waiting.{Answers, wait_for_single_object-Answers}
use rust_subprocess.Win32.Child.{
  Popen, running, finished, record_exit, wait_handle, os_wait_timeout, denied, os_terminate,
}
use rust_subprocess.Win32.Child.Truth.{IsTrue}
use rust_subprocess.Win32.Child.Sessions.{
  Reach, here, next, waits_for, passes, terminates, Reach-IsTrue,
}
use rust_subprocess.Win32.Child.Machine.{
  Machine, machine, one_process, machine-WaitsTimeout, machine-ProcessLaws,
}

wait_for_single_object-Answers_example :
    Delivers
      (Answers machine machine-WaitsTimeout 7 (some 5_000_000) (0, none))
      (wait_for_single_object machine 1 7 (some 5_000_000) (0, none))
wait_for_single_object-Answers_example =
    wait_for_single_object-Answers machine machine-WaitsTimeout 7 1 (some 5_000_000) (0, none)
      (omega arith) (omega arith)

abbrev child : Popen
child = record {
  stdin = none;
  stdout = none;
  stderr = none;
  child_state = running 42 7;
  detached = false;
}

abbrev ended : Popen
ended = record child { child_state = finished (exited 4) }

abbrev before : Machine
before = (0, none)

abbrev waited : Machine
waited = (5_000_000, none)

abbrev after : Machine
after = (5_000_000, some 4)

timed_wait : os_wait_timeout machine 1 5_000_000 child before ≡ returned (ok none, child, waited)
unfolding os_wait_timeout wait_handle wait_for_single_object wait_rounds event_of record_exit
timed_wait = refl

late_terminate : os_terminate machine child after ≡ (ok tt, ended, after)
unfolding os_terminate terminate_process denied get_exit_code_process
late_terminate = refl

no_code : (code : ℕ) → ◌≡◌ {A = Option ℕ} none (some code) → ◌≡◌ {A = Option ℕ} (some 4) (some code)
no_code code e = cc

run : Reach one_process machine-ProcessLaws 7 child before ended after
run =
    next
      (next (next here (waits_for 1 5_000_000 (ok none) timed_wait))
        (passes refl (λ handle code e. no_code code e)))
      (terminates (ok tt) late_terminate)

Reach-IsTrue_example : IsTrue one_process 7 ended after
Reach-IsTrue_example =
    Reach-IsTrue one_process machine-ProcessLaws 7 child before 42 refl ended after run
