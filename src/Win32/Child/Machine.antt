-- ===== src/Win32/Child/Machine.antt =====
-- A Windows with one process: the time, and the code with which the process has ended.
use rust_subprocess.Prelude.{
  ℕ, ◌+◌, ◌*◌, ◌≤◌, ◌<◌, ◌≡◌, ◌≢◌, refl, Option, none, some, arith, if◌then◌else◌, ltb, os_error,
  pos, ◌⊎◌, inl, ◌^◌,
}
use rust_subprocess.Win32.Calls.{
  WinOs, wait_object_0, wait_abandoned, wait_timeout, wait_failed, infinite, still_active,
}
use rust_subprocess.Win32.Calls.Waiting.{WaitsTimeout}
use rust_subprocess.Win32.Child.Truth.{Processes, ProcessLaws}

abbrev pub Machine : Type 0
Machine = ℕ × Option ℕ

-- An infinite wait lasts until the process ends by itself, with the code 3.
abbrev wait : ℕ → ℕ → Machine → ℕ × Machine
wait handle ms (time, some code) = (wait_object_0, (time, some code))
wait handle ms (time, none) =
    if ltb ms infinite
    then (wait_timeout, (time + ms * 1_000_000, none))
    else (wait_object_0, (time, some 3))

abbrev exit_code : ℕ → Machine → ℕ × ℕ × Machine
exit_code handle (time, some code) = (1, code, (time, some code))
exit_code handle (time, none) = (1, still_active, (time, none))

-- Only a process that runs can be ended.
abbrev terminate : ℕ → ℕ → Machine → ℕ × Machine
terminate handle code (time, some ended) = (0, (time, some ended))
terminate handle code (time, none) = (1, (time, some code))

abbrev pub machine : WinOs
machine = record {
  World = Machine;
  now = λ w. w.0;
  latest = 2 ^ 63 * 1_000_000_000;
  last_error = λ w. os_error (pos 5);
  sys_wait = wait;
  sys_exit_code = exit_code;
  sys_terminate = terminate;
  sys_std_handle = λ which w. (8, w);
  invalid_handle = 0;
  sys_create_pipe = λ inherit w. (1, (4, 5), w);
  sys_handle_information = λ handle mask flags w. (1, w);
  sys_create_process = λ args w. (1, record { process = 7; thread = 6; process_id = 42 }, w);
  sys_close = λ handle w. w;
}

abbrev pub one_process : Processes machine
one_process = record { exit_of = λ handle w. w.1 }

documented :
    (handle ms : ℕ) (w : Machine)
    → ((wait handle ms w).0 ≡ wait_object_0)
      ⊎ ((wait handle ms w).0 ≡ wait_abandoned)
      ⊎ ((wait handle ms w).0 ≡ wait_timeout)
      ⊎ ((wait handle ms w).0 ≡ wait_failed)
documented handle ms (time, some code) = inl refl
documented handle ms (time, none) = ground arith

waits :
    (handle ms : ℕ) (w : Machine)
    → (wait handle ms w).0 ≡ wait_timeout
    → (ms < infinite) × (w.0 + ms * 1_000_000 ≤ (wait handle ms w).1.0)
waits handle ms (time, some code) e = absurd (ground (arith, e))
waits handle ms (time, none) e = ground (arith, e)

pub machine-WaitsTimeout : WaitsTimeout machine
machine-WaitsTimeout = record { documented = documented; waits = waits }

wait_later :
    (handle ms : ℕ) (w : Machine) (other code : ℕ)
    → w.1 ≡ some code
    → (wait handle ms w).1.1 ≡ some code
wait_later handle ms (time, some ended) other code e = e
wait_later handle ms (time, none) other code e = cc

wait_ends :
    (handle ms : ℕ) (w : Machine)
    → (wait handle ms w).0 ≡ wait_object_0
    → (wait handle ms w).1.1 ≢ none
wait_ends handle ms (time, some ended) e n = cc
wait_ends handle ms (time, none) e n = absurd (ground (arith, e, n))

code_later :
    (handle : ℕ) (w : Machine) (other code : ℕ)
    → w.1 ≡ some code
    → (exit_code handle w).2.1 ≡ some code
code_later handle (time, some ended) other code e = e
code_later handle (time, none) other code e = cc

code_active : (handle : ℕ) (w : Machine) → w.1 ≡ none → (exit_code handle w).1 ≡ still_active
code_active handle (time, some ended) e = cc
code_active handle (time, none) e = refl

code_ended : (handle code : ℕ) (w : Machine) → w.1 ≡ some code → (exit_code handle w).1 ≡ code
code_ended handle code (time, some ended) e = ground (arith, e)
code_ended handle code (time, none) e = cc

terminate_later :
    (handle exit_code : ℕ) (w : Machine) (other code : ℕ)
    → w.1 ≡ some code
    → (terminate handle exit_code w).1.1 ≡ some code
terminate_later handle exit_code (time, some ended) other code e = e
terminate_later handle exit_code (time, none) other code e = cc

pub machine-ProcessLaws : ProcessLaws one_process
machine-ProcessLaws = record {
  wait_later = wait_later;
  wait_ends = wait_ends;
  code_later = code_later;
  code_active = code_active;
  code_ended = code_ended;
  terminate_later = terminate_later;
}
