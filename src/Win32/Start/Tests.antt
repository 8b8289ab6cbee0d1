-- ===== src/Win32/Start/Tests.antt =====
-- Starts on a system that keeps the arguments of `CreateProcessW`.
use rust_subprocess.Prelude.{
  ◌+◌, ◌≡◌, refl, false, List, [], ◌∷◌, ◌++◌, none, some, codes, os_error, pos, ◌^◌, ◌*◌,
}
use rust_subprocess.OsCommon.{stream_fd}
use rust_subprocess.Popen.Environment.{same_bytes}
use rust_subprocess.Win32.Cmdline.{Units}
use rust_subprocess.Win32.Calls.{WinOs, ProcessArgs}
use rust_subprocess.Win32.Child.{Popen, preparing}
use rust_subprocess.Win32.Start.{Paths, Program, Context, launch, search, locate_in_path}
use rust_subprocess.Win32.Start.Standard.{After}
use rust_subprocess.Win32.Start.Launching.{Launched, launch-Launched}

-- The standard handles are 100, 101 and 102; the thread's handle is the process's and one.
abbrev system : WinOs
system = record {
  World = List ProcessArgs;
  now = λ w. 0;
  latest = 2 ^ 63 * 1_000_000_000;
  last_error = λ w. os_error (pos 6);
  sys_wait = λ handle timeout w. (0, w);
  sys_exit_code = λ handle w. (1, 0, w);
  sys_terminate = λ handle code w. (1, w);
  sys_std_handle = λ which w. (100 + stream_fd which, w);
  invalid_handle = 0;
  sys_create_pipe = λ inherit w. (1, (50, 51), w);
  sys_handle_information = λ handle mask flags w. (1, w);
  sys_create_process =
      λ args w. (1, record { process = 200; thread = 201; process_id = 7 }, w ++ args ∷ []);
  sys_close = λ handle w. w;
}

-- "tool" is in the second directory.
abbrev paths : Paths system
paths = record {
  path = some (codes "a;b");
  split_paths = λ p. codes "a" ∷ codes "b" ∷ [];
  program_in = λ dir program. dir ++ codes "/" ++ program ++ codes ".exe";
  exists = λ p w. same_bytes p (codes "b/tool.exe");
}

abbrev program : Program
program = record { executable = some (codes "tool"); env = none; cwd = none }

abbrev fresh : Popen
fresh = record {
  stdin = none;
  stdout = some 60;
  stderr = none;
  child_state = preparing;
  detached = false;
}

abbrev context : Context system
context = record { world = []; streams = record { stdin = none; stdout = none; stderr = some 33 } }

abbrev argv : List Units
argv = codes "tool" ∷ codes "a b" ∷ [] ∷ []

found_in_path : locate_in_path system paths [] (codes "tool") ≡ codes "b/tool.exe"
unfolding locate_in_path search
found_in_path = refl

launch-Launched_example :
    After system argv
      (Launched system argv none (some 61) none fresh context)
      (launch system paths argv program none (some 61) none fresh context)
launch-Launched_example =
    launch-Launched system argv paths program none (some 61) none fresh context (refl, refl)
