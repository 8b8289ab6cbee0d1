-- ===== src/Popen/Launch/Tests.antt =====
-- A child whose world is its table of descriptors.
use rust_subprocess.Prelude.{
  ℕ, ◌≡◌, refl, arith, true, false, none, some, ◌==◌, ==_iff, if◌then◌else◌, ok, leb, Bool, List,
  [], ◌∷◌, ◌+◌,
}
use rust_subprocess.Popen.Launch.{
  ChildOs, Outcome, executed, failed, panicked, redirect, finish, set_ids, do_exec,
}
use rust_subprocess.Popen.Launch.Files.{RunsIn, Files, FileLaws}
use rust_subprocess.Popen.Launch.Descriptors.{HasStreams, do_exec-HasStreams}

abbrev Table : Type 0
Table = ℕ → ℕ × Bool

abbrev system : ChildOs
system = record {
  World = Table;
  set_current_dir = λ dir w. (ok tt, w);
  sys_dup2 = λ old new w. (ok tt, λ n. if n == new then ((w old).0, false) else w n);
  reset_sigpipe = λ w. (ok tt, w);
  sys_setuid = λ id w. (ok tt, w);
  sys_setgid = λ id w. (ok tt, w);
  sys_setpgid = λ w. (ok tt, w);
  just_exec = λ w. (none, λ n. if (w n).1 then (0, false) else w n);
}

abbrev files : Files system
files = record { slot = λ fd w. w fd }

laws : FileLaws files
laws = record {
  dup2_copies = λ old new w apart. rw ((==_iff new new).1 refl) refl;
  dup2_others = λ old new fd w h. rw h refl;
  chdir_files = λ dir w fd. refl;
  sigpipe_files = λ w fd. refl;
  setuid_files = λ id w fd. refl;
  setgid_files = λ id w fd. refl;
  setpgid_files = λ w fd. refl;
  exec_files = λ w fd kept. rw kept refl;
}

-- Each descriptor has a file of its own number, and those from 3 on are closed on exec.
abbrev table : Table
table fd = (fd, leb 3 fd)

-- The standard input from 5, both outputs to 6.
do_exec-HasStreams_example :
    RunsIn
      (HasStreams files (some 5, some 6, some 6) table)
      (do_exec system (some 5, some 6, some 6) none (some 1000) none true table)
do_exec-HasStreams_example =
    do_exec-HasStreams files laws (some 5) (some 6) (some 6) none (some 1000) none true table
      (ground arith) (ground arith) (ground arith) (ground arith) (ground arith) (ground arith)

-- What stands for each of the descriptors 0 to 2 in the program.
abbrev streams : Outcome system → List (ℕ × Bool)
streams (executed w) = w 0 ∷ w 1 ∷ w 2 ∷ []
streams (failed e w) = []
streams (panicked w) = []

-- An output on descriptor 0 is lost to the standard input's redirection.
clobbered :
    streams (do_exec system (some 5, some 0, none) none none none false table)
    ≡ (5, false) ∷ (5, false) ∷ (2, false) ∷ []
unfolding do_exec redirect set_ids finish
clobbered = refl

-- A file that stands at its place already, to be closed on exec, is lost: 0 is no stream then.
lost :
    streams (do_exec system (some 0, none, none) none none none false λ fd. (fd + 7, true))
    ≡ (0, false) ∷ (0, false) ∷ (0, false) ∷ []
unfolding do_exec redirect set_ids finish
lost = refl
