-- ===== src/Builder/Pipeline/Tests.antt =====
-- A pipeline of three commands, on a system that keeps the calls of `create`.
use rust_subprocess.Prelude.{
  ℕ, ◌+◌, ◌≡◌, is_some, refl, List, [], ◌∷◌, ◌++◌, map, Option, none, some, codes, ok, Delivers,
}
use rust_subprocess.Popen.State.{Popen, running}
use rust_subprocess.Popen.Streams.{Redirection, no_redirection, pipe, merge, file, rc_file}
use rust_subprocess.Builder.Exec.{Exec, PopenConfig, default_config, Creator, into_input}
use rust_subprocess.Builder.Pipeline.{Pipeline, start_pipeline}
use rust_subprocess.Builder.Pipeline.Calls.{
  Call, Creations, CreationLaws, LinkedAfter, plain, is_pipe,
}
use rust_subprocess.Builder.Pipeline.Linking.{start_pipeline-Linked}

record System : Type 0 where
  next : ℕ
  calls : List Call

abbrev end_for : Redirection → ℕ → Option ℕ
end_for pipe n = some n
end_for no_redirection n = none
end_for merge n = none
end_for (file f) n = none
end_for (rc_file f) n = none

abbrev child : PopenConfig → ℕ → Popen
child config n = record {
  stdin = end_for config.stdin (n + 1);
  stdout = end_for config.stdout n;
  stderr = end_for config.stderr (n + 2);
  child_state = running n;
  detached = config.detached;
}

abbrev system : Creator
system = record {
  World = System;
  create = λ argv config w. (
    ok (child config w.next),
    record { next = w.next + 3; calls = w.calls ++ (argv, config, child config w.next) ∷ [] },
  );
}

abbrev creations : Creations system
creations = record { log = λ w. w.calls }

ends : (r : Redirection) (n : ℕ) → is_some (end_for r n) ≡ is_pipe r
ends no_redirection n = refl
ends pipe n = refl
ends merge n = refl
ends (file f) n = refl
ends (rc_file f) n = refl

laws : CreationLaws creations
laws = record {
  replies = λ argv config w. (refl, ends config.stdin (w.next + 1), λ h. (w.next, rw h refl));
}

abbrev ls : Exec
ls = record {
  command = codes "ls";
  args = codes "-l" ∷ [];
  config = default_config;
  stdin_data = none;
}

abbrev wc : Exec
wc = record { command = codes "wc"; args = []; config = default_config; stdin_data = none }

abbrev pipeline : Pipeline
pipeline = record {
  cmds = map plain (ls ∷ wc ∷ wc ∷ []);
  stdin = no_redirection;
  stdout = pipe;
  stderr_file = some 9;
  stdin_data = none;
}

abbrev fresh : System
fresh = record { next = 3; calls = [] }

start_pipeline-Linked_example :
    Delivers
      (LinkedAfter creations (some 9) pipe no_redirection (ls ∷ wc ∷ wc ∷ []) [] fresh)
      (start_pipeline system pipeline fresh)
unfolding into_input
start_pipeline-Linked_example =
    start_pipeline-Linked creations laws pipeline ls wc (wc ∷ []) fresh refl refl refl
