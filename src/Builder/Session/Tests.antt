-- ===== src/Builder/Session/Tests.antt =====
-- A session whose world is the number of the next descriptor and the calls of `create`.
use rust_subprocess.Prelude.{
  ℕ, ◌+◌, ◌≡◌, refl, is_some, List, [], ◌∷◌, ◌++◌, map, Option, none, some, codes, ok, returned,
  and_then, Delivers,
}
use rust_subprocess.OsCommon.{exited}
use rust_subprocess.Popen.State.{Popen, running}
use rust_subprocess.Popen.Streams.{Redirection, no_redirection, pipe, merge, file, rc_file}
use rust_subprocess.Builder.Exec.{
  Exec, PopenConfig, default_config, into_input, stdin, stdout, stderr, popen, set_once,
}
use rust_subprocess.Builder.Pipeline.{
  Pipeline, start_pipeline, prepare_cmds, share_stderr, set_first, set_last, start_all, start_rest,
  pipe_unless_last, pipeline_stdout, stderr_to,
}
use rust_subprocess.Builder.Pipeline.Calls.{Call, Creations, CreationLaws, plain, is_pipe}
use rust_subprocess.Builder.Session.{
  Session, creator, setup_communicate, capture, pipe_output, communicate_start, finish,
}
use rust_subprocess.Communicate.Communicator.{communicate}
use rust_subprocess.Communicate.Raw.{new}
use rust_subprocess.Builder.Session.Connecting.{Connected, InputLaws, setup_communicate-Connected}
use rust_subprocess.Builder.Session.Gathering.{GatheredAfter, setup_communicate-GatheredAfter}
use rust_subprocess.Builder.Session.Pipelines

record System : Type 0 where
  next : ℕ
  calls : List Call

abbrev end_for : Redirection → ℕ → Option ℕ
end_for pipe n = some n
end_for no_redirection n = none
end_for merge n = none
end_for (file f) n = none
end_for (rc_file f) n = none

ends : (r : Redirection) (n : ℕ) → is_some (end_for r n) ≡ is_pipe r
ends no_redirection n = refl
ends pipe n = refl
ends merge n = refl
ends (file f) n = refl
ends (rc_file f) n = refl

abbrev child : PopenConfig → ℕ → Popen
child config n = record {
  stdin = end_for config.stdin (n + 1);
  stdout = end_for config.stdout n;
  stderr = end_for config.stderr (n + 2);
  child_state = running n;
  detached = config.detached;
}

-- Every program writes "hi" and ends with the code 3.
abbrev system : Session
system = record {
  World = System;
  create = λ argv config w. (
    ok (child config w.next),
    record { next = w.next + 3; calls = w.calls ++ (argv, config, child config w.next) ∷ [] },
  );
  wait = λ p w. returned (ok (exited 3), p, w);
  drop = λ p w. returned w;
  read = λ c w.
      returned
        (ok (some (codes "hi"), elim c.inner.stderr [ none ↦ none | some f ↦ some [] ]), c, w);
  close = λ c w. w;
  file_read = λ f len w. (ok [], w);
  file_write = λ f buf w. (ok 0, w);
  file_flush = λ f w. (ok tt, w);
  file_close = λ f w. w;
  make_pipe = λ w. (ok (w.next, w.next + 1), record w { next = w.next + 2 });
}

abbrev creations : Creations (creator system)
creations = record { log = λ w. w.calls }

laws : CreationLaws creations
laws = record {
  replies = λ argv config w. (refl, ends config.stdin (w.next + 1), λ h. (w.next, rw h refl));
}

input_laws : InputLaws system
input_laws = record { replies = λ args config w. ends config.stdin (w.next + 1) }

abbrev ls : Exec
ls = record {
  command = codes "ls";
  args = codes "-l" ∷ [];
  config = default_config;
  stdin_data = none;
}

abbrev wc : Exec
wc = record { command = codes "wc"; args = []; config = default_config; stdin_data = none }

-- `wc` that is fed with "one".
abbrev fed : Exec
fed = record wc { config = record default_config { stdin = pipe }; stdin_data = some (codes "one") }

abbrev pipeline : Pipeline
pipeline = record {
  cmds = map plain (ls ∷ wc ∷ wc ∷ []);
  stdin = pipe;
  stdout = no_redirection;
  stderr_file = none;
  stdin_data = some (codes "one");
}

abbrev fresh : System
fresh = record { next = 3; calls = [] }

setup_communicate-Connected_example :
    Delivers (Connected system fed fresh) (setup_communicate system fed fresh)
setup_communicate-Connected_example = setup_communicate-Connected system input_laws fed fresh refl

setup_communicate-GatheredAfter_example :
    Delivers
      (GatheredAfter system creations pipeline (ls ∷ wc ∷ wc ∷ []) fresh)
      (Pipelines.setup_communicate system pipeline fresh)
unfolding into_input
setup_communicate-GatheredAfter_example =
    setup_communicate-GatheredAfter system creations laws pipeline ls wc (wc ∷ []) fresh refl refl
      refl

-- The output alone is piped, the process is waited for, and its code is the status.
captured :
    and_then (capture system ls fresh) (λ t. returned t.0)
    ≡ returned (ok (record { stdout = codes "hi"; stderr = []; exit_status = exited 3 }))
unfolding capture setup_communicate pipe_output stdout popen set_once communicate_start communicate
    new finish
captured = refl

-- The last program's code is the status.
pipeline_captured :
    and_then (Pipelines.capture system pipeline fresh) (λ t. returned t.0)
    ≡ returned (ok (record { stdout = codes "hi"; stderr = []; exit_status = exited 3 }))
unfolding Pipelines.capture Pipelines.setup_communicate Pipelines.start_with Pipelines.connect
    Pipelines.take_stdin Pipelines.take_stdout Pipelines.wait_last Pipelines.drop_all
    Pipelines.finish start_pipeline prepare_cmds share_stderr set_first set_last start_all
    start_rest pipe_unless_last pipeline_stdout stderr_to stdin stdout stderr popen set_once
    into_input communicate new
pipeline_captured = refl
