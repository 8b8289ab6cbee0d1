-- ===== src/Builder/Pipeline.antt =====
-- `Pipeline` of src/builder.rs: commands of which each reads what the one before it writes.
pub mod Calls
pub mod Starting
pub mod Linking
mod Tests
use rust_subprocess.Prelude.{
  ℕ, zero, suc, Bool, true, false, List, [], ◌∷◌, ◌++◌, Option, none, some, ltb, if◌then◌else◌,
  length, is_empty, Bytes, Result, ok, err, Run, returned, panicked, unfinished, and_then,
}
use rust_subprocess.Popen.State.{Popen, PopenError}
use rust_subprocess.Popen.Streams.{Redirection, no_redirection, pipe, merge, file, rc_file}
use rust_subprocess.Builder.Exec.{
  Exec, PopenConfig, InputRedirection, as_redirection, feed_data, into_input, Creator, popen, stdin,
  stdout, stderr,
}

pub record Pipeline : Type 0 where
  pub cmds : List Exec
  pub stdin : Redirection
  pub stdout : Redirection
  pub stderr_file : Option ℕ
  pub stdin_data : Option Bytes

unfoldable pub new : Exec → Exec → Pipeline
new cmd1 cmd2 = record {
  cmds = cmd1 ∷ cmd2 ∷ [];
  stdin = no_redirection;
  stdout = no_redirection;
  stderr_file = none;
  stdin_data = none;
}

unfoldable pub from_exec_iter : List Exec → Run Pipeline
from_exec_iter cmds =
    if ltb (length cmds) 2
    then panicked
    else returned (record {
      cmds = cmds;
      stdin = no_redirection;
      stdout = no_redirection;
      stderr_file = none;
      stdin_data = none;
    })

unfoldable pub pipeline_stdin : Pipeline → InputRedirection → Pipeline
pipeline_stdin p (as_redirection r) = record p { stdin = r }
pipeline_stdin p (feed_data bytes) = record p { stdin = pipe; stdin_data = some bytes }

unfoldable pub pipeline_stdout : Pipeline → Redirection → Pipeline
pipeline_stdout p r = record p { stdout = r }

unfoldable pub stderr_to : Pipeline → ℕ → Pipeline
stderr_to p to = record p { stderr_file = some to }

-- `pipeline | exec` and `pipeline | pipeline`
unfoldable pub bitor_exec : Pipeline → Exec → Pipeline
bitor_exec p rhs = record p { cmds = p.cmds ++ rhs ∷ [] }

unfoldable pub bitor : Pipeline → Pipeline → Pipeline
bitor p rhs = record p { cmds = p.cmds ++ rhs.cmds; stdout = rhs.stdout }

-- `cmd.stderr(Redirection::RcFile(...))` on each command, if there is a file.
unfoldable pub share_stderr : Option ℕ → List Exec → Run (List Exec)
share_stderr none cmds = returned cmds
share_stderr (some f) [] = returned []
share_stderr (some f) (c ∷ cmds) =
    and_then (stderr c (rc_file f))
      λ c'. and_then (share_stderr (some f) cmds) λ cmds'. returned (c' ∷ cmds')

-- `first_cmd.stdin(...)` and `last_cmd.stdout(...)`
unfoldable pub set_first : Redirection → List Exec → Run (List Exec)
set_first r [] = panicked
set_first r (c ∷ cmds) =
    and_then (into_input r) λ i. and_then (stdin c i) λ c'. returned (c' ∷ cmds)

unfoldable pub set_last : Redirection → List Exec → Run (List Exec)
set_last r [] = panicked
set_last r (c ∷ []) = and_then (stdout c r) λ c'. returned (c' ∷ [])
set_last r (c ∷ d ∷ cmds) = and_then (set_last r (d ∷ cmds)) λ cmds'. returned (c ∷ cmds')

-- What `popen` makes of the commands before it starts the first one.
unfoldable pub prepare_cmds : Pipeline → Run (List Exec)
prepare_cmds p =
    and_then (share_stderr p.stderr_file p.cmds)
      λ shared. and_then (set_first p.stdin shared) λ fed. set_last p.stdout fed

module _ (os : Creator) where
  open os use {World}

  abbrev pub Started : Type 0
  Started = Run (Result (List Popen) PopenError × World)

  -- `if idx != cnt - 1`
  unfoldable pub pipe_unless_last : List Exec → Exec → Run Exec
  pipe_unless_last [] runner = returned runner
  pipe_unless_last (c ∷ rest) runner = stdout runner pipe

  abbrev pub prepend : Popen → Result (List Popen) PopenError × World → Started
  prepend p (ok ps, w) = returned (ok (p ∷ ps), w)
  prepend p (err e, w) = returned (err e, w)

  -- The turns of the `for` behind the one that started `prev`, the last element of `ret`, whose output
  -- the next command takes.
  unfoldable pub start_rest : Popen → List Exec → World → Started
  start_rest prev [] w = returned (ok (prev ∷ []), w)
  start_rest prev (runner ∷ rest) w = elim prev.stdout [
    | none ↦ panicked
    | some prev_stdout ↦ and_then (stdin runner (as_redirection (file prev_stdout))) λ fed.
        and_then (pipe_unless_last rest fed) λ ready. and_then (popen os ready w) λ t. elim t.0 [
          | err e ↦ returned (err e, t.1)
          | ok p ↦ and_then (start_rest p rest t.1) (prepend (record prev { stdout = none }))
        ]
  ]

  unfoldable pub start_all : List Exec → World → Started
  start_all [] w = returned (ok [], w)
  start_all (runner ∷ rest) w = and_then (pipe_unless_last rest runner) λ ready.
      and_then (popen os ready w)
        λ t. elim t.0 [ err e ↦ returned (err e, t.1) | ok p ↦ start_rest p rest t.1 ]

  -- `Pipeline::popen`
  unfoldable pub start_pipeline : Pipeline → World → Started
  start_pipeline p w = elim p.stdin_data [
    | some bytes ↦ panicked
    | none ↦
        if ltb (length p.cmds) 2
        then panicked
        else and_then (prepare_cmds p) λ cmds. start_all cmds w
  ]
