-- ===== src/Builder/Session/Pipelines.antt =====
-- `join`, the stream adapters, `communicate` and `capture` of `Pipeline`, in src/builder.rs. Where a
-- command of a pipeline cannot be started, the drop of those before it is not modelled.
use rust_subprocess.Prelude.{
  ℕ, List, [], ◌∷◌, map, Option, none, some, Bytes, Result, ok, err, IoError, unwrap_or, Run,
  returned, panicked, and_then, ltb, length, if◌then◌else◌,
}
use rust_subprocess.OsCommon.{ExitStatus}
use rust_subprocess.Popen.State.{Popen, PopenError, io_error}
use rust_subprocess.Popen.Streams.{pipe}
use rust_subprocess.Communicate.Communicator.{Communicator, communicate}
use rust_subprocess.Builder.Exec.{as_redirection, detached}
use rust_subprocess.Builder.Pipeline.{
  Pipeline, start_pipeline, pipeline_stdin, pipeline_stdout, stderr_to,
}
use rust_subprocess.Builder.Session.{Session, creator, CaptureData, Attempt, attempt}

abbrev checked_data : {A : Type 0} → Pipeline → Run A → Run A
checked_data p r = elim p.stdin_data [ none ↦ r | some input ↦ panicked ]

-- `v[0].stdin.take()`
unfoldable pub take_stdin : List Popen → Run (Option ℕ × List Popen)
take_stdin [] = panicked
take_stdin (p ∷ ps) = returned (p.stdin, record p { stdin = none } ∷ ps)

-- `v[vlen - 1].stdout.take()`
unfoldable pub take_stdout : List Popen → Run (Option ℕ × List Popen)
take_stdout [] = panicked
take_stdout (p ∷ []) = returned (p.stdout, record p { stdout = none } ∷ [])
take_stdout (p ∷ q ∷ ps) = and_then (take_stdout (q ∷ ps)) λ t. returned (t.0, p ∷ t.1)

module _ (s : Session) where
  open s use {
    World, wait, drop, read, close, file_read, file_write, file_flush, file_close, make_pipe,
  }

  -- The elements of a `Vec` are dropped in their order.
  unfoldable pub drop_all : List Popen → World → Run World
  drop_all [] w = returned w
  drop_all (p ∷ ps) w = and_then (drop p w) (drop_all ps)

  -- `wait` of the last element.
  unfoldable pub wait_last :
      List Popen → World → Run (Result ExitStatus PopenError × List Popen × World)
  wait_last [] w = panicked
  wait_last (p ∷ []) w = and_then (wait p w) λ t. returned (t.0, t.1 ∷ [], t.2)
  wait_last (p ∷ q ∷ ps) w = and_then (wait_last (q ∷ ps) w) λ t. returned (t.0, p ∷ t.1, t.2)

  unfoldable pub join : Pipeline → World → Attempt s ExitStatus
  join p w = checked_data p (
      attempt (start_pipeline (creator s) p w)
        λ v w1. and_then (wait_last v w1) λ t. and_then (drop_all t.1 t.2) λ w2. returned (t.0, w2))

  -- The adapters hold the `Vec`.
  unfoldable pub stream_stdout : Pipeline → World → Attempt s (List Popen)
  stream_stdout p w = checked_data p (start_pipeline (creator s) (pipeline_stdout p pipe) w)

  unfoldable pub stream_stdin : Pipeline → World → Attempt s (List Popen)
  stream_stdin p w =
      checked_data p (start_pipeline (creator s) (pipeline_stdin p (as_redirection pipe)) w)

  unfoldable pub read_out : List Popen → ℕ → World → Run (Result Bytes IoError × World)
  read_out v len w =
      and_then (take_stdout v)
        λ t. elim t.0 [ none ↦ panicked | some f ↦ returned (file_read f len w) ]

  -- `WritePipelineAdapter::stdin`
  unfoldable pub writer_stdin : List Popen → Run ℕ
  writer_stdin v = and_then (take_stdin v) λ t. elim t.0 [ none ↦ panicked | some f ↦ returned f ]

  unfoldable pub write_in : List Popen → Bytes → World → Run (Result ℕ IoError × World)
  write_in v buf w = and_then (writer_stdin v) λ f. returned (file_write f buf w)

  unfoldable pub flush_in : List Popen → World → Run (Result (Unit {0}) IoError × World)
  flush_in v w = and_then (writer_stdin v) λ f. returned (file_flush f w)

  -- The end of a `WritePipelineAdapter`: its own `drop`, then that of the `Vec` in it.
  unfoldable pub drop_writer : List Popen → World → Run World
  drop_writer v w =
      and_then (take_stdin v) λ t. drop_all t.1 (elim t.0 [ none ↦ w | some f ↦ file_close f w ])

  -- The processes with the first one's input and the last one's output, which go to the communicator.
  unfoldable pub connect :
      ℕ → Option Bytes → List Popen → World → Attempt s (Communicator × List Popen)
  connect err_read stdin_data v w = and_then (take_stdin v) λ i.
      and_then (take_stdout i.1) λ o.
        and_then (communicate i.0 o.0 (some err_read) stdin_data) λ c. returned (ok (c, o.1), w)

  -- An error of the start drops the end of the pipe that is read.
  unfoldable pub start_with : ℕ × ℕ → Pipeline → World → Attempt s (Communicator × List Popen)
  start_with (err_read, err_write) p w =
      let p' = pipeline_stdout (record (stderr_to p err_write) { stdin_data = none }) pipe in
      and_then (start_pipeline (creator s) p' w) λ t. elim t.0 [
        | err e ↦ returned (err e, file_close err_read t.1)
        | ok v ↦ connect err_read p.stdin_data v t.1
      ]

  unfoldable pub setup_communicate : Pipeline → World → Attempt s (Communicator × List Popen)
  setup_communicate p w =
      if ltb (length p.cmds) 2
      then panicked
      else (let ends = make_pipe w in
          elim ends.0 [
            | err e ↦ returned (err (io_error e), ends.1)
            | ok ends' ↦ start_with ends' p ends.1
          ])

  -- `communicate`; the processes are dropped.
  unfoldable pub pipeline_communicate : Pipeline → World → Attempt s Communicator
  pipeline_communicate p w =
      attempt (setup_communicate (record p { cmds = map detached p.cmds }) w)
        λ t w1. and_then (drop_all t.1 w1) λ w2. returned (ok t.0, w2)

  -- The end of `capture`: the processes are dropped before the `Communicator`.
  unfoldable pub finish :
      Result CaptureData PopenError → Communicator → List Popen → World → Attempt s CaptureData
  finish reply c v w = and_then (drop_all v w) λ w1. returned (reply, close c w1)

  unfoldable pub capture : Pipeline → World → Attempt s CaptureData
  capture p w = attempt (setup_communicate p w) λ t w1. and_then (read t.0 w1) λ r. elim r.0 [
    | err e ↦ finish (err (io_error e.error)) r.1 t.1 r.2
    | ok (out, none) ↦ panicked
    | ok (out, some errors) ↦ and_then (wait_last t.1 r.2) λ x. elim x.0 [
      | err e ↦ finish (err e) r.1 x.1 x.2
      | ok status ↦
          finish (ok (record { stdout = unwrap_or out []; stderr = errors; exit_status = status }))
            r.1 x.1 x.2
    ]
  ]
