-- ===== src/Builder/Session.antt =====
-- `join`, the stream adapters, `communicate` and `capture` of `Exec`, in src/builder.rs, and what of
-- `Popen` in src/popen.rs they stand on. What they call of a process and a communicator is the record
-- `Session`. Values are dropped in the order of the code.
pub mod Connecting
pub mod Gathering
pub mod Pipelines
mod Tests
use rust_subprocess.Prelude.{
  ℕ, Bool, true, false, List, [], ◌∷◌, Option, none, some, Bytes, Result, ok, err, IoError,
  unwrap_or, Run, returned, panicked, and_then,
}
use rust_subprocess.OsCommon.{ExitStatus, success}
use rust_subprocess.Popen.State.{Popen, PopenError, io_error}
use rust_subprocess.Popen.Streams.{Redirection, no_redirection, pipe}
use rust_subprocess.Communicate.Communicator.{Communicator, Outputs, CommunicateError, communicate}
use rust_subprocess.Builder.Exec.{
  Exec, PopenConfig, Creator, as_redirection, popen, stdin, stdout, stderr, detached,
}

-- What the builders call: `Popen::create`, `wait` and the drop of a `Popen`, `read` and the drop of a
-- `Communicator`, and the methods of `File`.
pub record Session : Type 1 where
  pub World : Type 0
  pub create : List Bytes → PopenConfig → World → Result Popen PopenError × World
  pub wait : Popen → World → Run (Result ExitStatus PopenError × Popen × World)
  pub drop : Popen → World → Run World
  pub read : Communicator → World → Run (Result Outputs CommunicateError × Communicator × World)
  pub close : Communicator → World → World
  pub file_read : ℕ → ℕ → World → Result Bytes IoError × World
  pub file_write : ℕ → Bytes → World → Result ℕ IoError × World
  pub file_flush : ℕ → World → Result (Unit {0}) IoError × World
  pub file_close : ℕ → World → World
  pub make_pipe : World → Result (ℕ × ℕ) IoError × World

abbrev pub creator : Session → Creator
creator s = record { World = s.World; create = s.create }

pub record CaptureData : Type 0 where
  pub stdout : Bytes
  pub stderr : Bytes
  pub exit_status : ExitStatus

-- `CaptureData::success`
pub capture_success : CaptureData → Bool
capture_success c = success c.exit_status

-- `Popen::communicate_start`, with the object that it leaves.
unfoldable pub communicate_start : Popen → Option Bytes → Run (Communicator × Popen)
communicate_start p input_data =
    and_then (communicate p.stdin p.stdout p.stderr input_data)
      λ c. returned (c, record p { stdin = none; stdout = none; stderr = none })

-- A method that panics, or fails with an error, or returns.
abbrev pub Attempt : Session → Type 0 → Type 0
Attempt s A = Run (Result A PopenError × s.World)

abbrev pub checked_data : {A : Type 0} → Exec → Run A → Run A
checked_data e r = elim e.stdin_data [ none ↦ r | some input ↦ panicked ]

abbrev pub attempt :
    {W A B : Type 0}
    → Run (Result A PopenError × W)
    → (A → W → Run (Result B PopenError × W))
    → Run (Result B PopenError × W)
attempt r f = and_then r λ t. elim t.0 [ err e ↦ returned (err e, t.1) | ok a ↦ f a t.1 ]

-- The output is piped if neither output is redirected.
unfoldable pub pipe_output : Exec → Run Exec
pipe_output e = elim e.config.stdout [
  | no_redirection ↦ elim e.config.stderr [ no_redirection ↦ stdout e pipe | _ ↦ returned e ]
  | _ ↦ returned e
]

module _ (s : Session) where
  open s use {World, wait, drop, read, close, file_read, file_write, file_flush, file_close}

  unfoldable pub join : Exec → World → Attempt s ExitStatus
  join e w = checked_data e (
      attempt (popen (creator s) e w)
        λ p w1. and_then (wait p w1) λ t. and_then (drop t.1 t.2) λ w2. returned (t.0, w2))

  -- `Popen::communicate_bytes`, the communicator being dropped at its end.
  unfoldable pub communicate_bytes :
      Popen → Option Bytes → World → Run (Result Outputs IoError × Popen × World)
  communicate_bytes p input_data w = and_then (communicate_start p input_data) λ t.
      and_then (read t.0 w)
        λ r. returned (elim r.0 [ ok o ↦ ok o | err e ↦ err e.error ], t.1, close r.1 r.2)

  -- The adapters hold the `Popen`.
  unfoldable pub stream_stdout : Exec → World → Attempt s Popen
  stream_stdout e w = checked_data e (and_then (stdout e pipe) λ e'. popen (creator s) e' w)

  unfoldable pub stream_stderr : Exec → World → Attempt s Popen
  stream_stderr e w = checked_data e (and_then (stderr e pipe) λ e'. popen (creator s) e' w)

  unfoldable pub stream_stdin : Exec → World → Attempt s Popen
  stream_stdin e w =
      checked_data e (and_then (stdin e (as_redirection pipe)) λ e'. popen (creator s) e' w)

  unfoldable pub read_out : Popen → ℕ → World → Run (Result Bytes IoError × World)
  read_out p len w = elim p.stdout [ none ↦ panicked | some f ↦ returned (file_read f len w) ]

  unfoldable pub read_err : Popen → ℕ → World → Run (Result Bytes IoError × World)
  read_err p len w = elim p.stderr [ none ↦ panicked | some f ↦ returned (file_read f len w) ]

  unfoldable pub write_in : Popen → Bytes → World → Run (Result ℕ IoError × World)
  write_in p buf w = elim p.stdin [ none ↦ panicked | some f ↦ returned (file_write f buf w) ]

  unfoldable pub flush_in : Popen → World → Run (Result (Unit {0}) IoError × World)
  flush_in p w = elim p.stdin [ none ↦ panicked | some f ↦ returned (file_flush f w) ]

  -- The end of a `WriteAdapter`: its own `drop`, then that of the `Popen` in it.
  unfoldable pub drop_writer : Popen → World → Run World
  drop_writer p w =
      drop (record p { stdin = none }) (elim p.stdin [ none ↦ w | some f ↦ file_close f w ])

  unfoldable pub setup_communicate : Exec → World → Attempt s (Communicator × Popen)
  setup_communicate e w = and_then (pipe_output (record e { stdin_data = none })) λ e'.
      attempt (popen (creator s) e' w)
        λ p w1. and_then (communicate_start p e.stdin_data) λ t. returned (ok t, w1)

  -- `communicate`; the `Popen` is dropped.
  unfoldable pub exec_communicate : Exec → World → Attempt s Communicator
  exec_communicate e w =
      attempt (setup_communicate (detached e) w)
        λ t w1. and_then (drop t.1 w1) λ w2. returned (ok t.0, w2)

  -- The end of `capture`: the `Popen` is dropped before the `Communicator`.
  unfoldable pub finish :
      Result CaptureData PopenError → Communicator → Popen → World → Attempt s CaptureData
  finish reply c p w = and_then (drop p w) λ w1. returned (reply, close c w1)

  unfoldable pub capture : Exec → World → Attempt s CaptureData
  capture e w = attempt (setup_communicate e w) λ t w1. and_then (read t.0 w1) λ r. elim r.0 [
    | err e ↦ finish (err (io_error e.error)) r.1 t.1 r.2
    | ok outputs ↦ and_then (wait t.1 r.2) λ x. elim x.0 [
      | err e ↦ finish (err e) r.1 x.1 x.2
      | ok status ↦
          finish
            (ok (record {
              stdout = unwrap_or outputs.0 [];
              stderr = unwrap_or outputs.1 [];
              exit_status = status;
            }))
            r.1 x.1 x.2
    ]
  ]
