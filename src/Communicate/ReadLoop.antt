-- ===== src/Communicate/ReadLoop.antt =====
-- `RawCommunicator::read_into` and `read` of src/communicate.rs (Unix).
pub mod Invariant
pub mod Limit
pub mod Outputs
pub mod Answers
pub mod Progress
pub mod Measure
pub mod Termination
mod Tests
pub mod Carried
pub mod Statements
pub mod Transfer
pub mod Input
use rust_subprocess.Prelude.{
  ℕ, zero, suc, ◌+◌, Bool, true, false, not, ◌&&◌, ◌||◌, [], Option, none, some, if◌then◌else◌,
  length, Bytes, Result, ok, err, IoError, simple, timed_out, is_none, Run, returned, panicked,
  unfinished, and_then,
}
use mathlib.Core.Option
use rust_subprocess.Posix.Os.{Os}
use rust_subprocess.Communicate.Ready.{Ready, maybe_poll}
use rust_subprocess.Communicate.Raw.{
  RawCommunicator, Loop, Ending, Flow, next, leave, ◌>>=◌, limit_reached, feed_stdin, drain_stdout,
  drain_stderr,
}

-- The error of a deadline that has passed.
abbrev pub timeout_error : IoError
timeout_error = simple timed_out

-- The error and the two vectors that `read` returns, beside the state that it leaves.
pub record Capture : Type 0 where
  pub error : Option IoError
  pub stdout : Option Bytes
  pub stderr : Option Bytes

module _ (os : Os) where
  open os use {World}

  -- The use of the streams that are ready.
  unfoldable pub use_streams : Option ℕ → Ready → Loop os → Flow os
  use_streams size_limit ready l = do
    l1 ← if ready.in_ready then feed_stdin os l else next l
    l2 ← if ready.out_ready then drain_stdout os size_limit l1 else next l1
    if ready.err_ready then drain_stderr os size_limit l2 else next l2

  -- What `read_into` does with the answer of `maybe_poll`.
  unfoldable pub serve : Option ℕ → Loop os → Run (Result Ready IoError × World) → Flow os
  serve size_limit l panicked = leave panicked
  serve size_limit l unfinished = leave unfinished
  serve size_limit l (returned (err e, w)) = leave (returned (err e, record l { world = w }))
  serve size_limit l (returned (ok ready, w)) =
      if not ready.in_ready && not ready.out_ready && not ready.err_ready
      then leave (returned (err timeout_error, record l { world = w }))
      else use_streams size_limit ready (record l { world = w })

  -- One turn of the `loop`, its two `break`s left out.
  unfoldable pub turn : ℕ → Option ℕ → Option ℕ → Loop os → Flow os
  turn poll_fuel deadline size_limit l =
      serve size_limit l
        (maybe_poll os poll_fuel l.comm.stdin l.stdout_ref l.stderr_ref deadline l.world)

  -- The tests that end the loop: the limit is reached, or no stream remains.
  abbrev pub is_over : Option ℕ → Loop os → Bool
  is_over size_limit l =
      limit_reached size_limit (length l.outvec + length l.errvec)
      || (is_none l.comm.stdin && is_none l.stdout_ref && is_none l.stderr_ref)

  -- The `loop`; the first argument bounds its turns.
  unfoldable pub read_loop : ℕ → ℕ → Option ℕ → Option ℕ → Loop os → Run (Ending os)
  read_loop zero poll_fuel deadline size_limit l = unfinished
  read_loop (suc fuel) poll_fuel deadline size_limit l = elim (is_over size_limit l) [
    | true ↦ returned (ok tt, l)
    | false ↦ elim (turn poll_fuel deadline size_limit l) [
      | next l' ↦ read_loop fuel poll_fuel deadline size_limit l'
      | leave r ↦ r
    ]
  ]

  -- The loop from empty vectors, with the streams that the communicator holds.
  abbrev pub start : RawCommunicator → World → Loop os
  start comm w = record {
    comm = comm;
    stdout_ref = comm.stdout;
    stderr_ref = comm.stderr;
    outvec = [];
    errvec = [];
    world = w;
  }

  abbrev pub capture : Ending os → Capture × RawCommunicator × World
  capture (reply, l) = (
    record {
      error = elim reply [ ok _ ↦ none | err e ↦ some e ];
      stdout = Option.map (λ _. l.outvec) l.comm.stdout;
      stderr = Option.map (λ _. l.errvec) l.comm.stderr;
    },
    l.comm,
    l.world,
  )

  unfoldable pub read :
      ℕ
      → ℕ
      → Option ℕ
      → Option ℕ
      → RawCommunicator
      → World
      → Run (Capture × RawCommunicator × World)
  read fuel poll_fuel deadline size_limit comm w =
      and_then (read_loop fuel poll_fuel deadline size_limit (start comm w))
        λ ending. returned (capture ending)
