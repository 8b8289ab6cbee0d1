-- ===== src/Communicate/Communicator.antt =====
-- `Communicator`, `communicate` and `CommunicateError` of src/communicate.rs.
mod Tests
pub mod Capturing
use rust_subprocess.Prelude.{
  ℕ, ◌+◌, Bool, true, false, Option, none, some, Bytes, Result, ok, err, IoError, Run, returned,
  panicked, unfinished, and_then, deadline_at,
}
use rust_subprocess.Posix.Os.{Os}
use rust_subprocess.Communicate.Raw.{RawCommunicator, new}
use rust_subprocess.Communicate.ReadLoop.{Capture}
use rust_subprocess.Communicate.ReadLoop

pub record Communicator : Type 0 where
  pub inner : RawCommunicator
  pub size_limit : Option ℕ
  pub time_limit : Option ℕ

-- The bytes of the two outputs.
abbrev pub Outputs : Type 0
Outputs = Option Bytes × Option Bytes

pub record CommunicateError : Type 0 where
  pub error : IoError
  pub capture : Outputs

-- `communicate` with `Communicator::new`: input data exactly for a redirected standard input.
unfoldable pub communicate : Option ℕ → Option ℕ → Option ℕ → Option Bytes → Run Communicator
communicate (some stdin) stdout stderr none = panicked
communicate none stdout stderr (some input_data) = panicked
communicate stdin stdout stderr input_data =
    returned
      (record { inner = new stdin stdout stderr input_data; size_limit = none; time_limit = none })

unfoldable pub limit_size : Communicator → ℕ → Communicator
limit_size c size = record c { size_limit = some size }

unfoldable pub limit_time : Communicator → ℕ → Communicator
limit_time c time = record c { time_limit = some time }

-- `match self.inner.read(...)`
abbrev pub outcome : Capture → Result Outputs CommunicateError
outcome c = elim c.error [
  | none ↦ ok (c.stdout, c.stderr)
  | some e ↦ err (record { error = e; capture = (c.stdout, c.stderr) })
]

module _ (os : Os) where
  open os use {World, now, latest}

  -- `Communicator::read`
  unfoldable pub read :
      ℕ → ℕ → Communicator → World → Run (Result Outputs CommunicateError × Communicator × World)
  read fuel poll_fuel c w = and_then (deadline_at latest (now w) c.time_limit) λ deadline.
      and_then (ReadLoop.read os fuel poll_fuel deadline c.size_limit c.inner w)
        λ t. returned (outcome t.0, record c { inner = t.1 }, t.2)
