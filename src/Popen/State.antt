-- ===== src/Popen/State.antt =====
-- `Popen`, `ChildState` and `PopenError` of src/popen.rs. A `File` is its descriptor.
use Prim.Native.String.{String}
use rust_subprocess.Prelude.{ℕ, Bool, Option, none, some, IoError}
use rust_subprocess.OsCommon.{ExitStatus}

pub data PopenError : Type 0 where
  io_error : IoError → PopenError
  logic_error : String → PopenError

pub data ChildState : Type 0 where
  preparing : ChildState
  running : ℕ → ChildState
  finished : ExitStatus → ChildState

pub record Popen : Type 0 where
  pub stdin : Option ℕ
  pub stdout : Option ℕ
  pub stderr : Option ℕ
  pub child_state : ChildState
  pub detached : Bool

-- `Popen::pid`
abbrev pub pid : Popen → Option ℕ
pid p = elim p.child_state [ running n ↦ some n | preparing ↦ none | finished status ↦ none ]

-- `Popen::exit_status`
abbrev pub exit_status : Popen → Option ExitStatus
exit_status p = elim p.child_state [
  | finished status ↦ some status
  | preparing ↦ none
  | running n ↦ none
]
