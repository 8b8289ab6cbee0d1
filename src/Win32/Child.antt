-- ===== src/Win32/Child.antt =====
-- The methods of `Popen` that wait for the child, end it and drop it, in src/popen.rs (Windows).
pub mod Truth
pub mod Steps
pub mod Sessions
pub mod Machine
mod Tests
use rust_subprocess.Prelude.{
  ℕ, Bool, true, false, not, Option, none, some, ◌==◌, if◌then◌else◌, Result, ok, err, ok_or,
  IoError, os_error, raw_os_error, pos, negsuc, Run, returned, panicked, unfinished, and_then,
}
use rust_subprocess.OsCommon.{ExitStatus, exited}
use rust_subprocess.Popen.State.{PopenError, io_error, logic_error}
use rust_subprocess.Win32.Calls.{
  WinOs, WaitEvent, object_0, wait_for_single_object, get_exit_code_process, terminate_process,
  still_active,
}

-- `Running` carries the pid and the handle of `ExtChildState`.
pub data ChildState : Type 0 where
  preparing : ChildState
  running : ℕ → ℕ → ChildState
  finished : ExitStatus → ChildState

pub record Popen : Type 0 where
  pub stdin : Option ℕ
  pub stdout : Option ℕ
  pub stderr : Option ℕ
  pub child_state : ChildState
  pub detached : Bool

-- `Popen::exit_status`
abbrev pub status_of : ChildState → Option ExitStatus
status_of preparing = none
status_of (running pid handle) = none
status_of (finished status) = some status

-- `err.raw_os_error() == Some(ERROR_ACCESS_DENIED as i32)`
abbrev pub is_access_denied : IoError → Bool
is_access_denied e = elim (raw_os_error e) [
  | none ↦ false
  | some code ↦ elim code [ pos n ↦ n == 5 | negsuc n ↦ false ]
]

-- What a method returns, and the object and the world that it leaves.
abbrev pub Reply : WinOs → Type 0 → Type 0 → Type 0
Reply os A E = Run (Result A E × Popen × os.World)

module _ (os : WinOs) where
  open os use {World}

  -- The status that the object has after a wait for the handle.
  unfoldable pub record_exit :
      ℕ
      → Popen
      → Result WaitEvent IoError × World
      → Result (Option ExitStatus) IoError × Popen × World
  record_exit handle p (err e, w) = (err e, p, w)
  record_exit handle p (ok object_0, w) =
      let (reply, w') = get_exit_code_process os handle w in
      elim reply [
        | err e ↦ (err e, p, w')
        | ok exit_code ↦ (
          ok (some (exited exit_code)),
          record p { child_state = finished (exited exit_code) },
          w',
        )
      ]
  record_exit handle p (ok _, w) = (ok (status_of p.child_state), p, w)

  -- `PopenOsImpl::wait_handle`; the first argument bounds the rounds of the wait.
  unfoldable pub wait_handle : ℕ → Option ℕ → Popen → World → Reply os (Option ExitStatus) IoError
  wait_handle fuel timeout p w = elim p.child_state [
    | preparing ↦ returned (ok none, p, w)
    | running pid handle ↦
        and_then (wait_for_single_object os fuel handle timeout w)
          λ t. returned (record_exit handle p t)
    | finished status ↦ returned (ok (some status), p, w)
  ]

  unfoldable pub os_wait : ℕ → Popen → World → Reply os ExitStatus PopenError
  os_wait fuel p w = and_then (wait_handle fuel none p w) λ t.
      let (reply, p', w') = t in
      elim reply [
        | err e ↦ returned (err (io_error e), p', w')
        | ok _ ↦ elim p'.child_state [
          | preparing ↦ panicked
          | finished status ↦ returned (ok status, p', w')
          | running pid handle ↦ returned (err (logic_error "Failed to obtain exit status"), p', w')
        ]
      ]

  unfoldable pub os_wait_timeout : ℕ → ℕ → Popen → World → Reply os (Option ExitStatus) PopenError
  os_wait_timeout fuel dur p w =
      let waited : Reply os (Option ExitStatus) PopenError =
        and_then (wait_handle fuel (some dur) p w) λ t.
          let (reply, p', w') = t in
          elim reply [
            | err e ↦ returned (err (io_error e), p', w')
            | ok _ ↦ returned (ok (status_of p'.child_state), p', w')
          ] in
      elim p.child_state [
        | finished status ↦ returned (ok (some status), p, w)
        | preparing ↦ waited
        | running pid handle ↦ waited
      ]

  -- `Popen::poll`
  unfoldable pub poll : ℕ → Popen → World → Run (Option ExitStatus × Popen × World)
  poll fuel p w = and_then (os_wait_timeout fuel 0 p w) λ t. returned (ok_or t.0 none, t.1, t.2)

  -- What follows a `TerminateProcess` that failed. The process may have ended by itself.
  unfoldable pub denied : ℕ → IoError → Popen → World → Result (Unit {0}) IoError × Popen × World
  denied handle e p w =
      if not (is_access_denied e)
      then (err e, p, w)
      else let (reply, w') = get_exit_code_process os handle w in
        elim reply [
          | err other ↦ (err other, p, w')
          | ok rc ↦
              if rc == still_active
              then (err e, p, w')
              else (ok tt, record p { child_state = finished (exited rc) }, w')
        ]

  unfoldable pub os_terminate : Popen → World → Result (Unit {0}) IoError × Popen × World
  os_terminate p w = elim p.child_state [
    | preparing ↦ (ok tt, p, w)
    | running pid handle ↦
        let (reply, w') = terminate_process os handle 1 w in
        elim reply [ ok _ ↦ (ok tt, p, w') | err e ↦ denied handle e p w' ]
    | finished status ↦ (ok tt, p, w)
  ]

  unfoldable pub os_kill : Popen → World → Result (Unit {0}) IoError × Popen × World
  os_kill p w = os_terminate p w

  -- `Drop::drop`
  unfoldable pub drop : ℕ → Popen → World → Run World
  drop fuel p w = elim p.child_state [
    | running pid handle ↦
        let waited = and_then (os_wait fuel p w) λ t. returned t.2 in
        if p.detached then returned w else waited
    | preparing ↦ returned w
    | finished status ↦ returned w
  ]
