-- ===== src/Popen/Child.antt =====
-- The methods of `Popen` by which the parent waits for the child, signals it and drops it
-- (src/popen.rs, Unix).
mod Tests
pub mod Waiting
pub mod Blocking
pub mod Signals
use rust_subprocess.Prelude.{
  ℕ, zero, suc, ◌+◌, ◌-◌, ◌*◌, min, Bool, true, false, Option, none, some, ◌==◌, leb, if◌then◌else◌,
  Result, ok, err, ok_or, IoError, Run, returned, panicked, unfinished, and_then,
}
use rust_subprocess.OsCommon.{ExitStatus, undetermined}
use rust_subprocess.Posix.Process.{ProcessOs, wait_pid, is_echild}
use rust_subprocess.Popen.State.{PopenError, io_error, Popen, preparing, running, finished}

-- What a method returns, and the object and the world that it leaves.
abbrev pub Reply : ProcessOs → Type 0 → Type 0 → Type 0
Reply os A E = Run (Result A E × Popen × os.World)

module _ (os : ProcessOs) where
  open os use {World, now, latest, sleep, sys_kill}

  -- `PopenOsImpl::waitpid`
  unfoldable pub waitpid : Bool → Popen → World → Reply os (Unit {0}) IoError
  waitpid block p w = elim p.child_state [
    | preparing ↦ panicked
    | running pid ↦
        let (reply, w') = wait_pid os pid block w in
        elim reply [
          | err e ↦
              if is_echild os e
              then returned (ok tt, record p { child_state = finished undetermined }, w')
              else returned (err e, p, w')
          | ok (pid_out, status) ↦
              if pid_out == pid
              then returned (ok tt, record p { child_state = finished status }, w')
              else returned (ok tt, p, w')
        ]
    | finished status ↦ returned (ok tt, p, w)
  ]

  -- `while let Running`; the first argument bounds its rounds. Behind it stands `unwrap` of the exit
  -- status.
  unfoldable pub os_wait : ℕ → Popen → World → Reply os ExitStatus PopenError
  os_wait zero p w = unfinished
  os_wait (suc fuel) p w = elim p.child_state [
    | preparing ↦ panicked
    | running pid ↦ and_then (waitpid true p w) λ t.
        let (reply, p', w') = t in
        elim reply [ err e ↦ returned (err (io_error e), p', w') | ok _ ↦ os_wait fuel p' w' ]
    | finished status ↦ returned (ok status, p, w)
  ]

  -- The `loop` of `os_wait_timeout`: a look at the child, then a sleep that doubles up to 100 ms. The
  -- first argument bounds the rounds.
  unfoldable pub wait_loop : ℕ → ℕ → ℕ → Popen → World → Reply os (Option ExitStatus) PopenError
  wait_loop zero deadline delay p w = unfinished
  wait_loop (suc fuel) deadline delay p w = and_then (waitpid false p w) λ t.
      let (reply, p', w') = t in
      elim reply [
        | err e ↦ returned (err (io_error e), p', w')
        | ok _ ↦
            let again =
              wait_loop fuel deadline (min (delay * 2) 100_000_000) p'
                (sleep (min delay (deadline - now w')) w') in
            let no_status = if leb deadline (now w') then returned (ok none, p', w') else again in
            elim p'.child_state [
              | finished status ↦ returned (ok (some status), p', w')
              | preparing ↦ no_status
              | running pid ↦ no_status
            ]
      ]

  unfoldable pub os_wait_timeout : ℕ → ℕ → Popen → World → Reply os (Option ExitStatus) PopenError
  os_wait_timeout fuel dur p w =
      let waited =
        if leb dur (latest - now w) then wait_loop fuel (now w + dur) 1_000_000 p w else panicked in
      elim p.child_state [
        | finished status ↦ returned (ok (some status), p, w)
        | preparing ↦ waited
        | running pid ↦ waited
      ]

  -- `Popen::poll`
  unfoldable pub poll : ℕ → Popen → World → Run (Option ExitStatus × Popen × World)
  poll fuel p w = and_then (os_wait_timeout fuel 0 p w) λ t. returned (ok_or t.0 none, t.1, t.2)

  unfoldable pub send_signal : ℕ → Popen → World → Run (Result (Unit {0}) IoError × World)
  send_signal signal p w = elim p.child_state [
    | preparing ↦ panicked
    | running pid ↦ returned (sys_kill pid signal w)
    | finished status ↦ returned (ok tt, w)
  ]

  -- `os_terminate` and `os_kill`
  unfoldable pub terminate : Popen → World → Run (Result (Unit {0}) IoError × World)
  terminate p w = send_signal os.sigterm p w

  unfoldable pub kill : Popen → World → Run (Result (Unit {0}) IoError × World)
  kill p w = send_signal os.sigkill p w

  unfoldable pub detach : Popen → Popen
  detach p = record p { detached = true }

  -- `Drop::drop`: wait for a child that still runs, unless it was detached.
  unfoldable pub drop : ℕ → Popen → World → Run World
  drop fuel p w = elim p.child_state [
    | running pid ↦
        let waited = and_then (os_wait fuel p w) λ t. returned t.2 in
        if p.detached then returned w else waited
    | preparing ↦ returned w
    | finished status ↦ returned w
  ]
