-- ===== src/Win32/Child/Sessions.antt =====
-- Calls of the methods of `Popen` on Windows (src/popen.rs), one after another.
use rust_subprocess.Prelude.{
  ℕ, ◌≡◌, refl, subst, Option, Result, IoError, returned, Gives, and_then-Gives,
}
use rust_subprocess.OsCommon.{ExitStatus}
use rust_subprocess.Popen.State.{PopenError}
use rust_subprocess.Win32.Calls.{WinOs}
use rust_subprocess.Win32.Child.{
  Popen, running, os_wait, os_wait_timeout, poll, os_terminate, os_kill,
}
use rust_subprocess.Win32.Child.Truth.{
  Processes, Later, ProcessLaws, IsTrue, After, TrueState-Later,
}
use rust_subprocess.Win32.Child.Steps.{os_wait-True, os_wait_timeout-True, os_terminate-True}

module _ {os : WinOs} (processes : Processes os) (laws : ProcessLaws processes) (handle : ℕ) where
  open os use {World}
  open processes use {exit_of}

  abbrev True : Popen → World → Type 0
  True p w = IsTrue processes handle p w

  abbrev TrueAfter : {A E : Type 0} → Result A E × Popen × World → Type 0
  TrueAfter t = After processes handle t

  -- A step of the program or of the world around it.
  pub data Step (p : Popen) (w : World) (p' : Popen) (w' : World) : Type 0 where
    waits :
        (fuel : ℕ) (reply : Result ExitStatus PopenError)
        → os_wait os fuel p w ≡ returned (reply, p', w')
        → Step p w p' w'
    waits_for :
        (fuel dur : ℕ) (reply : Result (Option ExitStatus) PopenError)
        → os_wait_timeout os fuel dur p w ≡ returned (reply, p', w')
        → Step p w p' w'
    polls :
        (fuel : ℕ) (status : Option ExitStatus)
        → poll os fuel p w ≡ returned (status, p', w')
        → Step p w p' w'
    terminates :
        (reply : Result (Unit {0}) IoError) → os_terminate os p w ≡ (reply, p', w') → Step p w p' w'
    kills : (reply : Result (Unit {0}) IoError) → os_kill os p w ≡ (reply, p', w') → Step p w p' w'
    passes : p' ≡ p → Later processes w w' → Step p w p' w'

  pub data Reach (p : Popen) (w : World) : Popen → World → Type 0 where
    here : Reach p w p w
    next : {p1 p2 : Popen} {w1 w2 : World} → Reach p w p1 w1 → Step p1 w1 p2 w2 → Reach p w p2 w2

  Step-True : (p p' : Popen) (w w' : World) → Step p w p' w' → True p w → True p' w'
  unfolding poll os_kill
  Step-True p p' w w' (waits fuel reply e) h =
      subst (Gives TrueAfter) e (os_wait-True processes laws handle fuel p w h)
  Step-True p p' w w' (waits_for fuel dur reply e) h =
      subst (Gives TrueAfter) e (os_wait_timeout-True processes laws handle fuel dur p w h)
  Step-True p p' w w' (polls fuel status e) h = subst (Gives (λ t. True t.1 t.2)) e (
      and_then-Gives TrueAfter (λ t. True t.1 t.2) (os_wait_timeout os fuel 0 p w) _
        (os_wait_timeout-True processes laws handle fuel 0 p w h) (λ t k. k))
  Step-True p p' w w' (terminates reply e) h =
      subst TrueAfter e (os_terminate-True processes laws handle p w h)
  Step-True p p' w w' (kills reply e) h =
      subst TrueAfter e (os_terminate-True processes laws handle p w h)
  Step-True p p' w w' (passes e later) h =
      rw e (TrueState-Later processes laws handle p.child_state w w' later h)

  -- If the Windows API keeps its promises on the processes, which stay ended: after any calls of
  -- `wait`, `wait_timeout`, `poll`, `terminate` and `kill` that return, in any order and with the
  -- process ending at any time between them, an object that was started with a handle still runs
  -- with this handle, or it has the exit status with which that process has ended.
  pub Reach-IsTrue :
      (p : Popen) (w : World) (pid : ℕ)
      → p.child_state ≡ running pid handle
      → (p' : Popen) (w' : World) → Reach p w p' w'
      → IsTrue processes handle p' w'
  Reach-IsTrue p w pid e p' w' r = reached r
    where
      reached : {q : Popen} {v : World} → Reach p w q v → True q v
      reached here = rw e refl
      reached (next {p1} {p2} {w1} {w2} r step) = Step-True p1 p2 w1 w2 step (reached r)
