-- ===== src/Popen/Child/Signals.antt =====
-- `send_signal` of src/popen.rs after any other methods.
use rust_subprocess.Prelude.{
  ℕ, zero, suc, ◌+◌, ◌-◌, ◌*◌, ◌≡◌, subst, ◌⊎◌, refl, min, Bool, true, false, Option, arith, ◌==◌,
  inl, inr, Result, ok, err, IoError, Run, returned, Gives, and_then-Gives, ℤ,
}
use rust_subprocess.OsCommon.{ExitStatus}
use rust_subprocess.Posix.Process.{ProcessOs, wait_pid, is_echild}
use rust_subprocess.Popen.State.{
  PopenError, io_error, Popen, ChildState, preparing, running, finished,
}
use rust_subprocess.Popen.Child.Waiting.{State-cases}
use rust_subprocess.Popen.Child.{
  Reply, waitpid, os_wait, wait_loop, os_wait_timeout, poll, send_signal, detach,
}

-- `unreaped pid w`: nobody has waited for the child of that pid, which so is no other process's. A
-- wait changes that only for the pid that it returns, or with ECHILD.
pub record Reaping (os : ProcessOs) : Type 0 where
  pub unreaped : ℕ → os.World → Bool

module _ {os : ProcessOs} (r : Reaping os) where
  open os use {World}
  open r use {unreaped}

  abbrev pub StillThere : ℕ → Result (ℕ × ℤ) IoError × World → Type 0
  StillThere pid (ok (pid_out, status), w') = (pid_out == pid) ≡ false → unreaped pid w' ≡ true
  StillThere pid (err e, w') = is_echild os e ≡ false → unreaped pid w' ≡ true

  pub record ReapingLaws : Type 0 where
    pub wait_reaps :
        (pid : ℕ) (block : Bool) (w : World)
        → unreaped pid w ≡ true
        → StillThere pid (os.sys_waitpid pid block w)
    pub sleep_keeps :
        (pid d : ℕ) (w : World) → unreaped pid w ≡ true → unreaped pid (os.sleep d w) ≡ true
    pub kill_keeps :
        (pid other signal : ℕ) (w : World)
        → unreaped pid w ≡ true
        → unreaped pid (os.sys_kill other signal w).1 ≡ true

  -- The object has a child, and if it says that this runs, nobody has waited for it.
  abbrev pub Owns : Popen → World → Type 0
  Owns p w = elim p.child_state [
    | preparing ↦ ⊥
    | running pid ↦ unreaped pid w ≡ true
    | finished status ↦ Unit
  ]

  abbrev OwnsAfter : {A E : Type 0} → Result A E × Popen × World → Type 0
  OwnsAfter (reply, p', w') = Owns p' w'

  module _ (laws : ReapingLaws) where
    waitpid-Owns :
        (block : Bool) (p : Popen) (w : World) → Owns p w → Gives OwnsAfter (waitpid os block p w)
    unfolding waitpid wait_pid
    waitpid-Owns block p w owns = at p.child_state refl
      where
        at : (s : ChildState) → p.child_state ≡ s → Gives OwnsAfter (waitpid os block p w)
        at preparing e = absurd (ground (arith, e, owns))
        at (running pid) e = ground (arith, e, owns, laws.wait_reaps pid block w)
        at (finished status) e = ground (arith, e)

    Owns-sleep : (p : Popen) (d : ℕ) (w : World) → Owns p w → Owns p (os.sleep d w)
    Owns-sleep p d w owns = elim (State-cases p.child_state) [
      | inl e ↦ absurd (ground (arith, e, owns))
      | inr (inl (pid, e)) ↦ ground (arith, e, owns, laws.sleep_keeps pid d w)
      | inr (inr (status, e)) ↦ ground (arith, e)
    ]

    -- Behind the call of waitpid(2), if the later rounds keep the object.
    waited_once :
        (fuel : ℕ) (t : Result (Unit {0}) IoError × Popen × World)
        → OwnsAfter t
        → Gives OwnsAfter (os_wait os fuel t.1 t.2)
        → Gives OwnsAfter (elim t.0 as (λ _. Reply os ExitStatus PopenError) [
          | err e ↦ returned (err (io_error e), t.1, t.2)
          | ok _ ↦ os_wait os fuel t.1 t.2
        ])
    waited_once fuel (ok u, p, w) own again = again
    waited_once fuel (err e, p, w) own again = own

    os_wait-Owns :
        (fuel : ℕ) (p : Popen) (w : World) → Owns p w → Gives OwnsAfter (os_wait os fuel p w)
    unfolding os_wait
    os_wait-Owns zero p w owns = tt
    os_wait-Owns (suc fuel) p w owns =
        let goes_on =
          and_then-Gives OwnsAfter OwnsAfter (waitpid os true p w)
            (λ t. elim t.0 as (λ _. Reply os ExitStatus PopenError) [
              | err e ↦ returned (err (io_error e), t.1, t.2)
              | ok _ ↦ os_wait os fuel t.1 t.2
            ])
            (waitpid-Owns true p w owns)
            λ t own. waited_once fuel t own (os_wait-Owns fuel t.1 t.2 own) in
        elim (State-cases p.child_state) [
          | inl e ↦ absurd (ground (arith, e, owns))
          | inr (inl (pid, e)) ↦ ground (arith, e, goes_on)
          | inr (inr (status, e)) ↦ ground (arith, e)
        ]

    wait_loop-Owns :
        (fuel deadline delay : ℕ) (p : Popen) (w : World)
        → Owns p w
        → Gives OwnsAfter (wait_loop os fuel deadline delay p w)
    unfolding wait_loop
    wait_loop-Owns zero deadline delay p w owns = tt
    wait_loop-Owns (suc fuel) deadline delay p w owns =
        and_then-Gives OwnsAfter OwnsAfter (waitpid os false p w) _ (waitpid-Owns false p w owns)
          λ t own.
            let d = min delay (deadline - os.now t.2) in
            ground (
              arith,
              own,
              wait_loop-Owns fuel deadline (min (delay * 2) 100_000_000) t.1 (os.sleep d t.2)
                  (Owns-sleep t.1 d t.2 own),
            )

    os_wait_timeout-Owns :
        (fuel dur : ℕ) (p : Popen) (w : World)
        → Owns p w
        → Gives OwnsAfter (os_wait_timeout os fuel dur p w)
    unfolding os_wait_timeout
    os_wait_timeout-Owns fuel dur p w owns =
        ground (arith, wait_loop-Owns fuel (os.now w + dur) 1_000_000 p w owns)

    -- What a client does with the object: it calls its methods, one after another.
    pub data Step : Popen → World → Popen → World → Type 0 where
      wait :
          (fuel : ℕ) (p p' : Popen) (w w' : World) (reply : Result ExitStatus PopenError)
          → os_wait os fuel p w ≡ returned (reply, p', w')
          → Step p w p' w'
      wait_timeout :
          (fuel dur : ℕ) (p p' : Popen) (w w' : World)
          (reply : Result (Option ExitStatus) PopenError)
          → os_wait_timeout os fuel dur p w ≡ returned (reply, p', w')
          → Step p w p' w'
      polls :
          (fuel : ℕ) (p p' : Popen) (w w' : World) (status : Option ExitStatus)
          → poll os fuel p w ≡ returned (status, p', w')
          → Step p w p' w'
      signals :
          (signal : ℕ) (p : Popen) (w w' : World) (reply : Result (Unit {0}) IoError)
          → send_signal os signal p w ≡ returned (reply, w')
          → Step p w p w'
      detaches : (p : Popen) (w : World) → Step p w (detach os p) w

    pub data Steps : Popen → World → Popen → World → Type 0 where
      done : (p : Popen) (w : World) → Steps p w p w
      then_step :
          (p p1 p2 : Popen) (w w1 w2 : World) → Step p w p1 w1 → Steps p1 w1 p2 w2 → Steps p w p2 w2

    from_run :
        {A E : Type 0} (run : Reply os A E) (reply : Result A E) (p' : Popen) (w' : World)
        → run ≡ returned (reply, p', w')
        → Gives OwnsAfter run
        → Owns p' w'
    from_run run reply p' w' e own = subst (λ x. Gives OwnsAfter x) e own

    Step-Owns : (p p' : Popen) (w w' : World) → Step p w p' w' → Owns p w → Owns p' w'
    unfolding send_signal detach poll
    Step-Owns _ _ _ _ (wait fuel p p' w w' reply e) owns =
        from_run (os_wait os fuel p w) reply p' w' e (os_wait-Owns fuel p w owns)
    Step-Owns _ _ _ _ (wait_timeout fuel dur p p' w w' reply e) owns =
        from_run (os_wait_timeout os fuel dur p w) reply p' w' e
          (os_wait_timeout-Owns fuel dur p w owns)
    Step-Owns _ _ _ _ (polls fuel p p' w w' status e) owns =
        ground (arith, e, os_wait_timeout-Owns fuel 0 p w owns)
    Step-Owns _ _ _ _ (signals signal p w w' reply e) owns = elim (State-cases p.child_state) [
      | inl s ↦ absurd (ground (arith, s, owns))
      | inr (inl (pid, s)) ↦ ground (arith, s, e, owns, laws.kill_keeps pid pid signal w)
      | inr (inr (status, s)) ↦ ground (arith, s)
    ]
    Step-Owns _ _ _ _ (detaches p w) owns = owns

    Steps-Owns : (p p' : Popen) (w w' : World) → Steps p w p' w' → Owns p w → Owns p' w'
    Steps-Owns _ _ _ _ (done p w) owns = owns
    Steps-Owns _ _ _ _ (then_step p p1 p2 w w1 w2 s ss) owns =
        Steps-Owns p1 p2 w1 w2 ss (Step-Owns p p1 w w1 s owns)

    -- The signal makes no system call, or goes to a child that nobody has waited for.
    abbrev pub GoesToChild : ℕ → World → Run (Result (Unit {0}) IoError × World) → Type 0
    GoesToChild signal w run =
        (run ≡ returned (ok tt, w))
        ⊎ ((pid : ℕ) × (run ≡ returned (os.sys_kill pid signal w)) × (unreaped pid w ≡ true))

    -- If a wait reaps only the child whose pid it returns, or one for which it reports ECHILD: from
    -- an object whose running child nobody has waited for, after any calls of `wait`,
    -- `wait_timeout`, `poll`, `send_signal` and `detach` that return, in any order, a signal is
    -- sent only to a child that nobody has waited for, and so never to another process that has got
    -- its pid; else it is no system call at all.
    pub send_signal-GoesToChild :
        (signal : ℕ) (p p' : Popen) (w w' : World)
        → Owns p w
        → Steps p w p' w'
        → GoesToChild signal w' (send_signal os signal p' w')
    unfolding send_signal
    send_signal-GoesToChild signal p p' w w' owns steps =
        let own = Steps-Owns p p' w w' steps owns in
        elim (State-cases p'.child_state) [
          | inl e ↦ absurd (ground (arith, e, own))
          | inr (inl (pid, e)) ↦ inr (pid, ground (arith, e), ground (arith, e, own))
          | inr (inr (status, e)) ↦ inl (ground (arith, e))
        ]
