-- ===== src/Popen/Child/Waiting.antt =====
-- `os_wait_timeout` of src/popen.rs.
use rust_subprocess.Prelude.{
  ℕ, zero, suc, ◌+◌, ◌-◌, ◌*◌, ◌≤◌, ◌<◌, ◌≡◌, ◌⊎◌, refl, min, Bool, true, false, Option, none, some,
  arith, leb, inl, inr, if◌then◌else◌, Result, ok, err, IoError, returned, panicked, Delivers,
  and_then-Delivers, ◌==◌, ==_iff, Bool-cases,
}
use rust_subprocess.OsCommon.{ExitStatus, undetermined}
use rust_subprocess.Posix.Process.{ProcessOs, wait_pid, is_echild}
use rust_subprocess.Popen.State.{
  PopenError, io_error, Popen, ChildState, preparing, running, finished,
}
use rust_subprocess.Popen.Child.{waitpid, wait_loop, os_wait_timeout, Reply}

-- Time goes on, and a sleep takes at least as long as it was asked to.
pub record KeepsTime (os : ProcessOs) : Type 0 where
  pub wait_later :
      (pid : ℕ) (block : Bool) (w : os.World) → os.now w ≤ os.now (os.sys_waitpid pid block w).1
  pub sleeps : (d : ℕ) (w : os.World) → os.now w + d ≤ os.now (os.sleep d w)

-- `create` has returned the object.
abbrev pub IsStarted : Popen → Type 0
IsStarted p = elim p.child_state [ preparing ↦ ⊥ | running pid ↦ Unit | finished status ↦ Unit ]

-- The child has ended with the status, and nothing else has changed.
abbrev pub ended : Popen → ExitStatus → Popen
ended p status = record p { child_state = finished status }

pub State-cases :
    (s : ChildState)
    → (s ≡ preparing)
      ⊎ (((pid : ℕ) × (s ≡ running pid)) ⊎ ((status : ExitStatus) × (s ≡ finished status)))
State-cases preparing = inl refl
State-cases (running pid) = inr (inl (pid, refl))
State-cases (finished status) = inr (inr (status, refl))

module _ (os : ProcessOs) where
  open os use {World, now, sleep}

  -- The branches of `waitpid` behind its call of waitpid(2).
  abbrev pub recorded :
      Popen → ℕ → Result (ℕ × ExitStatus) IoError × World → Reply os (Unit {0}) IoError
  recorded p pid t = elim t.0 [
    | err e ↦
        if is_echild os e
        then returned (ok tt, record p { child_state = finished undetermined }, t.1)
        else returned (err e, p, t.1)
    | ok (pid_out, status) ↦
        if pid_out == pid
        then returned (ok tt, record p { child_state = finished status }, t.1)
        else returned (ok tt, p, t.1)
  ]

  -- And `waitpid` of an object in the state.
  abbrev pub waitpid_in : Bool → Popen → World → ChildState → Reply os (Unit {0}) IoError
  waitpid_in block p w s = elim s [
    | preparing ↦ panicked
    | running pid ↦ recorded p pid (wait_pid os pid block w)
    | finished status ↦ returned (ok tt, p, w)
  ]

  -- The last call of waitpid(2), of that kind, has given the world and this status of the process, or
  -- the error ECHILD, which leaves the status undetermined.
  abbrev pub Told : Bool → ℕ → ExitStatus → World → Type 0
  Told block pid status w' =
      (w : World) × ((wait_pid os pid block w ≡ (ok (pid, status), w'))
        ⊎ ((e : IoError) × (wait_pid os pid block w ≡ (err e, w'))
            × (is_echild os e ≡ true)
            × (status ≡ undetermined)))

  -- The status is that of the child of an object in this state.
  abbrev pub IsStatusOf : Bool → ChildState → ExitStatus → World → Type 0
  IsStatusOf block preparing status w' = ⊥
  IsStatusOf block (running pid) status w' = Told block pid status w'
  IsStatusOf block (finished known) status w' = status ≡ known

  -- What a call of `waitpid` leaves.
  abbrev Looked : Bool → Popen → World → (Result (Unit {0}) IoError × Popen × World) → Type 0
  Looked block p w (err e, p', w') = (p' ≡ p) × (now w ≤ now w')
  Looked block p w (ok _, p', w') =
      (elim p'.child_state [
        | preparing ↦ ⊥
        | running pid ↦ p' ≡ p
        | finished status ↦ (p' ≡ ended p status) × IsStatusOf block p.child_state status w'
      ])
      × (now w ≤ now w')

  module _ (time : KeepsTime os) where
    wait_pid_later : (pid : ℕ) (block : Bool) (w : World) → now w ≤ now (wait_pid os pid block w).1
    unfolding wait_pid
    wait_pid_later pid block w = time.wait_later pid block w

    waitpid-Looked :
        (block : Bool) (p : Popen) (w : World)
        → IsStarted p
        → Delivers (Looked block p w) (waitpid os block p w)
    unfolding waitpid
    waitpid-Looked block p w started = at p.child_state refl
      where
        told :
            (pid : ℕ) (t : Result (ℕ × ExitStatus) IoError × World)
            → wait_pid os pid block w ≡ t
            → now w ≤ now t.1
            → p.child_state ≡ running pid
            → Delivers (Looked block p w) (recorded p pid t)
        told pid (err e, w') said later has = elim (Bool-cases (is_echild os e)) [
          | inl h ↦ rw (h, has) ((refl, (w, inr (e, said, h, refl))), later)
          | inr h ↦ rw h (refl, later)
        ]
        told pid (ok (pid_out, status), w') said later has = elim (Bool-cases (pid_out == pid)) [
          | inl h ↦
              let same : pid_out ≡ pid = (==_iff pid_out pid).0 h in
              rw (h, has) ((refl, (w, inl (rw same at said))), later)
          | inr h ↦ rw (h, has) (refl, later)
        ]

        at :
            (s : ChildState)
            → p.child_state ≡ s
            → Delivers (Looked block p w) (waitpid_in block p w s)
        at preparing e = absurd (ground (arith, e, started))
        at (running pid) e = told pid _ refl (wait_pid_later pid block w) e
        at (finished status) e = rw e ((ground (arith, e), rw e refl), omega arith)

    -- What `wait_timeout` comes back with.
    abbrev pub Waited : ℕ → Popen → (Result (Option ExitStatus) PopenError × Popen × World) → Type 0
    Waited deadline p (ok (some status), p', w') =
        (p' ≡ ended p status) × IsStatusOf false p.child_state status w'
    Waited deadline p (ok none, p', w') = (p' ≡ p) × (deadline ≤ now w')
    Waited deadline p (err e, p', w') = p' ≡ p

    -- Behind a look at the child, if the later rounds do what they should.
    decide :
        (fuel deadline delay : ℕ) (p : Popen) (w : World)
        (t : Result (Unit {0}) IoError × Popen × World)
        → Looked false p w t
        → ((w' : World)
            → now w ≤ now w'
            → now w' < deadline
            → Delivers (Waited deadline p) (
                wait_loop os fuel deadline
                  (min (delay * 2) 100_000_000)
                  p
                  (sleep (min delay (deadline - now w')) w')))
        → Delivers (Waited deadline p) (elim t.0 [
          | err e ↦ returned (err (io_error e), t.1, t.2)
          | ok _ ↦
              let again =
                wait_loop os fuel deadline
                  (min (delay * 2) 100_000_000)
                  t.1
                  (sleep (min delay (deadline - now t.2)) t.2) in
              let no_status =
                if leb deadline (now t.2) then returned (ok none, t.1, t.2) else again in
              elim t.1.child_state [
                | finished status ↦ returned (ok (some status), t.1, t.2)
                | preparing ↦ no_status
                | running pid ↦ no_status
              ]
        ])
    decide fuel deadline delay p w (err e, p', w') looked again = looked.0
    decide fuel deadline delay p w (ok u, p', w') looked again = elim (State-cases p'.child_state) [
      | inl e ↦ absurd (ground (arith, e, looked))
      | inr (inl (pid, e)) ↦
          let same : p' ≡ p = ground (arith, e, looked) in
          rw same (ground (arith, e, same, looked.1, again w'))
      | inr (inr (status, e)) ↦ ground (arith, e, looked)
    ]

    wait_loop-Waited :
        (fuel deadline delay : ℕ) (p : Popen) (w : World)
        → IsStarted p
        → 1_000_000 ≤ delay
        → deadline - now w ≤ fuel * 1_000_000
        → Delivers (Waited deadline p) (wait_loop os (suc fuel) deadline delay p w)
    unfolding wait_loop
    wait_loop-Waited zero deadline delay p w started long enough =
        and_then-Delivers (Looked false p w) (Waited deadline p) (waitpid os false p w) _
          (waitpid-Looked false p w started)
          λ t looked. decide zero deadline delay p w t looked λ w' later early. absurd (omega arith)
    wait_loop-Waited (suc fuel) deadline delay p w started long enough =
        and_then-Delivers (Looked false p w) (Waited deadline p) (waitpid os false p w) _
          (waitpid-Looked false p w started)
          λ t looked. decide (suc fuel) deadline delay p w t looked λ w' later early.
            wait_loop-Waited fuel deadline (min (delay * 2) 100_000_000) p
              (sleep (min delay (deadline - now w')) w') started (omega arith)
              (omega (arith, time.sleeps (min delay (deadline - now w')) w'))

    -- If time goes on and a sleep takes as long as it was asked to: for a started child, a
    -- `wait_timeout` that may look at it once for each millisecond of the duration, and once more,
    -- returns, unless the duration would be over later than at the last instant that can be
    -- represented. It comes back with the status that the last call of waitpid(2) has told of the
    -- child, which the object then holds, and which is undetermined only behind an ECHILD; or with
    -- the status that the object had; or with none, the object as it was and the duration over; or
    -- with an error of waitpid(2), the object as it was.
    pub os_wait_timeout-Waited :
        (fuel dur : ℕ) (p : Popen) (w : World)
        → IsStarted p
        → dur ≤ fuel * 1_000_000
        → dur ≤ os.latest - now w
        → Delivers (Waited (now w + dur) p) (os_wait_timeout os (suc fuel) dur p w)
    unfolding os_wait_timeout
    os_wait_timeout-Waited fuel dur p w started enough in_time = ground (
      arith,
      wait_loop-Waited fuel (now w + dur) 1_000_000 p w started (omega arith) (omega arith),
    )
