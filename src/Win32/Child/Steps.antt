-- ===== src/Win32/Child/Steps.antt =====
-- One call of a method of `Popen` on Windows (src/popen.rs).
use rust_subprocess.Prelude.{
  ℕ, ◌≢◌, refl, subst, sym, not, Option, none, some, arith, ◌==◌, if◌then◌else◌, Result, ok, err,
  IoError, returned, panicked, Gives, and_then, and_then-Gives, Bool-cases, inl, inr,
}
use rust_subprocess.OsCommon.{ExitStatus, exited}
use rust_subprocess.Popen.State.{PopenError, io_error, logic_error}
use rust_subprocess.Win32.Calls.{
  WinOs, WaitEvent, object_0, abandoned, timed_out, still_active, wait_for_single_object,
  get_exit_code_process, terminate_process,
}
use rust_subprocess.Win32.Child.{
  Popen, ChildState, preparing, running, finished, status_of, is_access_denied, Reply, record_exit,
  wait_handle, os_wait, os_wait_timeout, denied, os_terminate,
}
use rust_subprocess.Win32.Child.Truth.{
  Processes, Later, ProcessLaws, TrueState, IsTrue, After, TrueState-Later, Waited, wait-Waited,
  Coded, exit_code-Coded,
}

module _ {os : WinOs} (processes : Processes os) (laws : ProcessLaws processes) (handle : ℕ) where
  open os use {World}
  open processes use {exit_of}

  abbrev pub True : Popen → World → Type 0
  True p w = IsTrue processes handle p w

  abbrev pub TrueAfter : {A E : Type 0} → Result A E × Popen × World → Type 0
  TrueAfter t = After processes handle t

  -- A code that the process is known to have ended with is recorded.
  recorded :
      (p : Popen) (w : World) (t : Result ℕ IoError × World)
      → True p w
      → Coded processes laws handle w t
      → exit_of handle w ≢ none
      → TrueAfter (elim t.0 as (λ _. Result (Option ExitStatus) IoError × Popen × World) [
        | err e ↦ (err e, p, t.1)
        | ok exit_code ↦ (
          ok (some (exited exit_code)),
          record p { child_state = finished (exited exit_code) },
          t.1,
        )
      ])
  recorded p w (err e, w') holds coded ended =
      TrueState-Later processes laws handle p.child_state w w' coded holds
  recorded p w (ok code, w') holds (later, inl (active, _)) ended = absurd (ended active)
  recorded p w (ok code, w') holds (later, inr same) ended = (code, refl, later handle code same)

  record_exit-True :
      (p : Popen) (w : World) (t : Result WaitEvent IoError × World)
      → True p w
      → Waited processes laws handle w t
      → TrueAfter (record_exit os handle p t)
  unfolding record_exit
  record_exit-True p w (err e, w') holds later =
      TrueState-Later processes laws handle p.child_state w w' later holds
  record_exit-True p w (ok object_0, w') holds (later, ended) =
      recorded p w' (get_exit_code_process os handle w')
        (TrueState-Later processes laws handle p.child_state w w' later holds)
        (exit_code-Coded processes laws handle w') ended
  record_exit-True p w (ok abandoned, w') holds later =
      TrueState-Later processes laws handle p.child_state w w' later holds
  record_exit-True p w (ok timed_out, w') holds later =
      TrueState-Later processes laws handle p.child_state w w' later holds

  wait_handle-True :
      (fuel : ℕ) (timeout : Option ℕ) (p : Popen) (w : World)
      → True p w
      → Gives TrueAfter (wait_handle os fuel timeout p w)
  unfolding wait_handle
  wait_handle-True fuel timeout p w holds = at p.child_state holds
    where
      at :
          (s : ChildState)
          → TrueState processes handle s w
          → Gives TrueAfter (elim s as (λ _. Reply os (Option ExitStatus) IoError) [
            | preparing ↦ returned (ok none, p, w)
            | running pid h ↦
                and_then
                  (wait_for_single_object os fuel h timeout w)
                  λ t. returned (record_exit os h p t)
            | finished status ↦ returned (ok (some status), p, w)
          ])
      at preparing h = absurd h
      at (running pid h) same = rw same (
          and_then-Gives (Waited processes laws handle w) TrueAfter
            (wait_for_single_object os fuel handle timeout w) _
            (wait-Waited processes laws fuel handle timeout w) (λ t. record_exit-True p w t holds))
      at (finished status) h = holds

  denied-True :
      (e : IoError) (p : Popen) (w : World) → True p w → TrueAfter (denied os handle e p w)
  unfolding denied
  denied-True e p w holds = elim (Bool-cases (not (is_access_denied e))) [
    | inl other ↦ rw other holds
    | inr access ↦
        rw access (
          ended_itself (get_exit_code_process os handle w)
            (exit_code-Coded processes laws handle w))
  ]
    where
      ended_itself :
          (t : Result ℕ IoError × World)
          → Coded processes laws handle w t
          → TrueAfter (elim t.0 as (λ _. Result (Unit {0}) IoError × Popen × World) [
            | err other ↦ (err other, p, t.1)
            | ok rc ↦
                if rc == still_active
                then (err e, p, t.1)
                else (ok tt, record p { child_state = finished (exited rc) }, t.1)
          ])
      ended_itself (err other, w') later =
          TrueState-Later processes laws handle p.child_state w w' later holds
      ended_itself (ok rc, w') (later, coded) = elim (Bool-cases (rc == still_active)) [
        | inl active ↦
            rw active (TrueState-Later processes laws handle p.child_state w w' later holds)
        | inr over ↦ rw over (elim coded [
          | inl (_, same) ↦ absurd (ground (arith, over, same))
          | inr same ↦ (rc, refl, later handle rc same)
        ])
      ]

  pub os_wait-True :
      (fuel : ℕ) (p : Popen) (w : World) → True p w → Gives TrueAfter (os_wait os fuel p w)
  unfolding os_wait
  os_wait-True fuel p w holds =
      and_then-Gives TrueAfter TrueAfter (wait_handle os fuel none p w) _
        (wait_handle-True fuel none p w holds) waited
    where
      status_at :
          (p' : Popen) (w' : World) (s : ChildState)
          → True p' w'
          → Gives TrueAfter (elim s as (λ _. Reply os ExitStatus PopenError) [
            | preparing ↦ panicked
            | finished status ↦ returned (ok status, p', w')
            | running pid h ↦ returned (err (logic_error "Failed to obtain exit status"), p', w')
          ])
      status_at p' w' preparing h = tt
      status_at p' w' (running pid x) h = h
      status_at p' w' (finished status) h = h

      waited :
          (t : Result (Option ExitStatus) IoError × Popen × World)
          → TrueAfter t
          → Gives TrueAfter (elim t.0 as (λ _. Reply os ExitStatus PopenError) [
            | err e ↦ returned (err (io_error e), t.1, t.2)
            | ok _ ↦ elim t.1.child_state [
              | preparing ↦ panicked
              | finished status ↦ returned (ok status, t.1, t.2)
              | running pid h ↦
                  returned (err (logic_error "Failed to obtain exit status"), t.1, t.2)
            ]
          ])
      waited (err e, p', w') h = h
      waited (ok o, p', w') h = status_at p' w' p'.child_state h

  pub os_wait_timeout-True :
      (fuel dur : ℕ) (p : Popen) (w : World)
      → True p w
      → Gives TrueAfter (os_wait_timeout os fuel dur p w)
  unfolding os_wait_timeout
  os_wait_timeout-True fuel dur p w holds = at p.child_state _ (
      and_then-Gives TrueAfter TrueAfter (wait_handle os fuel (some dur) p w) _
        (wait_handle-True fuel (some dur) p w holds) waited)
    where
      at :
          (s : ChildState) (r : Reply os (Option ExitStatus) PopenError)
          → Gives TrueAfter r
          → Gives TrueAfter (elim s as (λ _. Reply os (Option ExitStatus) PopenError) [
            | finished status ↦ returned (ok (some status), p, w)
            | preparing ↦ r
            | running pid h ↦ r
          ])
      at preparing r h = h
      at (running pid x) r h = h
      at (finished status) r h = holds

      waited :
          (t : Result (Option ExitStatus) IoError × Popen × World)
          → TrueAfter t
          → Gives TrueAfter (elim t.0 as (λ _. Reply os (Option ExitStatus) PopenError) [
            | err e ↦ returned (err (io_error e), t.1, t.2)
            | ok _ ↦ returned (ok (status_of t.1.child_state), t.1, t.2)
          ])
      waited (err e, p', w') h = h
      waited (ok o, p', w') h = h

  pub os_terminate-True : (p : Popen) (w : World) → True p w → TrueAfter (os_terminate os p w)
  unfolding os_terminate terminate_process
  os_terminate-True p w holds = at p.child_state holds
    where
      tried :
          (t : Result (Unit {0}) IoError × World)
          → Later processes w t.1
          → TrueAfter (elim t.0 as (λ _. Result (Unit {0}) IoError × Popen × World) [
            | ok _ ↦ (ok tt, p, t.1)
            | err e ↦ denied os handle e p t.1
          ])
      tried (ok u, w') later = TrueState-Later processes laws handle p.child_state w w' later holds
      tried (err e, w') later =
          denied-True e p w' (TrueState-Later processes laws handle p.child_state w w' later holds)

      at :
          (s : ChildState)
          → TrueState processes handle s w
          → TrueAfter (elim s as (λ _. Result (Unit {0}) IoError × Popen × World) [
            | preparing ↦ (ok tt, p, w)
            | running pid h ↦
                let t = terminate_process os h 1 w in
                elim t.0 [ ok _ ↦ (ok tt, p, t.1) | err e ↦ denied os h e p t.1 ]
            | finished status ↦ (ok tt, p, w)
          ])
      at preparing h = absurd h
      at (running pid h) same =
          subst
            (λ (x : ℕ).
              TrueAfter
                (elim (terminate_process os x 1 w).0
                  as (λ _. Result (Unit {0}) IoError × Popen × World) [
                    | ok _ ↦ (ok tt, p, (terminate_process os x 1 w).1)
                    | err e ↦ denied os x e p (terminate_process os x 1 w).1
                  ]))
            (sym same) (tried (terminate_process os handle 1 w) (laws.terminate_later handle 1 w))
      at (finished status) h = holds
