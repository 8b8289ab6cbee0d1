-- ===== src/Popen/Child/Blocking.antt =====
-- `os_wait` of src/popen.rs.
use rust_subprocess.Prelude.{
  ℕ, zero, suc, ◌≤◌, ◌<◌, ◌≡◌, ◌⊎◌, refl, true, arith, inl, inr, Result, ok, err, IoError, returned,
  panicked, Delivers, and_then-Delivers, ◌==◌, ==_iff, Bool-cases, and_then,
}
use rust_subprocess.OsCommon.{ExitStatus}
use rust_subprocess.Posix.Process.{ProcessOs, wait_pid, is_echild}
use rust_subprocess.Popen.State.{
  PopenError, io_error, Popen, ChildState, preparing, running, finished,
}
use rust_subprocess.Popen.Child.{waitpid, os_wait, Reply}
use rust_subprocess.Popen.Child.Waiting.{
  IsStarted, ended, State-cases, recorded, waitpid_in, IsStatusOf,
}

running-injective : (a b : ℕ) → running a ≡ running b → a ≡ b
running-injective a b e = cc

-- A call of waitpid(2) that blocks comes back with the child's pid, or with an error, but for finitely
-- many calls that come back with something else.
pub record Blocks (os : ProcessOs) : Type 0 where
  pub others : os.World → ℕ
  pub blocks :
      (pid pid_out : ℕ) (status : ExitStatus) (w w' : os.World)
      → wait_pid os pid true w ≡ (ok (pid_out, status), w')
      → (pid_out ≡ pid) ⊎ (others w' < others w)

module _ (os : ProcessOs) (law : Blocks os) where
  open os use {World}
  open law use {others}

  -- What `wait` comes back with.
  abbrev pub WaitedFor : Popen → (Result ExitStatus PopenError × Popen × World) → Type 0
  WaitedFor p (ok status, p', w') =
      (p' ≡ ended p status) × IsStatusOf os true p.child_state status w'
  WaitedFor p (err e, p', w') = p' ≡ p

  abbrev SawEnd : Popen → World → (Result (Unit {0}) IoError × Popen × World) → Type 0
  SawEnd p w (err e, p', w') = p' ≡ p
  SawEnd p w (ok _, p', w') = elim p'.child_state [
    | preparing ↦ ⊥
    | running pid ↦ (p' ≡ p) × (others w' < others w)
    | finished status ↦ (p' ≡ ended p status) × IsStatusOf os true p.child_state status w'
  ]

  waitpid-SawEnd :
      (p : Popen) (w : World) (pid : ℕ)
      → p.child_state ≡ running pid
      → Delivers (SawEnd p w) (waitpid os true p w)
  unfolding waitpid
  waitpid-SawEnd p w pid has = at p.child_state refl has
    where
      told :
          (t : Result (ℕ × ExitStatus) IoError × World)
          → wait_pid os pid true w ≡ t
          → Delivers (SawEnd p w) (recorded os p pid t)
      told (err e, w') said = elim (Bool-cases (is_echild os e)) [
        | inl h ↦ rw (h, has) (refl, (w, inr (e, said, h, refl)))
        | inr h ↦ rw h refl
      ]
      told (ok (pid_out, status), w') said = elim (Bool-cases (pid_out == pid)) [
        | inl h ↦
            let same : pid_out ≡ pid = (==_iff pid_out pid).0 h in
            rw (h, has) (refl, (w, inl (rw same at said)))
        | inr h ↦ elim (law.blocks pid pid_out status w w' said) [
          | inl same ↦ let is_pid = (==_iff pid_out pid).1 same in cc
          | inr fewer ↦ rw (h, has) (refl, fewer)
        ]
      ]

      at :
          (s : ChildState)
          → p.child_state ≡ s
          → s ≡ running pid
          → Delivers (SawEnd p w) (waitpid_in os true p w s)
      at preparing e h = cc
      at (running other) e h =
          let same : other ≡ pid = running-injective other pid h in rw same (told _ refl)
      at (finished status) e h = cc

  -- Behind a call of `waitpid`, if the later rounds do what they should.
  go_on :
      (fuel : ℕ) (p : Popen) (w : World) (t : Result (Unit {0}) IoError × Popen × World)
      → SawEnd p w t
      → ((w' : World) → others w' < others w → Delivers (WaitedFor p) (os_wait os (suc fuel) p w'))
      → Delivers (WaitedFor p) (elim t.0 as (λ _. Reply os ExitStatus PopenError) [
        | err e ↦ returned (err (io_error e), t.1, t.2)
        | ok _ ↦ os_wait os (suc fuel) t.1 t.2
      ])
  unfolding os_wait
  go_on fuel p w (err e, p', w') saw again = saw
  go_on fuel p w (ok u, p', w') saw again = elim (State-cases p'.child_state) [
    | inl e ↦ absurd (ground (arith, e, saw))
    | inr (inl (pid, e)) ↦
        let (same, fewer) : (p' ≡ p) × (others w' < others w) = rw e at saw in
        rw same (again w' fewer)
    | inr (inr (status, e)) ↦
        let (same, told) : (p' ≡ ended p status) × IsStatusOf os true p.child_state status w' =
          rw e at saw in
        rw same (refl, told)
  ]

  first_call :
      (fuel : ℕ) (p : Popen) (w : World)
      → IsStarted p
      → (s : ChildState) → p.child_state ≡ s
      → ((w' : World) → others w' < others w → Delivers (WaitedFor p) (os_wait os (suc fuel) p w'))
      → Delivers (WaitedFor p) (elim s as (λ _. Reply os ExitStatus PopenError) [
        | preparing ↦ panicked
        | running pid ↦ and_then (waitpid os true p w) λ t.
            let (reply, p', w') = t in
            elim reply [
              | err e ↦ returned (err (io_error e), p', w')
              | ok _ ↦ os_wait os (suc fuel) p' w'
            ]
        | finished status ↦ returned (ok status, p, w)
      ])
  unfolding os_wait
  first_call fuel p w started preparing e again = absurd (ground (arith, e, started))
  first_call fuel p w started (running pid) e again =
      and_then-Delivers (SawEnd p w) (WaitedFor p) (waitpid os true p w) _
        (waitpid-SawEnd p w pid e) λ t saw. go_on fuel p w t saw again
  first_call fuel p w started (finished status) e again = (ground (arith, e), rw e refl)

  -- If a blocking waitpid(2) comes back with the child's pid or an error, but for finitely many calls:
  -- for a started child, `wait` returns after at most one call more than these. It comes back with
  -- the status that the last call of waitpid(2) has told of the child, which the object then holds,
  -- and which is undetermined only behind an ECHILD; or with the status that the object had; or with
  -- an error and the object as it was.
  pub os_wait-WaitedFor :
      (fuel : ℕ) (p : Popen) (w : World)
      → IsStarted p
      → others w ≤ fuel
      → Delivers (WaitedFor p) (os_wait os (suc (suc fuel)) p w)
  unfolding os_wait
  os_wait-WaitedFor zero p w started enough =
      first_call zero p w started p.child_state refl λ w' fewer. absurd (omega (arith, enough))
  os_wait-WaitedFor (suc fuel) p w started enough =
      first_call (suc fuel) p w started p.child_state refl
        λ w' fewer. os_wait-WaitedFor fuel p w' started (omega (arith, enough))
